-- ===== src/Prelude/Parse.antt =====
-- What `strconv` reads, and that `ParseUint` reads what `FormatUint` writes.
use Prim.Native.Char.{code}
use Prim.Native.Nat.{ℕ, zero, suc, ◌+◌, ◌-◌, ◌*◌, ◌/◌, ◌%◌, ◌^◌, ◌≤◌, ◌<◌}
use Prim.Native.String.{String, ◌++◌}
use mathlib.Core.Path.{◌≡◌, refl, sym, ap, ◌∙◌, subst}
use mathlib.Core.Bool.{Bool, true, false, ◌&&◌, ◌||◌}
use text.Mathlib.Text.{◌==◌ as str_eq}
use backend_golang_task.Prelude.Int.{ℤ, pos, sub_ℕ}
use mathlib.Core.Option.{Option, none, some}
use mathlib.Core.List.{List, [], ◌∷◌, ◌++◌ as append}
use text.Mathlib.TextLemmas.{nil-append, cons-append}
use native.Mathlib.Omega.{arith}
use backend_golang_task.Prelude.Tests.{◌==◌, ltb, leb, if◌then◌else◌}
use backend_golang_task.Prelude.Decimal.{digit, decimal_on, decimal}

abbrev pub char_codes : String → List ℕ
char_codes String.[] = []
char_codes (String.◌∷◌ c s) = code c ∷ char_codes s

-- The number that the digits add to the one read so far.
unfoldable pub read : List ℕ → ℕ → Option ℕ
read [] n = some n
read (c ∷ cs) n =
    let rest = read cs (n * 10 + (c - 48)) in if leb 48 c && leb c 57 then rest else none

abbrev is_nil : List ℕ → Bool
is_nil [] = true
is_nil (_ ∷ _) = false

abbrev in_range : Option ℕ → Option ℕ
in_range none = none
in_range (some n) = if ltb n (2 ^ 64) then some n else none

abbrev pub parse_uint : String → Option ℕ
parse_uint s = if is_nil (char_codes s) then none else in_range (read (char_codes s) 0)

char_codes-append : (s t : String) → char_codes (s ++ t) ≡ append (char_codes s) (char_codes t)
char_codes-append String.[] t = ap char_codes (nil-append t)
char_codes-append (String.◌∷◌ c s) t =
    ap char_codes (cons-append c s t) ∙ ap (λ cs. code c ∷ cs) (char_codes-append s t)

char_codes-digit : (n : ℕ) → n < 10 → char_codes (digit n) ≡ (48 + n) ∷ []
char_codes-digit zero lt = refl
char_codes-digit (suc zero) lt = refl
char_codes-digit (suc (suc zero)) lt = refl
char_codes-digit (suc (suc (suc zero))) lt = refl
char_codes-digit (suc (suc (suc (suc zero)))) lt = refl
char_codes-digit (suc (suc (suc (suc (suc zero))))) lt = refl
char_codes-digit (suc (suc (suc (suc (suc (suc zero)))))) lt = refl
char_codes-digit (suc (suc (suc (suc (suc (suc (suc zero))))))) lt = refl
char_codes-digit (suc (suc (suc (suc (suc (suc (suc (suc zero)))))))) lt = refl
char_codes-digit (suc (suc (suc (suc (suc (suc (suc (suc (suc zero))))))))) lt = refl
char_codes-digit (suc (suc (suc (suc (suc (suc (suc (suc (suc (suc n)))))))))) lt =
    ground (arith, lt)

record Reads (n : ℕ) (cs : List ℕ) : Type 0 where
  number : read cs 0 ≡ some n
  some_digit : is_nil cs ≡ false

read-append_digit :
    (cs : List ℕ) (start n d : ℕ)
    → d < 10
    → read cs start ≡ some n
    → read (append cs ((48 + d) ∷ [])) start ≡ some (n * 10 + d)
unfolding read
read-append_digit [] start n d lt e = ground (arith, e)
read-append_digit (c ∷ cs) start n d lt e =
    ground (arith, e, read-append_digit cs (start * 10 + (c - 48)) n d lt)

is_nil-append_one : (cs : List ℕ) (d : ℕ) → is_nil (append cs (d ∷ [])) ≡ false
is_nil-append_one [] d = refl
is_nil-append_one (c ∷ cs) d = refl

read-nil : read [] 0 ≡ some 0
unfolding read
read-nil = refl

digit-Reads : (n : ℕ) → n < 10 → Reads n (char_codes (digit n))
digit-Reads n lt = subst (Reads n) (sym (char_codes-digit n lt)) (record {
  number = read-append_digit [] 0 0 n lt read-nil ∙ ap some (omega arith);
  some_digit = refl;
})

append-Reads :
    (s : String) (n : ℕ)
    → Reads (n / 10) (char_codes s)
    → Reads n (char_codes (s ++ digit (n % 10)))
append-Reads s n h =
    subst (Reads n)
      (sym (
        char_codes-append s (digit (n % 10))
        ∙ ap (append (char_codes s)) (char_codes-digit (n % 10) (omega arith))))
      (record {
        number =
            read-append_digit (char_codes s) 0 (n / 10) (n % 10) (omega arith) h.number
            ∙ ap some (omega arith);
        some_digit = is_nil-append_one (char_codes s) (48 + n % 10);
      })

decimal_on-Reads : (fuel n : ℕ) → n ≤ fuel → Reads n (char_codes (decimal_on fuel n))
unfolding decimal_on
decimal_on-Reads zero n le = digit-Reads n (omega (arith, le))
decimal_on-Reads (suc fuel) n le = go (ltb n 10) refl (decimal_on-Reads fuel (n / 10))
  where
    go :
        (b : Bool)
        → ltb n 10 ≡ b
        → (n / 10 ≤ fuel → Reads (n / 10) (char_codes (decimal_on fuel (n / 10))))
        → Reads n (char_codes (if b then digit n else decimal_on fuel (n / 10) ++ digit (n % 10)))
    go true e rest = digit-Reads n (ground (arith, e))
    go false e rest = append-Reads (decimal_on fuel (n / 10)) n (rest (ground (arith, e, le)))

-- What `FormatUint` writes of a number of 64 bits is read as that number.
pub parse_uint-decimal : (n : ℕ) → n < 2 ^ 64 → parse_uint (decimal n) ≡ some n
unfolding decimal
parse_uint-decimal n lt =
    let r = decimal_on-Reads n n (omega arith) in ground (arith, lt, r.number, r.some_digit)

-- `strconv.Atoi`: a sign, and the digits of a number that 64 bits hold.
abbrev within : ℕ → (ℕ → ℤ) → Option ℕ → Option ℤ
within bound make none = none
within bound make (some n) = if leb n bound then some (make n) else none

abbrev digits_or_none : List ℕ → Option ℕ
digits_or_none [] = none
digits_or_none (c ∷ cs) = read (c ∷ cs) 0

abbrev signed : List ℕ → Option ℤ
signed [] = none
signed (c ∷ cs) =
    if c == b'-'
    then within (2 ^ 63) (sub_ℕ 0) (digits_or_none cs)
    else if c == b'+'
    then within (2 ^ 63 - 1) pos (digits_or_none cs)
    else within (2 ^ 63 - 1) pos (digits_or_none (c ∷ cs))

abbrev pub atoi : String → Option ℤ
atoi s = signed (char_codes s)

-- `strconv.ParseBool`
abbrev pub parse_bool : String → Option Bool
parse_bool s =
    if str_eq s "1"
      || str_eq s "t"
      || str_eq s "T"
      || str_eq s "TRUE"
      || str_eq s "true"
      || str_eq s "True"
    then some true
    else if str_eq s "0"
        || str_eq s "f"
        || str_eq s "F"
        || str_eq s "FALSE"
        || str_eq s "false"
        || str_eq s "False"
    then some false
    else none

-- `len(s)`: the bytes of a text in UTF-8.
abbrev width : ℕ → ℕ
width c = if ltb c 0x80 then 1 else if ltb c 0x800 then 2 else if ltb c 0x10000 then 3 else 4

abbrev pub byte_len : String → ℕ
byte_len String.[] = 0
byte_len (String.◌∷◌ c s) = width (code c) + byte_len s
