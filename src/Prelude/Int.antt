-- ===== src/Prelude/Int.antt =====
-- Go's signed integers: ℤ over the native numbers, and `int64` (also Go's `int`, on the 64-bit
-- targets of the build), which wraps around at 2 ^ 64.
use Prim.Native.Nat.{ℕ, suc, ◌+◌, ◌-◌, ◌*◌, ◌%◌, ◌^◌, ◌≤◌, ◌<◌}
use mathlib.Core.Path.{◌≡◌, refl}
use mathlib.Core.Bool.{Bool}
use native.Mathlib.Omega.{arith}
use backend_golang_task.Prelude.Tests.{ltb, leb, ◌==◌, if◌then◌else◌}

-- `negsuc n` is -(n + 1).
pub data ℤ : Type 0 where
  pos : ℕ → ℤ
  negsuc : ℕ → ℤ

abbrev pub pos_part : ℤ → ℕ
pos_part (pos n) = n
pos_part (negsuc n) = 0

abbrev neg_part : ℤ → ℕ
neg_part (pos n) = 0
neg_part (negsuc n) = suc n

-- a - b, as an integer.
abbrev pub sub_ℕ : ℕ → ℕ → ℤ
sub_ℕ a b = if leb b a then pos (a - b) else negsuc (b - a - 1)

infixl 65 ◌+ℤ◌ ◌-ℤ◌
infixl 70 ◌*ℤ◌
infix 50 ◌≤ℤ◌ ◌<ℤ◌
unfoldable pub ◌+ℤ◌ : ℤ → ℤ → ℤ
a +ℤ b = sub_ℕ (pos_part a + pos_part b) (neg_part a + neg_part b)

unfoldable pub ◌-ℤ◌ : ℤ → ℤ → ℤ
a -ℤ b = sub_ℕ (pos_part a + neg_part b) (neg_part a + pos_part b)

unfoldable pub ◌*ℤ◌ : ℤ → ℤ → ℤ
a *ℤ b =
    sub_ℕ (pos_part a * pos_part b + neg_part a * neg_part b)
      (pos_part a * neg_part b + neg_part a * pos_part b)

abbrev pub ◌≤ℤ◌ : ℤ → ℤ → Type 0
a ≤ℤ b = pos_part a + neg_part b ≤ pos_part b + neg_part a

abbrev pub ◌<ℤ◌ : ℤ → ℤ → Type 0
a <ℤ b = pos_part a + neg_part b < pos_part b + neg_part a

abbrev pub ltb_ℤ : ℤ → ℤ → Bool
ltb_ℤ a b = ltb (pos_part a + neg_part b) (pos_part b + neg_part a)

abbrev pub leb_ℤ : ℤ → ℤ → Bool
leb_ℤ a b = leb (pos_part a + neg_part b) (pos_part b + neg_part a)

abbrev pub eqb_ℤ : ℤ → ℤ → Bool
eqb_ℤ a b = pos_part a + neg_part b == pos_part b + neg_part a

-- One lemma for each operation lets `omega` work with the operations shut.
pub +ℤ_parts :
    (a b : ℤ)
    → pos_part (a +ℤ b) + neg_part a + neg_part b ≡ neg_part (a +ℤ b) + pos_part a + pos_part b
unfolding ◌+ℤ◌
+ℤ_parts a b = ground arith

pub -ℤ_parts :
    (a b : ℤ)
    → pos_part (a -ℤ b) + neg_part a + pos_part b ≡ neg_part (a -ℤ b) + pos_part a + neg_part b
unfolding ◌-ℤ◌
-ℤ_parts a b = ground arith

pub eq_of_parts : (a b : ℤ) → pos_part a + neg_part b ≡ pos_part b + neg_part a → a ≡ b
eq_of_parts a b h = ground arith

pub ruleset int_laws = (arith, +ℤ_parts, -ℤ_parts, eq_of_parts)

-- The two's complement bits of an integer, and the integer that 64 bits stand for.
abbrev to_bits : ℤ → ℕ
to_bits (pos n) = n % 2 ^ 64
to_bits (negsuc n) = 2 ^ 64 - 1 - n % 2 ^ 64

abbrev of_bits : ℕ → ℤ
of_bits r = if ltb r (2 ^ 63) then pos r else negsuc (2 ^ 64 - 1 - r)

-- What an int64 holds after an operation whose exact result is the argument.
unfoldable pub int64 : ℤ → ℤ
int64 a = of_bits (to_bits a)

-- The values that an int64 holds.
abbrev pub IsInt64 : ℤ → Type 0
IsInt64 a = (pos_part a < 2 ^ 63) × (neg_part a ≤ 2 ^ 63)

pub int64_exact : (a : ℤ) → IsInt64 a → int64 a ≡ a
unfolding int64
int64_exact (pos n) h = ground arith
int64_exact (negsuc n) h = ground arith

pub int64-IsInt64 : (a : ℤ) → IsInt64 (int64 a)
unfolding int64
int64-IsInt64 (pos n) = ground arith
int64-IsInt64 (negsuc n) = ground arith

-- 2 ^ 64 is invisible to an int64.
int64_wraps : int64 (pos (2 ^ 63)) ≡ negsuc (2 ^ 63 - 1)
unfolding int64
int64_wraps = refl

int64_parts :
    (a : ℤ)
    → (pos_part (int64 a) + neg_part a) % 2 ^ 64 ≡ (neg_part (int64 a) + pos_part a) % 2 ^ 64
unfolding int64
int64_parts (pos n) = ground arith
int64_parts (negsuc n) = ground arith

IsInt64-unique :
    (a b : ℤ)
    → IsInt64 a
    → IsInt64 b
    → (pos_part a + neg_part b) % 2 ^ 64 ≡ (neg_part a + pos_part b) % 2 ^ 64
    → a ≡ b
IsInt64-unique (pos m) (pos n) ha hb h = ground arith
IsInt64-unique (pos m) (negsuc n) ha hb h = ground arith
IsInt64-unique (negsuc m) (pos n) ha hb h = ground arith
IsInt64-unique (negsuc m) (negsuc n) ha hb h = ground arith

int64_congr :
    (a b : ℤ)
    → (pos_part a + neg_part b) % 2 ^ 64 ≡ (neg_part a + pos_part b) % 2 ^ 64
    → int64 a ≡ int64 b
int64_congr a b h =
    IsInt64-unique (int64 a) (int64 b) (int64-IsInt64 a) (int64-IsInt64 b)
      (omega (arith, int64_parts a, int64_parts b))

-- An operand that has wrapped already makes no difference to a sum that wraps.
pub int64_absorb : (a b c : ℤ) → int64 (int64 (a +ℤ int64 b) +ℤ c) ≡ int64 (a +ℤ (b +ℤ c))
int64_absorb a b c = int64_congr _ _ (omega (int_laws, int64_parts b, int64_parts (a +ℤ int64 b)))

-- A counter that wraps.
pub int64_count : (a : ℤ) (n : ℕ) → int64 (int64 (a +ℤ pos 1) +ℤ pos n) ≡ int64 (a +ℤ pos (suc n))
int64_count a n = int64_congr _ _ (omega (int_laws, int64_parts (a +ℤ pos 1)))
