-- ===== src/Errs.antt =====
-- pkg/errs/errs.go: typed errors, and the value-or-error that a fallible Go function returns.
-- An error of another package is `foreign`, with the text of its `Error()`; none of the errors
-- that the code receives from another package wraps one of this package. A Go panic unwinds through
-- every caller as an error does that nobody tests for; it is the failure `panic`.
use Prim.Native.String.{◌++◌}
use backend_golang_task.Prelude.{String, Option, none, some, Bool, true, false, ◌≡◌, refl}

pub data Kind : Type 0 where
  internal validation not_found conflict unauthorized forbidden : Kind
  out_of_stock payment_failed unavailable : Kind

pub data Failure : Type 0 where
  error : Kind → String → String → Failure
  caused : Kind → String → String → Failure → Failure
  foreign : String → Failure
  panic : String → Failure

-- `New`, which `Validation`, `NotFound` and the others call with their kind.
abbrev pub new : Kind → String → String → Failure
new kind code message = error kind code message

-- The last two are no `*Error`: the source calls this on its own errors only.
abbrev pub with_cause : Failure → Failure → Failure
with_cause (error k c m) cause = caused k c m cause
with_cause (caused k c m _) cause = caused k c m cause
with_cause (foreign t) cause = foreign t
with_cause (panic t) cause = panic t

-- `Error()`
unfoldable pub text : Failure → String
text (error k c m) = c ++ (": " ++ m)
text (caused k c m cause) = c ++ (": " ++ (m ++ (": " ++ text cause)))
text (foreign t) = t
text (panic t) = t

abbrev pub kind_of : Failure → Kind
kind_of (error k c m) = k
kind_of (caused k c m _) = k
kind_of (foreign t) = internal
kind_of (panic t) = internal

-- `As`: the code and the message of the typed error, if it is one.
abbrev pub as_error : Failure → Option (String × String)
as_error (error k c m) = some (c, m)
as_error (caused k c m _) = some (c, m)
as_error (foreign t) = none
as_error (panic t) = none

abbrev pub is_panic : Failure → Bool
is_panic (panic _) = true
is_panic _ = false

-- `(T, error)`
pub data Result {ℓ} (A : Type ℓ) : Type ℓ where
  ok : A → Result A
  err : Failure → Result A

-- `if err != nil { return nil, err }`, and the rest of the function on the value.
infixl 5 ◌>>=◌ ◌>>◌
abbrev pub ◌>>=◌ {ℓ κ} : {T : Type ℓ} {U : Type κ} → Result T → (T → Result U) → Result U
err failure >>= rest = err failure
ok value >>= rest = rest value

-- `if c { return nil, e }`
abbrev pub fail_if : Bool → Failure → Result (Unit {0})
fail_if true e = err e
fail_if false e = ok tt

-- The same after a call that returns an error alone.
abbrev pub ◌>>◌ {ℓ} : {U : Type ℓ} → Result (Unit {0}) → Result U → Result U
first >> next = first >>= λ _. next

-- Inversion of a chain that returned no error.
pub >>=-eq-ok {ℓ κ} :
    {T : Type ℓ} {U : Type κ} (r : Result T) (rest : T → Result U) {u : U}
    → (r >>= rest) ≡ ok u
    → (value : T) × (r ≡ ok value) × (rest value ≡ ok u)
>>=-eq-ok (err failure) rest returned = cc
>>=-eq-ok (ok value) rest returned = (value, refl, returned)

pub fail_if-eq-ok {ℓ} :
    {A : Type ℓ} (b : Bool) (e : Failure) (m : Result A) {a : A}
    → (fail_if b e >> m) ≡ ok a
    → (b ≡ false) × (m ≡ ok a)
fail_if-eq-ok true e m h = cc
fail_if-eq-ok false e m h = (refl, h)
