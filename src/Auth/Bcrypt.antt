-- ===== src/Auth/Bcrypt.antt =====
-- internal/infrastructure/auth/bcrypt.go: the hasher, on top of golang.org/x/crypto/bcrypt.
use backend_golang_task.Prelude.{
  ℕ, String, ◌≡◌, Bool, true, if◌then◌else◌, Option, some, none, refl, arith,
}
use backend_golang_task.Errs.{Result, ok, err, new, internal, unauthorized}
use backend_golang_task.Action.{Action}
use backend_golang_task.Ports.{PasswordHasher, IsHasher}

-- The library: its state is the source of the salts, and `none` an error. The last argument of
-- `generate_from_password` is the cost.
pub record Bcrypt : Type 1 where
  pub Salts : Type 0
  pub generate_from_password : String → ℕ → Salts → Option String × Salts
  pub compare_hash_and_password : String → String → Bool

-- What its documentation says: a hash matches the password that it was generated from.
pub record IsBcrypt (b : Bcrypt) : Type 0 where
  pub matches :
      (password : String) (cost : ℕ) (s : b.Salts) {hash : String} {s' : b.Salts}
      → b.generate_from_password password cost s ≡ (some hash, s')
      → b.compare_hash_and_password hash password ≡ true

abbrev default_cost : ℕ
default_cost = 10

abbrev pub hashed : Option String → Result String
hashed none = err (new internal "password_hash_failed" "failed to hash password")
hashed (some bytes) = ok bytes

module _ (b : Bcrypt) where
  unfoldable pub hash : String → Action b.Salts String
  hash plain s =
      let (bytes, s') = b.generate_from_password plain default_cost s in (hashed bytes, s')

  unfoldable pub compare : String → String → Result (Unit {0})
  compare hash plain =
      if b.compare_hash_and_password hash plain
      then ok tt
      else err (new unauthorized "invalid_credentials" "invalid credentials")

  abbrev pub hasher : PasswordHasher
  hasher = record { State = b.Salts; hash = hash; compare = compare }

  -- A hash that the hasher has made accepts the password, as the use cases expect.
  hasher-IsHasher : IsBcrypt b → IsHasher hasher
  unfolding hash compare
  hasher-IsHasher laws = record {
    accepts = λ password s {hash = made} {s'} e.
        go password s (b.generate_from_password password default_cost s) refl e;
  }
    where
      go :
          (password : String) (s : b.Salts) {made : String} {s' : b.Salts}
          (r : Option String × b.Salts)
          → b.generate_from_password password default_cost s ≡ r
          → ◌≡◌ {A = Result String × b.Salts} (hashed r.0, r.1) (ok made, s')
          → compare made password ≡ ok tt
      go password s (none, s₁) e f = cc
      go password s (some bytes, s₁) e f = grind (arith, laws.matches password default_cost s e)
