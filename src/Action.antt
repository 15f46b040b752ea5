-- ===== src/Action.antt =====
-- Stateful code that may fail: the state comes back after an error too, since what was written
-- stays written.
use backend_golang_task.Prelude.{◌≡◌, refl}
use backend_golang_task.Errs.{Result, ok, err, Failure}

abbrev pub Action : Type 0 → Type 0 → Type 0
Action S A = S → Result A × S

module _ {S : Type 0} where
  abbrev pub pure : {A : Type 0} → A → Action S A
  pure a s = (ok a, s)

  abbrev pub raise : {A : Type 0} → Failure → Action S A
  raise e s = (err e, s)

  -- The outcome of code that does not touch the state.
  abbrev pub lift : {A : Type 0} → Result A → Action S A
  lift r s = (r, s)

  infixl 5 ◌>>=◌ ◌>>◌
  abbrev pub ◌>>=◌ : {A B : Type 0} → Action S A → (A → Action S B) → Action S B
  ◌>>=◌ m f s = let (r, s') = m s in elim r [ ok a ↦ f a s' | err e ↦ (err e, s') ]

  abbrev pub ◌>>◌ : {A B : Type 0} → Action S A → Action S B → Action S B
  m >> k = m >>= λ _. k

  -- Inversion of a chain that ended without an error.
  pub >>=-eq-ok :
      {A B : Type 0} (m : Action S A) (f : A → Action S B) (s : S) {b : B} {s' : S}
      → (m >>= f) s ≡ (ok b, s')
      → (a : A) × (s₁ : S) × (m s ≡ (ok a, s₁)) × (f a s₁ ≡ (ok b, s'))
  >>=-eq-ok {A} {B} m f s {b} {s'} h = go (m s) h
    where
      go :
          (x : Result A × S)
          → ◌>>=◌ (λ (_ : S). x) f s ≡ (ok b, s')
          → (a : A) × (s₁ : S) × (x ≡ (ok a, s₁)) × (f a s₁ ≡ (ok b, s'))
      go (ok a, s₁) e = (a, s₁, refl, e)
      go (err x, s₁) e = cc
