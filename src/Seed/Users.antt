-- ===== src/Seed/Users.antt =====
-- The accounts of cmd/seed/main.go: what a run makes and what a second one finds.
use backend_golang_task.Prelude.{
  ℕ, ◌<◌, ◌≡◌, refl, sym, ap, ◌∙◌, subst, ltb, str_eq, Bool, true, false, if◌then◌else◌, List, [],
  ◌∷◌, length, select, All, arith,
}
use backend_golang_task.Errs.{Result, ok, err}
use backend_golang_task.Action.{pure, ◌>>=◌, ◌>>◌}
use backend_golang_task.Ports.{PasswordHasher}
use backend_golang_task.Gorm.Models.{Tables, UserModel, get, users}
use backend_golang_task.Gorm.Engine.{Gorm, IsGorm, Reads}
use backend_golang_task.Seed.{
  UserSeed, make_user, seed_counted, seed_user, seed_rest, seed_users, counting,
}
use backend_golang_task.Seed.Growth.{HasUser, Grows, Grows-refl, Grows-trans}
use backend_golang_task.Seed.Rows.{Seeds, make_user-Seeds}
use backend_golang_task.Seed.Products.{Skips, MakesNone}

pub Grows-HasUsers :
    {d d' : Tables} (us : List UserSeed) → Grows d d' → All (HasUser d) us → All (HasUser d') us
Grows-HasUsers [] more h = tt
Grows-HasUsers (u ∷ us) more (has, h) = (
  omega (arith, has, more.more_users (λ (m : UserModel). str_eq m.email u.email)),
  Grows-HasUsers us more h,
)

module _ {S : Type 0} {W : Type 0} where
  -- A result without the state of the hasher.
  abbrev pub answered : {A : Type 0} → Result A × W × S → Result A × W
  answered (r, w, s) = (r, w)

module _ (g : Gorm) (laws : IsGorm g) (h : PasswordHasher) where
  seed_user-Seeds :
      (u : UserSeed) (w : g.World) (s : h.State)
      → Seeds g (λ d. HasUser d u) (g.tables w) (answered (seed_user g h u (w, s)))
  unfolding seed_user
  seed_user-Seeds u w s = go (g.count users email w) (laws.count_law users email w)
    where
      email : UserModel → Bool
      email m = str_eq m.email u.email

      made :
          (w₁ : g.World) (s' : h.State) (x : Result (Unit {0}) × g.World)
          → Seeds g (λ d. HasUser d u) (g.tables w₁) x
          → Seeds g
              (λ d. HasUser d u)
              (g.tables w₁)
              (answered
                (let (r, w') = ◌>>=◌ (λ (_ : g.World). x) (λ _. pure true) w₁ in (r, w', s')))
      made w₁ s' (err e, w') h = h
      made w₁ s' (ok a, w') h = h

      counted :
          (n : ℕ) (w₁ : g.World) (b : Bool)
          → ltb 0 n ≡ b
          → (0 < n → HasUser (g.tables w₁) u)
          → Seeds g
              (λ d. HasUser d u)
              (g.tables w₁)
              (answered (
                if b
                then (ok false, w₁, s)
                else (let (hashed, s') = h.hash u.password s in
                    let (r, w') = (make_user g u hashed >> pure true) w₁ in (r, w', s'))))
      counted n w₁ true e has = (Grows-refl (g.tables w₁), has (ground (arith, e)))
      counted n w₁ false e has =
          let (hashed, s') = h.hash u.password s in
          made w₁ s' (make_user g u hashed w₁) (make_user-Seeds g laws u hashed w₁)

      go :
          (x : Result ℕ × g.World)
          → Reads g (g.tables w) (length (select email (get users (g.tables w)))) x
          → Seeds g (λ d. HasUser d u) (g.tables w) (answered (seed_counted g h u x s))
      go (err e, w') same = subst (Grows (g.tables w)) (sym same) (Grows-refl (g.tables w))
      go (ok n, w') (is, same) =
          subst
            (λ (d : Tables).
              Seeds g (λ d. HasUser d u) d (answered (seed_counted g h u (ok n, w') s)))
            same
            (counted n w' (ltb 0 n) refl (λ (found : 0 < n). rw same (omega (arith, is, found))))

  seed_user-Skips :
      (u : UserSeed) (w : g.World) (s : h.State)
      → HasUser (g.tables w) u
      → Skips g (g.tables w) (answered (seed_user g h u (w, s)))
  unfolding seed_user
  seed_user-Skips u w s has = go (g.count users email w) refl (laws.count_law users email w)
    where
      email : UserModel → Bool
      email m = str_eq m.email u.email

      counted :
          (n : ℕ) (w₁ : g.World) (b : Bool)
          → b ≡ true
          → g.tables w₁ ≡ g.tables w
          → Skips g (g.tables w) (
              answered (
                if b
                then (ok false, w₁, s)
                else (let (hashed, s') = h.hash u.password s in
                    let (r, w') = (make_user g u hashed >> pure true) w₁ in (r, w', s'))))
      counted n w₁ true e same = (refl, same)
      counted n w₁ false e same = absurd (cc)

      go :
          (x : Result ℕ × g.World)
          → g.count users email w ≡ x
          → Reads g (g.tables w) (length (select email (get users (g.tables w)))) x
          → Skips g (g.tables w) (answered (seed_counted g h u x s))
      go (err e, w') asked same =
          ((users, email, w, ap (λ (x : Result ℕ × g.World). x.0) asked), same)
      go (ok n, w') asked (is, same) = counted n w' (ltb 0 n) (ground (arith, is, has)) same

  pub seed_users-Seeds :
      (us : List UserSeed) (w : g.World) (s : h.State)
      → Seeds g (λ d. All (HasUser d) us) (g.tables w) (answered (seed_users g h us (w, s)))
  unfolding seed_users
  seed_users-Seeds [] w s = (Grows-refl (g.tables w), tt)
  seed_users-Seeds (u ∷ us) w s =
      go (seed_user g h u (w, s)) (seed_user-Seeds u w s) (seed_users-Seeds us)
    where
      rest :
          (made : Bool) (w₁ : g.World) (x : Result ℕ × g.World × h.State)
          → Grows (g.tables w) (g.tables w₁)
          → HasUser (g.tables w₁) u
          → Seeds g (λ d. All (HasUser d) us) (g.tables w₁) (answered x)
          → Seeds g (λ d. All (HasUser d) (u ∷ us)) (g.tables w) (answered (counting g h made x))
      rest made w₁ (err e, w', s') more has more' = Grows-trans more more'
      rest made w₁ (ok n, w', s') more has (more', all) =
          (Grows-trans more more', ((Grows-HasUsers (u ∷ []) more' (has, tt)).0, all))

      go :
          (x : Result Bool × g.World × h.State)
          → Seeds g (λ d. HasUser d u) (g.tables w) (answered x)
          → ((w₁ : g.World) (s₁ : h.State)
              → Seeds g
                  (λ d. All (HasUser d) us)
                  (g.tables w₁)
                  (answered (seed_users g h us (w₁, s₁))))
          → Seeds g
              (λ d. All (HasUser d) (u ∷ us))
              (g.tables w)
              (answered (seed_rest g h (seed_users g h us) x))
      go (err e, w₁, s₁) more all = more
      go (ok made, w₁, s₁) (more, has) all =
          rest made w₁ (seed_users g h us (w₁, s₁)) more has (all w₁ s₁)

  pub seed_users-MakesNone :
      (us : List UserSeed) (w : g.World) (s : h.State)
      → All (HasUser (g.tables w)) us
      → MakesNone g (g.tables w) (answered (seed_users g h us (w, s)))
  unfolding seed_users
  seed_users-MakesNone [] w s has = (refl, refl)
  seed_users-MakesNone (u ∷ us) w s (has, all) =
      go (seed_user g h u (w, s)) (seed_user-Skips u w s has) (seed_users-MakesNone us)
    where
      rest :
          (made : Bool) (w₁ : g.World) (x : Result ℕ × g.World × h.State)
          → made ≡ false
          → g.tables w₁ ≡ g.tables w
          → MakesNone g (g.tables w₁) (answered x)
          → MakesNone g (g.tables w) (answered (counting g h made x))
      rest made w₁ (err e, w', s') none same (fails, same') = (fails, same' ∙ same)
      rest true w₁ (ok n, w', s') none same (zero, same') = absurd (cc)
      rest false w₁ (ok n, w', s') none same (zero, same') = (zero, same' ∙ same)

      go :
          (x : Result Bool × g.World × h.State)
          → Skips g (g.tables w) (answered x)
          → ((w₁ : g.World) (s₁ : h.State)
              → All (HasUser (g.tables w₁)) us
              → MakesNone g (g.tables w₁) (answered (seed_users g h us (w₁, s₁))))
          → MakesNone g (g.tables w) (answered (seed_rest g h (seed_users g h us) x))
      go (err e, w₁, s₁) same rests = same
      go (ok made, w₁, s₁) (none, same) rests =
          rest made w₁ (seed_users g h us (w₁, s₁)) none same
            (rests w₁ s₁ (subst (λ (d : Tables). All (HasUser d) us) (sym same) all))
