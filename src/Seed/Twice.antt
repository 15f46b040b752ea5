-- ===== src/Seed/Twice.antt =====
-- That a second run of cmd/seed/main.go changes nothing.
use backend_golang_task.Prelude.{ℕ, ◌≡◌, sym, ◌∙◌, subst, List, All}
use backend_golang_task.Errs.{Result, ok, err}
use backend_golang_task.Ports.{PasswordHasher}
use backend_golang_task.Gorm.Models.{Tables}
use backend_golang_task.Gorm.Engine.{Gorm, IsGorm}
use backend_golang_task.Seed.{
  UserSeed, ProductSeed, seed_products, seed_users, both_counts, run_products, run,
}
use backend_golang_task.Seed.Growth.{HasUser, HasProduct, Grows, Grows-trans}
use backend_golang_task.Seed.Rows.{Seeds}
use backend_golang_task.Seed.Products.{
  MakesNone, CountFails, seed_products-Seeds, seed_products-MakesNone,
}
use backend_golang_task.Seed.Users.{
  answered, Grows-HasUsers, seed_users-Seeds, seed_users-MakesNone,
}

-- Every seed has its row.
abbrev pub IsSeeded : List UserSeed → List ProductSeed → Tables → Type 0
IsSeeded us ps d = All (HasUser d) us × All (HasProduct d) ps

module _ (g : Gorm) (h : PasswordHasher) where
  -- How a run ends that finds every row there: it creates nothing, or a count of the database fails.
  abbrev pub Repeats : Tables → Result (ℕ × ℕ) × g.World × h.State → Type 0
  Repeats d (err e, w', s') = CountFails g e × (g.tables w' ≡ d)
  Repeats d (ok (created_users, created_products), w', s') =
      (created_users ≡ 0) × (created_products ≡ 0) × (g.tables w' ≡ d)

module _ (g : Gorm) (laws : IsGorm g) (h : PasswordHasher) where
  -- A run that succeeds leaves a row for each seed.
  run-IsSeeded :
      (us : List UserSeed) (ps : List ProductSeed) (clock : ProductSeed → ℕ) (w : g.World)
      (s : h.State)
      → Seeds g (IsSeeded us ps) (g.tables w) (answered (run g h us ps clock (w, s)))
  unfolding run
  run-IsSeeded us ps clock w s = go (seed_users g h us (w, s)) (seed_users-Seeds g laws h us w s)
    where
      both :
          (n : ℕ) (w₁ : g.World) (s₁ : h.State) (x : Result ℕ × g.World)
          → Grows (g.tables w) (g.tables w₁)
          → All (HasUser (g.tables w₁)) us
          → Seeds g (λ d. All (HasProduct d) ps) (g.tables w₁) x
          → Seeds g (IsSeeded us ps) (g.tables w) (answered (both_counts g h n x s₁))
      both n w₁ s₁ (err e, w') more all more' = Grows-trans more more'
      both n w₁ s₁ (ok m, w') more all (more', all') =
          (Grows-trans more more', (Grows-HasUsers us more' all, all'))

      go :
          (x : Result ℕ × g.World × h.State)
          → Seeds g (λ d. All (HasUser d) us) (g.tables w) (answered x)
          → Seeds g (IsSeeded us ps) (g.tables w) (answered (run_products g h clock ps x))
      go (err e, w₁, s₁) more = more
      go (ok n, w₁, s₁) (more, all) =
          both n w₁ s₁ (seed_products g clock ps w₁) more all
            (seed_products-Seeds g laws clock ps w₁)

  run_seeded :
      (us : List UserSeed) (ps : List ProductSeed) (clock : ProductSeed → ℕ) (w : g.World)
      (s : h.State)
      → IsSeeded us ps (g.tables w)
      → Repeats g h (g.tables w) (run g h us ps clock (w, s))
  unfolding run
  run_seeded us ps clock w s (all, all') =
      go (seed_users g h us (w, s)) (seed_users-MakesNone g laws h us w s all)
    where
      both :
          (n : ℕ) (w₁ : g.World) (s₁ : h.State) (x : Result ℕ × g.World)
          → n ≡ 0
          → g.tables w₁ ≡ g.tables w
          → MakesNone g (g.tables w₁) x
          → Repeats g h (g.tables w) (both_counts g h n x s₁)
      both n w₁ s₁ (err e, w') zero same (fails, same') = (fails, same' ∙ same)
      both n w₁ s₁ (ok m, w') zero same (zero', same') = (zero, zero', same' ∙ same)

      go :
          (x : Result ℕ × g.World × h.State)
          → MakesNone g (g.tables w) (answered x)
          → Repeats g h (g.tables w) (run_products g h clock ps x)
      go (err e, w₁, s₁) same = same
      go (ok n, w₁, s₁) (zero, same) = both n w₁ s₁ (seed_products g clock ps w₁) zero same (
          seed_products-MakesNone g laws clock ps w₁
            (subst (λ (d : Tables). All (HasProduct d) ps) (sym same) all'))

  -- A run that succeeds leaves a row for each seed, and another one after it changes no table: it creates
  -- nothing, or ends with the error that the database has answered to a count.
  pub run-run :
      (us : List UserSeed) (ps : List ProductSeed) (clock later : ProductSeed → ℕ) (w : g.World)
      (s : h.State) {counts : ℕ × ℕ} {w' : g.World} {s' : h.State}
      → run g h us ps clock (w, s) ≡ (ok counts, w', s')
      → IsSeeded us ps (g.tables w') × Repeats g h (g.tables w') (run g h us ps later (w', s'))
  run-run us ps clock later w s {counts} {w'} {s'} done =
      let (_, seeded) =
        subst (λ x. Seeds g (IsSeeded us ps) (g.tables w) (answered x)) done
          (run-IsSeeded us ps clock w s) in
      (seeded, run_seeded us ps later w' s' seeded)
