-- ===== src/Seed/Products.antt =====
-- The products of cmd/seed/main.go: what a run makes and what a second one finds.
use backend_golang_task.Prelude.{
  ℕ, suc, ◌<◌, ◌≡◌, refl, sym, ap, ◌∙◌, subst, ltb, str_eq, Bool, true, false, if◌then◌else◌, List,
  [], ◌∷◌, length, select, All, arith,
}
use backend_golang_task.Errs.{Result, ok, err, Failure}
use backend_golang_task.Action.{Action, pure, ◌>>=◌, ◌>>◌}
use backend_golang_task.Gorm.Models.{Tables, Table, Model, ProductModel, get, products}
use backend_golang_task.Gorm.Engine.{Gorm, IsGorm, Reads}
use backend_golang_task.Seed.{
  ProductSeed, make_product, unless_counted, seed_product, seed_products,
}
use backend_golang_task.Seed.Growth.{HasProduct, Grows, Grows-refl, Grows-trans}
use backend_golang_task.Seed.Rows.{Seeds, make_product-Seeds}

Grows-HasProducts :
    {d d' : Tables} (ps : List ProductSeed)
    → Grows d d'
    → All (HasProduct d) ps
    → All (HasProduct d') ps
Grows-HasProducts [] more h = tt
Grows-HasProducts (p ∷ ps) more (has, h) = (
  omega (arith, has, more.more_products (λ (m : ProductModel). str_eq m.sku p.sku)),
  Grows-HasProducts ps more h,
)

module _ (g : Gorm) where
  -- An error that the database has answered to a count.
  abbrev pub CountFails : Failure → Type 0
  CountFails e = (t : Table) × (p : Model t → Bool) × (w : g.World) × ((g.count t p w).0 ≡ err e)

  -- A step that finds its row there, or whose count fails.
  abbrev pub Skips : Tables → Result Bool × g.World → Type 0
  Skips d (err e, w') = CountFails e × (g.tables w' ≡ d)
  Skips d (ok made, w') = (made ≡ false) × (g.tables w' ≡ d)

  abbrev pub MakesNone : Tables → Result ℕ × g.World → Type 0
  MakesNone d (err e, w') = CountFails e × (g.tables w' ≡ d)
  MakesNone d (ok n, w') = (n ≡ 0) × (g.tables w' ≡ d)

  module _ (laws : IsGorm g) where
    unless_counted-Seeds :
        (P : Tables → Type 0) (make : Action g.World (Unit {0})) (n : ℕ) (w : g.World)
        → (0 < n → P (g.tables w))
        → Seeds g P (g.tables w) (make w)
        → Seeds g P (g.tables w) (unless_counted g make n w)
    unless_counted-Seeds P make n w has makes = go (ltb 0 n) refl
      where
        made :
            (x : Result (Unit {0}) × g.World)
            → Seeds g P (g.tables w) x
            → Seeds g P (g.tables w) (◌>>=◌ (λ (_ : g.World). x) (λ _. pure true) w)
        made (err e, w') h = h
        made (ok a, w') h = h

        go :
            (b : Bool)
            → ltb 0 n ≡ b
            → Seeds g P (g.tables w) ((if b then pure false else (make >> pure true)) w)
        go true e = (Grows-refl (g.tables w), has (ground (arith, e)))
        go false e = made (make w) makes

    seed_product-Seeds :
        (now : ℕ) (p : ProductSeed) (w : g.World)
        → Seeds g (λ d. HasProduct d p) (g.tables w) (seed_product g now p w)
    unfolding seed_product
    seed_product-Seeds now p w = go (g.count products sku w) (laws.count_law products sku w)
      where
        sku : ProductModel → Bool
        sku m = str_eq m.sku p.sku

        go :
            (x : Result ℕ × g.World)
            → Reads g (g.tables w) (length (select sku (get products (g.tables w)))) x
            → Seeds g
                (λ d. HasProduct d p)
                (g.tables w)
                (◌>>=◌ (λ (_ : g.World). x) (unless_counted g (make_product g now p)) w)
        go (err e, w') same = subst (Grows (g.tables w)) (sym same) (Grows-refl (g.tables w))
        go (ok n, w') (is, same) =
            subst
              (λ (d : Tables).
                Seeds g (λ d. HasProduct d p) d (unless_counted g (make_product g now p) n w'))
              same
              (unless_counted-Seeds (λ d. HasProduct d p) (make_product g now p) n w'
                (λ (found : 0 < n). rw same (omega (arith, is, found)))
                (make_product-Seeds g laws now p w'))

    seed_product-Skips :
        (now : ℕ) (p : ProductSeed) (w : g.World)
        → HasProduct (g.tables w) p
        → Skips (g.tables w) (seed_product g now p w)
    unfolding seed_product
    seed_product-Skips now p w has =
        go (g.count products sku w) refl (laws.count_law products sku w)
      where
        sku : ProductModel → Bool
        sku m = str_eq m.sku p.sku

        go :
            (x : Result ℕ × g.World)
            → g.count products sku w ≡ x
            → Reads g (g.tables w) (length (select sku (get products (g.tables w)))) x
            → Skips
                (g.tables w)
                (◌>>=◌ (λ (_ : g.World). x) (unless_counted g (make_product g now p)) w)
        go (err e, w') counted same =
            ((products, sku, w, ap (λ (x : Result ℕ × g.World). x.0) counted), same)
        go (ok n, w') counted (is, same) =
            subst
              (λ (b : Bool).
                Skips (g.tables w)
                  ((if b then pure false else (make_product g now p >> pure true)) w'))
              {x = true} {y = ltb 0 n} (ground (arith, is, has)) (refl, same)

    pub seed_products-Seeds :
        (clock : ProductSeed → ℕ) (ps : List ProductSeed) (w : g.World)
        → Seeds g (λ d. All (HasProduct d) ps) (g.tables w) (seed_products g clock ps w)
    unfolding seed_products
    seed_products-Seeds clock [] w = (Grows-refl (g.tables w), tt)
    seed_products-Seeds clock (p ∷ ps) w =
        go (seed_product g (clock p) p w) (seed_product-Seeds (clock p) p w)
          (seed_products-Seeds clock ps)
      where
        rest :
            (made : Bool) (w₁ : g.World) (x : Result ℕ × g.World)
            → Grows (g.tables w) (g.tables w₁)
            → HasProduct (g.tables w₁) p
            → Seeds g (λ d. All (HasProduct d) ps) (g.tables w₁) x
            → Seeds g
                (λ d. All (HasProduct d) (p ∷ ps))
                (g.tables w)
                (◌>>=◌ (λ (_ : g.World). x) (λ n. pure (if made then suc n else n)) w₁)
        rest made w₁ (err e, w') more has more' = Grows-trans more more'
        rest made w₁ (ok n, w') more has (more', all) =
            (Grows-trans more more', ((Grows-HasProducts (p ∷ []) more' (has, tt)).0, all))

        go :
            (x : Result Bool × g.World)
            → Seeds g (λ d. HasProduct d p) (g.tables w) x
            → ((w₁ : g.World)
                → Seeds g (λ d. All (HasProduct d) ps) (g.tables w₁) (seed_products g clock ps w₁))
            → Seeds g
                (λ d. All (HasProduct d) (p ∷ ps))
                (g.tables w)
                (◌>>=◌
                  (λ (_ : g.World). x)
                  (λ made. do n ← seed_products g clock ps; pure (if made then suc n else n))
                  w)
        go (err e, w₁) more all = more
        go (ok made, w₁) (more, has) all =
            rest made w₁ (seed_products g clock ps w₁) more has (all w₁)

    pub seed_products-MakesNone :
        (clock : ProductSeed → ℕ) (ps : List ProductSeed) (w : g.World)
        → All (HasProduct (g.tables w)) ps
        → MakesNone (g.tables w) (seed_products g clock ps w)
    unfolding seed_products
    seed_products-MakesNone clock [] w h = (refl, refl)
    seed_products-MakesNone clock (p ∷ ps) w (has, h) =
        go (seed_product g (clock p) p w) (seed_product-Skips (clock p) p w has)
          (seed_products-MakesNone clock ps)
      where
        rest :
            (made : Bool) (w₁ : g.World) (x : Result ℕ × g.World)
            → made ≡ false
            → g.tables w₁ ≡ g.tables w
            → MakesNone (g.tables w₁) x
            → MakesNone
                (g.tables w)
                (◌>>=◌ (λ (_ : g.World). x) (λ n. pure (if made then suc n else n)) w₁)
        rest made w₁ (err e, w') none same (fails, same') = (fails, same' ∙ same)
        rest true w₁ (ok n, w') none same (zero, same') = absurd (cc)
        rest false w₁ (ok n, w') none same (zero, same') = (zero, same' ∙ same)

        go :
            (x : Result Bool × g.World)
            → Skips (g.tables w) x
            → ((w₁ : g.World)
                → All (HasProduct (g.tables w₁)) ps
                → MakesNone (g.tables w₁) (seed_products g clock ps w₁))
            → MakesNone (g.tables w) (
                ◌>>=◌
                  (λ (_ : g.World). x)
                  (λ made. do n ← seed_products g clock ps; pure (if made then suc n else n))
                  w)
        go (err e, w₁) same all = same
        go (ok made, w₁) (none, same) all =
            rest made w₁ (seed_products g clock ps w₁) none same
              (all w₁ (subst (λ (d : Tables). All (HasProduct d) ps) (sym same) h))
