-- ===== src/Queries/DailyReport/Pages.antt =====
-- What the loop of internal/application/query/daily_report.go collects.
use backend_golang_task.Prelude.{
  ℕ, zero, suc, ◌+◌, ◌-◌, ◌*◌, ◌≤◌, ◌<◌, ◌≡◌, refl, sym, ap, ◌∙◌, subst, ltb, Bool, true, false,
  if◌then◌else◌, some, select, List, [], ◌++◌, length, take, drop, length-append, min, length-take,
  length-drop, length-Perm, Perm, select-true, arith, tests,
}
use backend_golang_task.Prelude.Int.{pos}
use backend_golang_task.Errs.{Result, ok, err, panic}
use backend_golang_task.Action.{Action, pure, raise, lift, ◌>>=◌}
use backend_golang_task.Order.{Order}
use backend_golang_task.Gorm.Models.{OrderModel, get, orders}
use backend_golang_task.Gorm.Engine.{Gorm, IsGorm, Reads, Paged}
use backend_golang_task.Gorm.Orders.Lists.{orders_to_domain-length}
use backend_golang_task.Gorm.Orders.{
  list_all, orders_to_domain, normalize_order_page, offset_of, listed, Page,
}
use backend_golang_task.Queries.DailyReport.{page_size, max_orders, is_last, collect_from, collect}

module _ (g : Gorm) where
  abbrev stored : g.World → List OrderModel
  stored w = get orders (g.tables w)

  -- A page of the orders, read at the tables of `w`.
  abbrev PageOf : ℕ → g.World → Result (List Order × ℕ) × g.World → Type 0
  PageOf offset w (err e, w') = g.tables w' ≡ g.tables w
  PageOf offset w (ok (batch, total), w') =
      (length batch ≡ min page_size (length (stored w) - offset))
      × (total ≡ length (stored w))
      × (g.tables w' ≡ g.tables w)

  -- As many orders as the table has, up to n.
  abbrev Read : g.World → ℕ → List Order → Type 0
  Read w n os = length os ≡ min n (length (stored w))

  -- How the loop ends that began at the tables of `w`.
  abbrev pub Collects : g.World → Result (List Order) × g.World → Type 0
  Collects w (ok os, w') = Read w max_orders os × (g.tables w' ≡ g.tables w)
  Collects w (err e, w') =
      (g.tables w' ≡ g.tables w)
      × (page : ℕ) × (at : g.World) × (back : g.World) × (list_all g
            (record { number = pos (suc page); size = pos page_size }) at
          ≡ (err e, back))

module _ (g : Gorm) (laws : IsGorm g) where
  page-length :
      (ms rs : List OrderModel) (offset : ℕ)
      → Perm ms rs
      → length (take page_size (drop offset ms)) ≡ min page_size (length rs - offset)
  page-length ms rs offset same =
      length-take page_size (drop offset ms)
      ∙ ap (min page_size) (length-drop offset ms ∙ ap (λ (n : ℕ). n - offset) (length-Perm same))

  PageOf-moved :
      (offset : ℕ) (w w' : g.World) (x : Result (List Order × ℕ) × g.World)
      → g.tables w' ≡ g.tables w
      → PageOf g offset w' x
      → PageOf g offset w x
  PageOf-moved offset w w' (err e, w₁) same kept = kept ∙ same
  PageOf-moved offset w w' (ok (batch, total), w₁) same (long, counted, kept) =
      let rows = ap (λ (ms : List OrderModel). length ms) (ap (get orders) same) in
      (long ∙ ap (λ (n : ℕ). min page_size (n - offset)) rows, counted ∙ rows, kept ∙ same)

  -- The page as it is read, after the count.
  paged :
      (offset total : ℕ) (w : g.World) (x : Result (List OrderModel) × g.World)
      → total ≡ length (stored g w)
      → Paged g (g.tables w) (stored g w) offset (some page_size) x
      → PageOf g offset w (
          ((λ (_ : g.World). x) >>= λ (ms : List OrderModel).
          lift (orders_to_domain ms) >>= λ (out : List Order). pure (out, total))
            w)
  paged offset total w (err e, w') counted same = same
  paged offset total w (ok ms, w') counted (arranged, perm, page, same) =
      read (orders_to_domain ms) (orders_to_domain-length ms)
    where
      read :
          (r : Result (List Order))
          → ((os : List Order) → r ≡ ok os → length os ≡ length ms)
          → PageOf g offset w ((lift r >>= λ (out : List Order). pure (out, total)) w')
      read (err e) long = same
      read (ok os) long = (
        long os refl
            ∙ ap (λ (rs : List OrderModel). length rs) page
            ∙ page-length arranged (stored g w) offset perm,
        counted,
        same,
      )

  -- The number-th page, counted from 0.
  abbrev Nth : ℕ → Page
  Nth page = record { number = pos (suc page); size = pos page_size }

  listed-PageOf :
      (page : ℕ) (w : g.World)
      → PageOf g (offset_of (Nth page)) w (listed g (λ _. true) (Nth page) w)
  listed-PageOf page w = go (g.count orders (λ _. true) w) (laws.count_law orders (λ _. true) w)
    where
      go :
          (x : Result ℕ × g.World)
          → Reads g (g.tables w) (length (select (λ (_ : OrderModel). true) (stored g w))) x
          → PageOf g (offset_of (Nth page)) w (
              ((λ (_ : g.World). x) >>= λ (total : ℕ).
              g.rows orders (λ _. true) (offset_of (Nth page)) (some page_size)
              >>= λ (ms : List OrderModel).
                  lift (orders_to_domain ms) >>= λ (out : List Order). pure (out, total))
                w)
      go (err e, w') same = same
      go (ok total, w') (counted, same) = PageOf-moved (offset_of (Nth page)) w w' _ same (
          paged (offset_of (Nth page)) total w'
            (g.rows orders (λ _. true) (offset_of (Nth page)) (some page_size) w')
            (counted
              ∙ ap (λ (ms : List OrderModel). length ms)
                  (select-true (stored g w) ∙ ap (get orders) (sym same)))
            (subst
              (λ (rs : List OrderModel).
                Paged g (g.tables w') rs (offset_of (Nth page)) (some page_size)
                  (g.rows orders (λ _. true) (offset_of (Nth page)) (some page_size) w'))
              (select-true (stored g w'))
              (laws.rows_law orders (λ _. true) (offset_of (Nth page)) (some page_size) w')))

  normal : (page : ℕ) → normalize_order_page (Nth page) ≡ Nth page
  unfolding normalize_order_page
  normal page = ground arith

  list_all-PageOf :
      (page : ℕ) (w : g.World) → PageOf g (page * page_size) w (list_all g (Nth page) w)
  unfolding list_all
  list_all-PageOf page w =
      subst (λ (q : Page). PageOf g (page * page_size) w (listed g (λ _. true) q w))
        (sym (normal page))
        (subst (λ (n : ℕ). PageOf g n w (listed g (λ _. true) (Nth page) w))
          {x = offset_of (Nth page)} {y = page * page_size} (omega arith) (listed-PageOf page w))

  -- One more page.
  more-Read :
      (page : ℕ) (collected batch : List Order) (w₀ w : g.World)
      → g.tables w ≡ g.tables w₀
      → Read g w₀ (page * page_size) collected
      → length batch ≡ min page_size (length (stored g w) - page * page_size)
      → Read g w₀ (page * page_size + page_size) (collected ++ batch)
  more-Read page collected batch w₀ w same read next =
      let rows = ap (λ (ms : List OrderModel). length ms) (ap (get orders) same) in
      let l = length-append collected batch in ground (arith, rows, l, read, next)

  -- Where no order is left, what has been read is all that the report would read.
  all-Read :
      (n : ℕ) (os : List Order) (w : g.World)
      → n ≤ max_orders
      → length (stored g w) ≤ n
      → Read g w n os
      → Read g w max_orders os
  all-Read n os w below few read = ground (arith, below, few, read)

  last-few :
      (page total : ℕ) (collected batch : List Order) (w₀ w : g.World)
      → g.tables w ≡ g.tables w₀
      → total ≡ length (stored g w)
      → length collected ≡ page * page_size
      → Read g w₀ (page * page_size + page_size) (collected ++ batch)
      → is_last batch total (collected ++ batch) ≡ true
      → length (stored g w₀) ≤ page * page_size + page_size
  last-few page total collected batch w₀ w same counted full read last =
      let n = read in
      let l = length-append collected batch in
      let same_total = counted ∙ ap (λ (ms : List OrderModel). length ms) (ap (get orders) same) in
      ground (arith, n, l, same_total)

  not_last-full :
      (page total : ℕ) (collected batch : List Order) (w : g.World)
      → length collected ≡ page * page_size
      → Read g w (page * page_size + page_size) (collected ++ batch)
      → is_last batch total (collected ++ batch) ≡ false
      → length (collected ++ batch) ≡ suc page * page_size
  not_last-full page total collected batch w full read last =
      let n = read in let l = length-append collected batch in ground (arith, n, l)

  -- A round of the loop, with the rounds after it as a parameter.
  abbrev round :
      (List Order → Action g.World (List Order))
      → List Order
      → List Order × ℕ
      → Action g.World (List Order)
  round rest collected (batch, total) =
      if is_last batch total (collected ++ batch)
      then pure (collected ++ batch)
      else rest (collected ++ batch)

  round-Collects :
      (page : ℕ) (collected : List Order) (rest : List Order → Action g.World (List Order))
      (w₀ w : g.World)
      → g.tables w ≡ g.tables w₀
      → page * page_size < max_orders
      → page * page_size + page_size ≤ max_orders
      → Read g w₀ (page * page_size) collected
      → length collected ≡ page * page_size
      → ((more : List Order) (w' : g.World)
          → g.tables w' ≡ g.tables w₀
          → Read g w₀ (page * page_size + page_size) more
          → length more ≡ suc page * page_size
          → Collects g w₀ (rest more w'))
      → Collects g w₀ (
          (list_all g (record { number = pos (suc page); size = pos page_size })
              >>= round rest collected)
            w)
  round-Collects page collected rest w₀ w same less fits read full onward =
      listed (list_all g (record { number = pos (suc page); size = pos page_size }) w) refl
        (list_all-PageOf page w)
    where
      ended :
          (b : Bool) (batch : List Order) (total : ℕ) (w' : g.World)
          → is_last batch total (collected ++ batch) ≡ b
          → g.tables w' ≡ g.tables w₀
          → total ≡ length (stored g w)
          → Read g w₀ (page * page_size + page_size) (collected ++ batch)
          → Collects g w₀ ((if b then pure (collected ++ batch) else rest (collected ++ batch)) w')
      ended true batch total w' e same' counted more = (
        all-Read (page * page_size + page_size) (collected ++ batch) w₀ fits
            (last-few page total collected batch w₀ w same counted full more e) more,
        same',
      )
      ended false batch total w' e same' counted more =
          onward (collected ++ batch) w' same' more
            (not_last-full page total collected batch w₀ full more e)

      listed :
          (x : Result (List Order × ℕ) × g.World)
          → list_all g (record { number = pos (suc page); size = pos page_size }) w ≡ x
          → PageOf g (page * page_size) w x
          → Collects g w₀ (◌>>=◌ (λ (_ : g.World). x) (round rest collected) w)
      listed (err e, w') is same' = (same' ∙ same, page, w, w', is)
      listed (ok (batch, total), w') is (next, counted, same') =
          ended _ batch total w' refl (same' ∙ same) counted
            (more-Read page collected batch w₀ w same read next)

  collect_from-Collects :
      (fuel page : ℕ) (collected : List Order) (w₀ w : g.World)
      → g.tables w ≡ g.tables w₀
      → page_size * (page + fuel) ≡ max_orders
      → Read g w₀ (page * page_size) collected
      → length collected ≡ page * page_size
      → Collects g w₀ (collect_from g fuel (suc page) collected w)
  unfolding collect_from
  collect_from-Collects zero page collected w₀ w same fits read full =
      go (ltb (length collected) max_orders) refl
    where
      go :
          (b : Bool)
          → ltb (length collected) max_orders ≡ b
          → Collects g w₀ ((if b then raise (panic "out of fuel") else pure collected) w)
      go true e = absurd (omega (tests, e, full, fits))
      go false e = (
        subst (λ (n : ℕ). Read g w₀ n collected) {x = page * page_size} {y = max_orders}
            (omega (arith, fits)) read,
        same,
      )
  collect_from-Collects (suc fuel) page collected w₀ w same fits read full =
      go (ltb (length collected) max_orders) refl (
        round-Collects page collected (collect_from g fuel (suc (suc page))) w₀ w same
          (omega (arith, fits)) (omega (arith, fits)) read full
          (λ more w' same' read' full'.
            collect_from-Collects fuel (suc page) more w₀ w' same' (omega (arith, fits))
              (subst (λ (n : ℕ). Read g w₀ n more) {x = page * page_size + page_size}
                {y = suc page * page_size} (omega arith) read')
              full'))
    where
      Round : Action g.World (List Order)
      Round =
          list_all g (record { number = pos (suc page); size = pos page_size })
          >>= round (collect_from g fuel (suc (suc page))) collected

      go :
          (b : Bool)
          → ltb (length collected) max_orders ≡ b
          → Collects g w₀ (Round w)
          → Collects g w₀ ((if b then Round else pure collected) w)
      go true e ends = ends
      go false e ends = absurd (ground arith)

  -- The report reads the orders in pages of 200, and its loop ends: it answers with as many orders as
  -- the table has, or with 2,000 if there are more, or with an error that reading a page has answered,
  -- and changes nothing. Which orders these are is not said: the pages are of no fixed arrangement.
  pub collect-Collects : (w : g.World) → Collects g w (collect g w)
  unfolding collect orders_to_domain
  collect-Collects w = collect_from-Collects 10 0 [] w w refl refl (omega arith) refl
