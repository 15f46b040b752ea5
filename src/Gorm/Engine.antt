-- ===== src/Gorm/Engine.antt =====
-- GORM on PostgreSQL, as internal/infrastructure/persistence/gormrepo calls it. `World` is the
-- connection with the database behind it. Any call may fail, and its laws say what it has done to
-- the tables when it succeeds and when it fails. They are those of one session: `World` changes only
-- by the session's own calls.
use backend_golang_task.Prelude.{
  ℕ, Bool, ◌≡◌, ◌≢◌, Option, some, none, List, [], ◌∷◌, ◌++◌, if◌then◌else◌, ◌==◌, take, drop,
  find?, select, length, Perm,
}
use backend_golang_task.Errs.{Result, ok, err}
use backend_golang_task.Action.{Action}
use backend_golang_task.Gorm.Models.{
  Table, Model, Tables, get, put, id_of, with_id, duplicates, stamp,
}

pub record Gorm : Type 1 where
  pub World : Type 0
  -- What the session sees.
  pub tables : World → Tables
  -- `Create(&m)`: the primary key that the row has got.
  pub create : (t : Table) → Model t → Action World ℕ
  -- `Save(&m)`
  pub save : (t : Table) → Model t → Action World (Unit {0})
  -- `Where(p).First(&m)`: `none` is `ErrRecordNotFound`.
  pub first : (t : Table) → (Model t → Bool) → Action World (Option (Model t))
  -- `Where(p).Offset(o).Limit(l).Find(&ms)`; no limit is `none`.
  pub rows : (t : Table) → (Model t → Bool) → ℕ → Option ℕ → Action World (List (Model t))
  -- `Where(p).Count(&n)`
  pub count : (t : Table) → (Model t → Bool) → Action World ℕ
  -- `Where(p).Updates(f)`: `RowsAffected`.
  pub updates : (t : Table) → (Model t → Bool) → (Model t → Model t) → Action World ℕ
  -- `Transaction(fn)`, where `fn` also writes the caller's variables, `M`.
  pub transaction : {M : Type 0} → Action (M × World) (Unit {0}) → Action (M × World) (Unit {0})

-- The rows of a table after `Where(p).Updates(f)`.
abbrev pub rewrite {ℓ} : {A : Type ℓ} → (A → Bool) → (A → A) → List A → List A
rewrite p f [] = []
rewrite p f (r ∷ rs) = (if p r then f r else r) ∷ rewrite p f rs

abbrev pub limited {ℓ} : {A : Type ℓ} → Option ℕ → List A → List A
limited none rs = rs
limited (some n) rs = take n rs

abbrev pub same_id : (t : Table) → ℕ → Model t → Bool
same_id t id m = id_of t m == id

module _ (g : Gorm) where
  open g use {World, tables}

  -- A call that reads: it fails, or answers from the tables, and leaves them alone.
  abbrev pub Reads : {A : Type 0} → Tables → A → Result A × World → Type 0
  Reads d a (ok b, w') = (b ≡ a) × (tables w' ≡ d)
  Reads d a (err _, w') = tables w' ≡ d

  -- A read of a page of rows: they are in some arrangement, which need not be the one of the table nor
  -- that of another read.
  abbrev pub Paged :
      {A : Type 0} → Tables → List A → ℕ → Option ℕ → Result (List A) × World → Type 0
  Paged {A} d rs offset limit (ok ms, w') =
      (arranged : List A) × Perm arranged rs
      × (ms ≡ limited limit (drop offset arranged))
      × (tables w' ≡ d)
  Paged d rs offset limit (err _, w') = tables w' ≡ d

  abbrev pub Created : (t : Table) → Model t → Tables → Result ℕ × World → Type 0
  Created t m d (ok id, w') =
      (id ≢ 0)
      × (find? (same_id t id) (get t d) ≡ none)
      × (find? (duplicates t m) (get t d) ≡ none)
      × (now : ℕ) × (tables w' ≡ put t (get t d ++ stamp t now (with_id t id m) ∷ []) d)
  Created t m d (err _, w') = tables w' ≡ d

  abbrev pub Saved : (t : Table) → Model t → Tables → Result (Unit {0}) × World → Type 0
  Saved t m d (ok _, w') = tables w' ≡ put t (rewrite (same_id t (id_of t m)) (λ _. m) (get t d)) d
  Saved t m d (err _, w') = tables w' ≡ d

  abbrev pub Inserted : (t : Table) → Model t → Tables → Result (Unit {0}) × World → Type 0
  Inserted t m d (ok _, w') =
      (find? (duplicates t m) (get t d) ≡ none)
      × (id : ℕ) × (now : ℕ) × (id ≢ 0)
      × (tables w' ≡ put t (get t d ++ stamp t now (with_id t id m) ∷ []) d)
  Inserted t m d (err _, w') = tables w' ≡ d

  abbrev pub Updated :
      (t : Table) → (Model t → Bool) → (Model t → Model t) → Tables → Result ℕ × World → Type 0
  Updated t p f d (ok n, w') =
      (n ≡ length (select p (get t d))) × (tables w' ≡ put t (rewrite p f (get t d)) d)
  Updated t p f d (err _, w') = tables w' ≡ d

  -- A transaction that succeeds has run its body, which returned no error, and kept what it wrote.
  -- One that fails has left the tables as they were; the caller's variables are not rolled back.
  abbrev pub Transacted :
      {M : Type 0}
      → Action (M × World) (Unit {0})
      → M
      → Tables
      → Result (Unit {0}) × (M × World)
      → Type 0
  Transacted body m d (ok _, (m', w')) =
      (begun : World) × (done : World) × (tables begun ≡ d)
      × (body (m, begun) ≡ (ok tt, (m', done)))
      × (tables w' ≡ tables done)
  Transacted body m d (err _, (m', w')) = tables w' ≡ d

-- The documented behaviour of the calls.
pub record IsGorm (g : Gorm) : Type 1 where
  -- GORM writes the default of a column for a field that is zero where the column has one: role,
  -- currency, active and the like. The law says that the row is stored as it is, which holds of the rows
  -- that the code writes: their constructors set those fields.
  pub create_law :
      (t : Table) (m : Model t) (w : g.World) → Created g t m (g.tables w) (g.create t m w)
  pub save_law :
      (t : Table) (m r : Model t) (w : g.World)
      → id_of t m ≢ 0
      → find? (same_id t (id_of t m)) (get t (g.tables w)) ≡ some r
      → Saved g t m (g.tables w) (g.save t m w)
  pub save_new_law :
      (t : Table) (m : Model t) (w : g.World)
      → id_of t m ≡ 0
      → Inserted g t m (g.tables w) (g.save t m w)
  pub first_law :
      (t : Table) (p : Model t → Bool) (w : g.World)
      → Reads g (g.tables w) (find? p (get t (g.tables w))) (g.first t p w)
  pub rows_law :
      (t : Table) (p : Model t → Bool) (offset : ℕ) (limit : Option ℕ) (w : g.World)
      → Paged g
          (g.tables w)
          (select p (get t (g.tables w)))
          offset
          limit
          (g.rows t p offset limit w)
  pub count_law :
      (t : Table) (p : Model t → Bool) (w : g.World)
      → Reads g (g.tables w) (length (select p (get t (g.tables w)))) (g.count t p w)
  pub updates_law :
      (t : Table) (p : Model t → Bool) (f : Model t → Model t) (w : g.World)
      → Updated g t p f (g.tables w) (g.updates t p f w)
  pub transaction_law :
      {M : Type 0} (body : Action (M × g.World) (Unit {0})) (m : M) (w : g.World)
      → Transacted g body m (g.tables w) (g.transaction body (m, w))
