-- ===== src/Gorm/InMemory.antt =====
-- A database in memory, as an instance of the parameter that stands for GORM: it shows that the
-- behaviour assumed of GORM can be met, and runs the examples. It never fails but on a duplicate key.
use backend_golang_task.Prelude.{
  ℕ, suc, ◌+◌, ◌<◌, ◌≡◌, ◌≢◌, refl, ◌==◌, if◌then◌else◌, Option, some, none, List, [], ◌∷◌, ◌++◌,
  drop, find?, select, length, arith,
}
use backend_golang_task.Errs.{Result, ok, err, foreign}
use backend_golang_task.Action.{Action}
use backend_golang_task.Gorm.Models.{
  Table, Model, Tables, get, put, id_of, with_id, duplicates, stamp,
}
use mathlib.Core.List.Perm
use backend_golang_task.Gorm.Engine.{
  Gorm, IsGorm, rewrite, limited, same_id, Created, Inserted, Saved, Transacted,
}

abbrev sum_ids : (t : Table) → List (Model t) → ℕ
sum_ids t [] = 0
sum_ids t (m ∷ ms) = id_of t m + sum_ids t ms

find-above :
    (t : Table) (id : ℕ) (ms : List (Model t)) → sum_ids t ms < id → find? (same_id t id) ms ≡ none
find-above t id [] h = refl
find-above t id (m ∷ ms) h = ground (arith, find-above t id ms)

abbrev fresh_id : (t : Table) → Tables → ℕ
fresh_id t d = suc (sum_ids t (get t d))

abbrev insert_as : (t : Table) → ℕ → Model t → Tables → Tables
insert_as t id m d = put t (get t d ++ stamp t 100 (with_id t id m) ∷ []) d

abbrev create_checked : (t : Table) → Model t → Tables → Option (Model t) → Result ℕ × Tables
create_checked t m d none = (ok (fresh_id t d), insert_as t (fresh_id t d) m d)
create_checked t m d (some _) = (err (foreign "duplicated key not allowed"), d)

abbrev save_checked : (t : Table) → Model t → Tables → Option (Model t) → Result (Unit {0}) × Tables
save_checked t m d none = (ok tt, insert_as t (fresh_id t d) m d)
save_checked t m d (some _) = (err (foreign "duplicated key not allowed"), d)

abbrev finish_transaction :
    {M : Type 0} → Tables → Result (Unit {0}) × (M × Tables) → Result (Unit {0}) × (M × Tables)
finish_transaction d (ok _, (m, w)) = (ok tt, (m, w))
finish_transaction d (err e, (m, w)) = (err e, (m, d))

abbrev pub in_memory : Gorm
in_memory = record {
  World = Tables;
  tables = λ d. d;
  create = λ t m d. create_checked t m d (find? (duplicates t m) (get t d));
  save = λ t m d.
      if id_of t m == 0
      then save_checked t m d (find? (duplicates t m) (get t d))
      else (ok tt, put t (rewrite (same_id t (id_of t m)) (λ _. m) (get t d)) d);
  first = λ t p d. (ok (find? p (get t d)), d);
  rows = λ t p offset limit d. (ok (limited limit (drop offset (select p (get t d)))), d);
  count = λ t p d. (ok (length (select p (get t d))), d);
  updates = λ t p f d. (ok (length (select p (get t d))), put t (rewrite p f (get t d)) d);
  transaction = λ body (m, d). finish_transaction d (body (m, d));
}

create_checked-Created :
    (t : Table) (m : Model t) (d : Tables) (found : Option (Model t))
    → find? (duplicates t m) (get t d) ≡ found
    → Created in_memory t m d (create_checked t m d found)
create_checked-Created t m d none e =
    (omega arith, find-above t (fresh_id t d) (get t d) (omega arith), e, 100, refl)
create_checked-Created t m d (some r) e = refl

save_checked-Inserted :
    (t : Table) (m : Model t) (d : Tables) (found : Option (Model t))
    → find? (duplicates t m) (get t d) ≡ found
    → Inserted in_memory t m d (save_checked t m d found)
save_checked-Inserted t m d none e = (e, fresh_id t d, 100, omega arith, refl)
save_checked-Inserted t m d (some r) e = refl

in_memory-Inserted :
    (t : Table) (m : Model t) (d : Tables)
    → id_of t m ≡ 0
    → Inserted in_memory t m d (in_memory.save t m d)
in_memory-Inserted t m d e = rw e (save_checked-Inserted t m d _ refl)

in_memory-Saved :
    (t : Table) (m : Model t) (d : Tables)
    → id_of t m ≢ 0
    → Saved in_memory t m d (in_memory.save t m d)
in_memory-Saved t m d e = ground arith

finish_transaction-Transacted :
    {M : Type 0} (body : Action (M × Tables) (Unit {0})) (m : M) (d : Tables)
    (r : Result (Unit {0}) × (M × Tables))
    → body (m, d) ≡ r
    → Transacted in_memory body m d (finish_transaction d r)
finish_transaction-Transacted body m d (ok u, (m', w)) e = (d, w, refl, e, refl)
finish_transaction-Transacted body m d (err x, (m', w)) e = refl

pub in_memory-IsGorm : IsGorm in_memory
in_memory-IsGorm = record {
  create_law = λ t m w. create_checked-Created t m w _ refl;
  save_law = λ t m r w e _. in_memory-Saved t m w e;
  save_new_law = in_memory-Inserted;
  first_law = λ t p w. (refl, refl);
  rows_law = λ t p offset limit w. (_, Perm.rfl, refl, refl);
  count_law = λ t p w. (refl, refl);
  updates_law = λ t p f w. (refl, refl);
  transaction_law = λ {M} body m w. finish_transaction-Transacted body m w _ refl;
}
