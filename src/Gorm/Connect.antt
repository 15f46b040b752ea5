-- ===== src/Gorm/Connect.antt =====
-- internal/infrastructure/persistence/gormrepo/db.go: how long the start waits for the database.
mod Examples
use Prim.Native.String.{◌++◌}
use backend_golang_task.Prelude.{
  ℕ, zero, suc, ◌+◌, ◌≤◌, ◌<◌, ◌≡◌, refl, ap, ◌∙◌, String, Option, some, none, List, [], ◌∷◌, map,
  length, All, arith,
}
use backend_golang_task.Prelude.Int.{ℤ, pos, pos_part}
use backend_golang_task.Prelude.Decimal.{decimal_ℤ}
use backend_golang_task.Errs.{Result, ok, err, Failure, foreign, text}
use backend_golang_task.Config.{Db, dsn}

-- What the database answers to a ping, and the state it is in after it; time passes between two pings.
pub record Server : Type 1 where
  pub State : Type 0
  pub ping : State → Result (Unit {0}) × State

-- `%w` of an error that may be nil.
abbrev last_text : Option Failure → String
last_text none = "%!w(<nil>)"
last_text (some e) = text e

abbrev pub unreachable : ℤ → Option Failure → Failure
unreachable retries last =
    foreign
      ("database unreachable after " ++ (decimal_ℤ retries ++ (" attempts: " ++ last_text last)))

module _ (server : Server) where
  open server use {State, ping}

  -- The loop, on the attempts that are left.
  unfoldable pub waiting : ℕ → ℤ → Option Failure → State → Result (Unit {0}) × State
  waiting zero retries last s = (err (unreachable retries last), s)
  waiting (suc n) retries last s =
      let (r, s') = ping s in elim r [ ok _ ↦ (ok tt, s') | err e ↦ waiting n retries (some e) s' ]

  -- `waitForDB`
  unfoldable pub wait_for_db : Db → State → Result (Unit {0}) × State
  unfolding waiting
  wait_for_db cfg s = waiting (pos_part cfg.connect_retries) cfg.connect_retries none s

  abbrev resolved : Db → Result (Unit {0}) → State → Result (Unit {0}) × State
  unfolding wait_for_db
  resolved cfg (err e) s = (err (foreign ("resolve sql db: " ++ text e)), s)
  resolved cfg (ok _) s = wait_for_db cfg s

  abbrev pub opened : Db → Result (Result (Unit {0})) → State → Result (Unit {0}) × State
  unfolding wait_for_db
  opened cfg (err e) s = (err (foreign ("open gorm: " ++ text e)), s)
  opened cfg (ok handle) s = resolved cfg handle s

  -- `Open`, with what `gorm.Open` answers to a data source and what `DB` answers on its handle.
  unfoldable open_db :
      (String → Result (Result (Unit {0}))) → Db → State → Result (Unit {0}) × State
  unfolding wait_for_db
  open_db gorm_open cfg s = opened cfg (gorm_open (dsn cfg)) s

  -- The database after a number of pings.
  abbrev pub later : ℕ → State → State
  later zero s = s
  later (suc k) s = later k (ping s).1

  abbrev Fails : ℕ → State → Type 0
  Fails i s = (e : Failure) × ((ping (later i s)).0 ≡ err e)

  -- How waiting ends: with the first ping that is answered, or after as many as were allowed.
  abbrev pub Waited : ℕ → State → Result (Unit {0}) × State → Type 0
  Waited n s (ok _, s') =
      (k : ℕ) × (k < n)
      × ((ping (later k s)).0 ≡ ok tt)
      × (s' ≡ later (suc k) s)
      × ((i : ℕ) → i < k → Fails i s)
  Waited n s (err _, s') = ((i : ℕ) → i < n → Fails i s) × (s' ≡ later n s)

  waiting-Waited :
      (n : ℕ) (retries : ℤ) (last : Option Failure) (s : State)
      → Waited n s (waiting n retries last s)
  unfolding waiting
  waiting-Waited zero retries last s = ((λ i lt. elim lt [ ]), refl)
  waiting-Waited (suc n) retries last s =
      go (ping s).0 refl (λ e. waiting-Waited n retries (some e) (ping s).1)
    where
      also :
          {e : Failure}
          → (ping s).0 ≡ err e
          → (m : ℕ) → ((i : ℕ) → i < m → Fails i (ping s).1)
          → (i : ℕ) → i < suc m
          → Fails i s
      also {e} failed m fails zero lt = (e, failed)
      also {e} failed m fails (suc i) lt = fails i (omega (arith, lt))

      first :
          (e : Failure) (x : Result (Unit {0}) × State)
          → (ping s).0 ≡ err e
          → Waited n (ping s).1 x
          → Waited (suc n) s x
      first e (ok _, s') failed (k, lt, answered, is, fails) =
          (suc k, omega (arith, lt), answered, is, also failed k fails)
      first e (err _, s') failed (fails, is) = (also failed n fails, is)

      go :
          (r : Result (Unit {0}))
          → (ping s).0 ≡ r
          → ((e : Failure) → Waited n (ping s).1 (waiting n retries (some e) (ping s).1))
          → Waited (suc n) s (elim r [
            | ok _ ↦ (ok tt, (ping s).1)
            | err e ↦ waiting n retries (some e) (ping s).1
          ])
      go (ok tt) e rest = (0, omega arith, e, refl, λ i lt. elim lt [ ])
      go (err e) failed rest = first e (waiting n retries (some e) (ping s).1) failed (rest e)

  -- The start waits for the database until the first ping that is answered, and gives up exactly when
  -- none of the configured number of attempts is.
  pub wait_for_db-Waited :
      (cfg : Db) (s : State) → Waited (pos_part cfg.connect_retries) s (wait_for_db cfg s)
  unfolding wait_for_db
  wait_for_db-Waited cfg s =
      waiting-Waited (pos_part cfg.connect_retries) cfg.connect_retries none s
