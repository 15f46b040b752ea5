-- ===== src/Commands/UpdateUser.antt =====
-- internal/application/command/update_user.go.
use backend_golang_task.Prelude.{ℕ, String, Option, some, none}
use backend_golang_task.Errs.{Result, ok, err}
use backend_golang_task.Action.{Action, pure, ◌>>=◌}
use backend_golang_task.User.{User, update_profile}
use backend_golang_task.Gorm.Engine.{Gorm}
use backend_golang_task.Gorm.Users.{find_user, update_user}

module _ (g : Gorm) where
  open g use {World, transaction}

  -- The calls of the closure, with the user that it hands over at its end.
  unfoldable pub profiling : ℕ → String → Action World User
  profiling id full_name = do
    u ← find_user g id
    let u' = update_profile full_name u
    _ ← update_user g u'
    pure u'

  -- The closure; its variable is the updated user: nil at first.
  unfoldable pub updating : ℕ → String → Action (Option User × World) (Unit {0})
  updating id full_name (v, w) =
      let (r, w') = profiling id full_name w in
      elim r [ ok u ↦ (ok tt, (some u, w')) | err e ↦ (err e, (v, w')) ]

  abbrev updated_with : Result (Unit {0}) × (Option User × World) → Result (Option User) × World
  updated_with (err e, (_, w)) = (err e, w)
  updated_with (ok _, (updated, w)) = (ok updated, w)

  unfoldable pub handle : ℕ → String → World → Result (Option User) × World
  handle id full_name w = updated_with (transaction (updating id full_name) (none, w))
