-- ===== src/Commands/RegisterUser.antt =====
-- internal/application/command/register_user.go.
pub mod Unique
use Prim.Native.Char.{code}
use backend_golang_task.Prelude.{
  ℕ, ◌+◌, String, Bool, true, false, ◌&&◌, ◌||◌, ◌==◌, leb, if◌then◌else◌, List, [], ◌∷◌, map,
}
use backend_golang_task.Errs.{
  Result, ok, err, Failure, new, with_cause, text, kind_of, Kind, conflict,
}
use backend_golang_task.Action.{Action, ◌>>=◌, ◌>>◌}
use backend_golang_task.User.{User, new_user}
use backend_golang_task.Ports.{PasswordHasher}
use backend_golang_task.Gorm.Engine.{Gorm}
use backend_golang_task.Gorm.Users.{create_user}
use backend_golang_task.Commands.Memory.{store}

pub record RegisterUserInput : Type 0 where
  pub email : String
  pub password : String
  pub full_name : String
  pub role : String

-- A text's characters, by number.
abbrev pub codes : String → List ℕ
codes String.[] = []
codes (String.◌∷◌ c s) = code c ∷ codes s

-- `strings.ToLower`, as far as a search for ASCII can see: beside the letters from A to Z, it takes
-- U+0130 to i and U+212A to k.
abbrev pub to_lower : ℕ → ℕ
to_lower c =
    if leb 65 c && leb c 90
    then c + 32
    else if c == 0x130
    then 105
    else if c == 0x212a
    then 107
    else c

unfoldable has_prefix : List ℕ → List ℕ → Bool
has_prefix s [] = true
has_prefix [] (d ∷ t) = false
has_prefix (c ∷ s) (d ∷ t) = c == d && has_prefix s t

-- `strings.Contains`
unfoldable has_part : List ℕ → List ℕ → Bool
unfolding has_prefix
has_part [] t = has_prefix [] t
has_part (c ∷ s) t = has_prefix (c ∷ s) t || has_part s t

abbrev is_conflict : Kind → Bool
is_conflict conflict = true
is_conflict _ = false

unfoldable pub is_duplicate : Failure → Bool
unfolding has_part text
is_duplicate e =
    let msg = map to_lower (codes (text e)) in
    is_conflict (kind_of e)
    || has_part msg (codes "duplicate")
    || has_part msg (codes "unique")
    || has_part msg (codes "1062")

abbrev pub reported : Failure → Failure
reported cerr =
    if is_duplicate cerr
    then with_cause (new conflict "user.email_taken" "email is already registered") cerr
    else cerr

-- What the closure makes of the error of `Create`.
abbrev pub reporting : {S A : Type 0} → Action S A → Action S A
reporting m s = let (r, s') = m s in elim r [ ok a ↦ (ok a, s') | err e ↦ (err (reported e), s') ]

module _ (g : Gorm) (h : PasswordHasher) where
  open g use {World, transaction}

  -- The closure; its variable is the user.
  unfoldable pub registering : Action (User × World) (Unit {0})
  registering = store λ u. reporting (create_user g u)

  abbrev pub registered_with : Result (Unit {0}) × (User × World) → Result User × World
  registered_with (err e, (_, w)) = (err e, w)
  registered_with (ok _, (u, w)) = (ok u, w)

  abbrev pub register_made : Result User → World → Result User × World
  register_made (err e) w = (err e, w)
  register_made (ok u) w = registered_with (transaction registering (u, w))

  abbrev pub register_hashed : RegisterUserInput → Result String → World → Result User × World
  register_hashed inp (err e) w = (err e, w)
  register_hashed inp (ok hash) w = register_made (new_user inp.email hash inp.full_name inp.role) w

  unfoldable pub handle : RegisterUserInput → World × h.State → Result User × World × h.State
  handle inp (w, s) =
      let (hashed, s') = h.hash inp.password s in
      let (r, w') = register_hashed inp hashed w in (r, w', s')
