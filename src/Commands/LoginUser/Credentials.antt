-- ===== src/Commands/LoginUser/Credentials.antt =====
-- Whom internal/application/command/login_user.go lets in.
use backend_golang_task.Prelude.{
  ℕ, ◌≡◌, refl, sym, ap, ◌∙◌, subst, String, str_eq, eq_iff, Option, some, none, find?,
  find-append_last, List, [], ◌∷◌, arith,
}
use backend_golang_task.Errs.{Result, ok, err, Failure}
use backend_golang_task.User.{User}
use backend_golang_task.Ports.{PasswordHasher, TokenIssuer, IsHasher}
use backend_golang_task.Gorm.Models.{Tables, UserModel, get, stamp, users}
use backend_golang_task.Gorm.Engine.{Gorm, IsGorm}
use backend_golang_task.Gorm.Users.{find_by_email, user_to_model, user_to_domain}
use backend_golang_task.Gorm.Users.Reads.{find_by_email-row, find_by_email-tables}
use backend_golang_task.Commands.LoginUser.{invalid_credentials, issued, login_found, handle}
use backend_golang_task.Commands.RegisterUser.{RegisterUserInput}
use backend_golang_task.Commands.RegisterUser
use backend_golang_task.Commands.RegisterUser.Unique.{account, Registers, handle-Registers}

module _ (h : PasswordHasher) where
  -- No account was found, or the password is not its own.
  abbrev Wrong : String → Option UserModel → Type 0
  Wrong password none = Unit
  Wrong password (some m) = (e : Failure) × (h.compare m.password_hash password ≡ err e)

  -- An unknown e-mail and a wrong password get the same answer, which tells nobody whether there is an
  -- account with the e-mail.
  handle-Wrong :
      (g : Gorm) (t : TokenIssuer) (email password : String) (found : Option UserModel)
      (w w' : g.World)
      → g.first users (λ (m : UserModel). str_eq m.email email) w ≡ (ok found, w')
      → Wrong password found
      → handle g h t email password w ≡ (err invalid_credentials, w')
  unfolding handle find_by_email
  handle-Wrong g t email password none w w' found wrong = grind arith
  handle-Wrong g t email password (some m) w w' found (e, wrong) = grind arith

module _ (g : Gorm) (h : PasswordHasher) (t : TokenIssuer) where
  -- What an answer to an e-mail and a password rests on, at the tables `d`.
  abbrev pub LetsIn : String → String → Tables → Result (String × User) × g.World → Type 0
  LetsIn email password d (err _, w') = g.tables w' ≡ d
  LetsIn email password d (ok (token, u), w') =
      (m : UserModel) × (find? (λ (r : UserModel). str_eq r.email email) (get users d) ≡ some m)
      × (u ≡ user_to_domain m)
      × (h.compare m.password_hash password ≡ ok tt)
      × (t.issue m.id m.role ≡ ok token)
      × (g.tables w' ≡ d)

  let_in :
      (password : String) (x : Result User) {token : String} {v : User}
      → login_found g h t password x ≡ ok (token, v)
      → (x ≡ ok v) × (h.compare v.password_hash password ≡ ok tt) × (t.issue v.id v.role ≡ ok token)
  let_in password (ok u) {token} {v} e = grind arith
  let_in password (err x) {token} {v} e = grind arith

  module _ (laws : IsGorm g) where
    login-LetsIn :
        (email password : String) (w w' : g.World) (x : Result User) (r : Result (String × User))
        → find_by_email g email w ≡ (x, w')
        → login_found g h t password x ≡ r
        → LetsIn email password (g.tables w) (r, w')
    login-LetsIn email password w w' x (err e) found is =
        ap (λ (y : Result User × g.World). g.tables y.1) (sym found)
        ∙ find_by_email-tables g laws email w
    login-LetsIn email password w w' x (ok (token, u)) found is =
        let (same, accepted, issued) = let_in password x is in
        let (m, row, read) =
          find_by_email-row g laws email w (found ∙ ap (λ (x : Result User). (x, w')) same) in
        (
          m,
          row,
          read,
          subst (λ (u : User). h.compare u.password_hash password ≡ ok tt) read accepted,
          subst (λ (u : User). t.issue u.id u.role ≡ ok token) read issued,
          ap (λ (y : Result User × g.World). g.tables y.1) (sym found)
              ∙ find_by_email-tables g laws email w,
        )

    -- Only an account lets in, and only by its password: a login that succeeds has found the account
    -- of the e-mail, whose hash accepts the password, answers with that account, and its token is one
    -- issued for the account's id and role. No login writes a table.
    pub handle-LetsIn :
        (email password : String) (w : g.World)
        → LetsIn email password (g.tables w) (handle g h t email password w)
    unfolding handle
    handle-LetsIn email password w = login-LetsIn email password w _ _ _ refl refl

-- The two lookups by e-mail, of the unique index and of the query, agree.
find_by_email-free :
    (email : String) (ms : List UserModel)
    → find? (λ (r : UserModel). str_eq email r.email) ms ≡ none
    → find? (λ (r : UserModel). str_eq r.email email) ms ≡ none
find_by_email-free email [] h = refl
find_by_email-free email (m ∷ ms) h =
    ground (arith, eq_iff email m.email, eq_iff m.email email, find_by_email-free email ms)

module _ (g : Gorm) (laws : IsGorm g) (h : PasswordHasher) (hashes : IsHasher h)
    (t : TokenIssuer) where
  login_stored :
      (email password : String) (m : UserModel) (w w₁ : g.World) (found : Option UserModel)
      → find? (λ (r : UserModel). str_eq r.email email) (get users (g.tables w)) ≡ some m
      → h.compare m.password_hash password ≡ ok tt
      → g.first users (λ (r : UserModel). str_eq r.email email) w ≡ (ok found, w₁)
      → handle g h t email password w ≡ (issued g h t (user_to_domain m) (t.issue m.id m.role), w₁)
  unfolding handle find_by_email
  login_stored email password m w w₁ found row accepted read =
      grind (arith, laws.first_law users (λ (r : UserModel). str_eq r.email email) w)

  -- Who has registered can log in: unless the database fails the lookup, a login with the e-mail and
  -- the password of a registration that succeeded gets a token for the id and the role of its account,
  -- or the issuer's error, and the answer is the account, with the time at which the database stored it.
  pub login-register :
      (inp : RegisterUserInput) (w : g.World) (s : h.State) {u : User} {w' : g.World} {s' : h.State}
      → RegisterUser.handle g h inp (w, s) ≡ (ok u, w', s')
      → {found : Option UserModel} {w₁ : g.World}
      → g.first users (λ (r : UserModel). str_eq r.email inp.email) w' ≡ (ok found, w₁)
      → (at : ℕ) × (handle g h t inp.email inp.password w' ≡ (
        issued g h t (user_to_domain (stamp users at (user_to_model u))) (t.issue u.id u.role),
        w₁,
      ))
  login-register inp w s {u} {w'} {s'} registered {found} {w₁} read =
      let (hash, hashed, (at, id≢0, whole, free, rows)) =
        subst (Registers g h inp s (g.tables w)) registered (handle-Registers g h laws inp w s) in
      let stored = stamp users at (account u.id hash inp) in
      let row =
        ap (λ (d : Tables). find? (λ (r : UserModel). str_eq r.email inp.email) (get users d)) rows
        ∙ find-append_last (λ (r : UserModel). str_eq r.email inp.email) (get users (g.tables w))
            stored (find_by_email-free inp.email (get users (g.tables w)) free)
            (ground (arith, eq_iff inp.email inp.email)) in
      (
        at,
        login_stored inp.email inp.password stored w' w₁ found row
              (hashes.accepts inp.password s hashed) read
            ∙ ap
                (λ (m : UserModel).
                  (issued g h t (user_to_domain (stamp users at m)) (t.issue m.id m.role), w₁))
                (sym whole),
      )
