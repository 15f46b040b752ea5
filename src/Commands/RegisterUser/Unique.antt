-- ===== src/Commands/RegisterUser/Unique.antt =====
-- What internal/application/command/register_user.go has written when it answers.
use backend_golang_task.Prelude.{
  ℕ, ◌≡◌, ◌≢◌, refl, sym, ap, ◌∙◌, subst, str_eq, String, none, find?, [], ◌∷◌, ◌++◌, arith,
}
use backend_golang_task.Errs.{Result, ok, err}
use backend_golang_task.User.{User, new_user, assign_id, role_or_customer}
use backend_golang_task.Ports.{PasswordHasher}
use backend_golang_task.Gorm.Models.{Tables, UserModel, get, put, with_id, stamp, duplicates, users}
use backend_golang_task.Gorm.Engine.{Gorm, IsGorm, Transacted}
use backend_golang_task.Gorm.Users.{create_user, user_to_model}
use backend_golang_task.Commands.Memory.{store-eq-ok}
use backend_golang_task.Commands.RegisterUser.{
  RegisterUserInput, reporting, registering, registered_with, register_made, register_hashed,
  handle,
}

-- The row of an account as the request describes it.
abbrev pub account : ℕ → String → RegisterUserInput → UserModel
account id hash inp = record {
  id = id;
  email = inp.email;
  password_hash = hash;
  full_name = inp.full_name;
  role = role_or_customer inp.role;
  created_at = 0;
}

made :
    (inp : RegisterUserInput) (hash : String) (u : User)
    → new_user inp.email hash inp.full_name inp.role ≡ ok u
    → user_to_model u ≡ account 0 hash inp
unfolding new_user
made inp hash u h = grind arith

assigned :
    (id : ℕ) (u : User)
    → u.id ≡ 0
    → user_to_model (assign_id id u) ≡ with_id users id (user_to_model u)
unfolding assign_id
assigned id u h = grind arith

-- The account of the answer `u`, under the password's hash, is the only change of the tables `d`.
abbrev pub Adds : RegisterUserInput → String → Tables → User → Tables → Type 0
Adds inp hash d u d' =
    (stamped_at : ℕ) × (u.id ≢ 0)
    × (user_to_model u ≡ account u.id hash inp)
    × (find? (duplicates users (account u.id hash inp)) (get users d) ≡ none)
    × (d' ≡ put users (get users d ++ stamp users stamped_at (account u.id hash inp) ∷ []) d)

assembled :
    (inp : RegisterUserInput) (hash : String) (id stamped_at : ℕ) (u : User) (m : UserModel)
    (d d' : Tables)
    → m ≡ account 0 hash inp
    → id ≢ 0
    → user_to_model u ≡ with_id users id m
    → find? (duplicates users m) (get users d) ≡ none
    → d' ≡ put users (get users d ++ stamp users stamped_at (with_id users id m) ∷ []) d
    → Adds inp hash d u d'
assembled inp hash id stamped_at u m d d' plain id≢0 row free rows =
    let same_id = ap (λ (m : UserModel). m.id) row in
    let whole = row ∙ ap (with_id users id) plain in
    (
      stamped_at,
      (λ e. id≢0 (sym same_id ∙ e)),
      grind (arith, whole, same_id),
      subst
          (λ (email : String). find? (λ (r : UserModel). str_eq email r.email) (get users d) ≡ none)
          (ap (λ (m : UserModel). m.email) plain) free,
      grind (arith, rows, plain, same_id),
    )

module _ (g : Gorm) (h : PasswordHasher) where
  -- How a call ends that began with the tables `d` and the hasher `s`.
  abbrev pub Registers :
      RegisterUserInput → h.State → Tables → Result User × g.World × h.State → Type 0
  Registers inp s d (err e, w', s') = g.tables w' ≡ d
  Registers inp s d (ok u, w', s') =
      (hash : String) × (h.hash inp.password s ≡ (ok hash, s')) × Adds inp hash d u (g.tables w')

  module _ (laws : IsGorm g) where
    create_user-row :
        (u : User) (w : g.World) {u' : User} {w' : g.World}
        → reporting (create_user g u) w ≡ (ok u', w')
        → (id : ℕ) × (now : ℕ) × (id ≢ 0)
          × (u' ≡ assign_id id u)
          × (find? (duplicates users (user_to_model u)) (get users (g.tables w)) ≡ none)
          × (g.tables w'
              ≡ put users
                  (get users (g.tables w)
                    ++ stamp users now (with_id users id (user_to_model u)) ∷ [])
                  (g.tables w))
    unfolding create_user
    create_user-row u w e = grind (arith, laws.create_law users (user_to_model u) w)

    registering-Adds :
        (inp : RegisterUserInput) (hash : String) (u : User) (w : g.World) {a : Unit {0}}
        {u' : User} {w' : g.World}
        → user_to_model u ≡ account 0 hash inp
        → registering g h (u, w) ≡ (ok a, (u', w'))
        → Adds inp hash (g.tables w) u' (g.tables w')
    unfolding registering
    registering-Adds inp hash u w {a} {u'} {w'} plain e =
        let (id, stamped_at, id≢0, is, free, rows) =
          create_user-row u w (store-eq-ok (λ u. reporting (create_user g u)) u w e) in
        let row = ap user_to_model is ∙ assigned id u (ap (λ (m : UserModel). m.id) plain) in
        assembled inp hash id stamped_at u' (user_to_model u) (g.tables w) (g.tables w') plain id≢0
          row free rows

    registered_with-Registers :
        (inp : RegisterUserInput) (hash : String) (s s' : h.State) (u : User) (w : g.World)
        (t : Result (Unit {0}) × (User × g.World))
        → h.hash inp.password s ≡ (ok hash, s')
        → user_to_model u ≡ account 0 hash inp
        → Transacted g (registering g h) u (g.tables w) t
        → let (r, w') = registered_with g h t in Registers inp s (g.tables w) (r, w', s')
    registered_with-Registers inp hash s s' u w (err e, (u', w')) hashed plain same = same
    registered_with-Registers inp hash s s' u w (ok _, (u', w')) hashed plain
          (begun, done, begins, ran, kept) =
        (
          hash,
          hashed,
          subst (λ (d : Tables). Adds inp hash d u' (g.tables w')) begins
              (subst (λ (d : Tables). Adds inp hash (g.tables begun) u' d) (sym kept)
                (registering-Adds inp hash u begun plain ran)),
        )

    register_made-Registers :
        (inp : RegisterUserInput) (hash : String) (s s' : h.State) (w : g.World) (x : Result User)
        → h.hash inp.password s ≡ (ok hash, s')
        → new_user inp.email hash inp.full_name inp.role ≡ x
        → let (r, w') = register_made g h x w in Registers inp s (g.tables w) (r, w', s')
    register_made-Registers inp hash s s' w (err e) hashed is = refl
    register_made-Registers inp hash s s' w (ok u) hashed is =
        registered_with-Registers inp hash s s' u w _ hashed (made inp hash u is)
          (laws.transaction_law (registering g h) u w)

    register_hashed-Registers :
        (inp : RegisterUserInput) (s s' : h.State) (w : g.World) (x : Result String)
        → h.hash inp.password s ≡ (x, s')
        → let (r, w') = register_hashed g h inp x w in Registers inp s (g.tables w) (r, w', s')
    register_hashed-Registers inp s s' w (err e) hashed = refl
    register_hashed-Registers inp s s' w (ok hash) hashed =
        register_made-Registers inp hash s s' w _ hashed refl

    -- A registration that fails leaves every table as it was; so does one under an e-mail that an
    -- account has, since one that succeeds found no account with the e-mail. It has added exactly one
    -- row, that of the answer: the account as the request describes it, a customer's if no role was
    -- given, with a hash that the hasher made of the password, under an id that is not 0.
    pub handle-Registers :
        (inp : RegisterUserInput) (w : g.World) (s : h.State)
        → Registers inp s (g.tables w) (handle g h inp (w, s))
    unfolding handle
    handle-Registers inp w s = register_hashed-Registers inp s _ w _ refl
