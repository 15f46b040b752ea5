-- ===== src/Hub/Messages.antt =====
-- What a client of the hub in internal/interfaces/http/ws/hub.go gets.
use backend_golang_task.Prelude.{
  ℕ, ◌<◌, ◌≡◌, inl, inr, sym, ap, ◌∙◌, subst, true, false, Option, some, none, List, [], ◌∷◌, ◌++◌,
  append_assoc, append-nil,
}
use backend_golang_task.Hub.{Hub, Turn, new_hub, has, turn, run}
use backend_golang_task.Hub.Safety.{IsSafe, Receives, turn-Receives, run-Receives, new_hub-IsSafe}
use backend_golang_task.Hub.Follow.{takes, hears, Follows, turn-Follows}

some_inj : {A : Type 0} {a b : A} → some a ≡ some b → a ≡ b
some_inj e = cc

module _ {A : Type 0} where
  -- All that a client takes, and all the messages that `Run` receives, during some turns.
  abbrev pub takes_all : ℕ → List (Turn A) → Hub A → List A
  unfolding turn
  takes_all c [] h = []
  takes_all c (t ∷ ts) h =
      takes c t h ++ elim (turn t h) [ none ↦ [] | some h' ↦ takes_all c ts h' ]

  abbrev pub hears_all : List (Turn A) → Hub A → List A
  unfolding turn
  hears_all [] h = []
  hears_all (t ∷ ts) h = hears t h ++ elim (turn t h) [ none ↦ [] | some h' ↦ hears_all ts h' ]

  -- A client that has left does not come back: the next one gets another number.
  run_gone :
      (c : ℕ) (ts : List (Turn A)) (h h' : Hub A)
      → IsSafe h
      → c < h.connected
      → has c h.clients ≡ false
      → run ts h ≡ some h'
      → has c h'.clients ≡ false
  unfolding run
  run_gone c [] h h' safe lt gone e = ap (λ (o : Hub A). has c o.clients) (sym (some_inj e)) ∙ gone
  run_gone c (t ∷ ts) h h' safe lt gone e =
      go (turn t h) (turn-Receives t h safe) (turn-Follows c t h safe) e (λ h₁. run_gone c ts h₁ h')
    where
      go :
          (x : Option (Hub A))
          → Receives x
          → Follows c t h x
          → (elim x [ none ↦ none | some h₁ ↦ run ts h₁ ]) ≡ some h'
          → ((h₁ : Hub A)
              → IsSafe h₁
              → c < h₁.connected
              → has c h₁.clients ≡ false
              → run ts h₁ ≡ some h'
              → has c h'.clients ≡ false)
          → has c h'.clients ≡ false
      go none received follows e rest = cc
      go (some h₁) safe₁ (out, in_) e rest =
          let (lt₁, gone₁) = out lt gone in rest h₁ safe₁ lt₁ gone₁ e

  run_takes :
      (c : ℕ) (ts : List (Turn A)) (h h' : Hub A)
      → IsSafe h
      → has c h.clients ≡ true
      → run ts h ≡ some h'
      → has c h'.clients ≡ true
      → takes_all c ts h ++ (h'.channels c).buffer ≡ (h.channels c).buffer ++ hears_all ts h
  unfolding run takes_all hears_all
  run_takes c [] h h' safe there e stays =
      ap (λ (o : Hub A). (o.channels c).buffer) (sym (some_inj e))
      ∙ sym (append-nil (h.channels c).buffer)
  run_takes c (t ∷ ts) h h' safe there e stays =
      go (turn t h) (turn-Receives t h safe) (turn-Follows c t h safe) e
        (λ h₁. run_takes c ts h₁ h')
    where
      -- The turn and the turns after it.
      joined :
          (now rest next before heard later : List A)
          → now ++ next ≡ before ++ heard
          → rest ++ (h'.channels c).buffer ≡ next ++ later
          → (now ++ rest) ++ (h'.channels c).buffer ≡ before ++ (heard ++ later)
      joined now rest next before heard later one two =
          append_assoc now rest (h'.channels c).buffer
          ∙ ap (λ (msgs : List A). now ++ msgs) two
          ∙ sym (append_assoc now next later)
          ∙ ap (λ (msgs : List A). msgs ++ later) one
          ∙ append_assoc before heard later

      go :
          (x : Option (Hub A))
          → Receives x
          → Follows c t h x
          → (elim x [ none ↦ none | some h₁ ↦ run ts h₁ ]) ≡ some h'
          → ((h₁ : Hub A)
              → IsSafe h₁
              → has c h₁.clients ≡ true
              → run ts h₁ ≡ some h'
              → has c h'.clients ≡ true
              → takes_all c ts h₁ ++ (h'.channels c).buffer
                ≡ (h₁.channels c).buffer ++ hears_all ts h₁)
          → (takes c t h ++ elim x [ none ↦ [] | some h₁ ↦ takes_all c ts h₁ ])
              ++ (h'.channels c).buffer
            ≡ (h.channels c).buffer
              ++ (hears t h ++ elim x [ none ↦ [] | some h₁ ↦ hears_all ts h₁ ])
      go none received follows e rest = cc
      go (some h₁) safe₁ (out, in_) e rest =
          let (lt, cases) = in_ there in
          elim cases [
            | inl gone ↦ let left = run_gone c ts h₁ h' safe₁ lt gone e in absurd (cc)
            | inr (there₁, same) ↦
                joined (takes c t h) (takes_all c ts h₁) (h₁.channels c).buffer
                  (h.channels c).buffer (hears t h) (hears_all ts h₁) same
                  (rest h₁ safe₁ there₁ e stays)
          ]

  -- As long as the hub does not drop a client and the client does not leave, nothing is lost: what it has
  -- taken, followed by what is still in its channel, is what was in its channel, followed by every message
  -- that the hub has received meanwhile, each once and in the order in which they were received.
  pub run_messages :
      (before ts : List (Turn A)) (c : ℕ) {h h' : Hub A}
      → run before new_hub ≡ some h
      → has c h.clients ≡ true
      → run ts h ≡ some h'
      → has c h'.clients ≡ true
      → takes_all c ts h ++ (h'.channels c).buffer ≡ (h.channels c).buffer ++ hears_all ts h
  run_messages before ts c {h} {h'} started there ran stays =
      run_takes c ts h h' (subst Receives started (run-Receives before new_hub new_hub-IsSafe))
        there ran stays
