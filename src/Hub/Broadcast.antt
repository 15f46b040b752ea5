-- ===== src/Hub/Broadcast.antt =====
-- A broadcast of internal/interfaces/http/ws/hub.go, as one client sees it.
use backend_golang_task.Prelude.{
  ℕ, ◌≡◌, ◌⊎◌, inl, inr, refl, ap, ◌∙◌, subst, ◌==◌, ltb, Bool, true, false, if◌then◌else◌, Option,
  some, none, List, [], ◌∷◌, length, arith,
}
use backend_golang_task.Hub.{
  Channel, send_buffer, set_channel, close_send, has, delete, pushed, deliver,
}
use backend_golang_task.Hub.Clients.{Open, Open-set_channel, has-Open}

pub has-delete :
    (c d : ℕ) (cs : List ℕ) → has c (delete d cs) ≡ (if d == c then false else has c cs)
has-delete c d [] = ground arith
has-delete c d (e ∷ es) = ground (arith, has-delete c d es)

module _ {A : Type 0} where
  -- What delivering a message to the clients `cs` does at one client: it is dropped, or its channel
  -- gets the message.
  abbrev pub Gets : ℕ → A → List ℕ → (ℕ → Channel A) → Option (List ℕ × (ℕ → Channel A)) → Type 0
  Gets c msg cs channels none = Unit
  Gets c msg cs channels (some (kept, channels')) =
      (has c cs ≡ false → (has c kept ≡ false) × (channels' c ≡ channels c))
      × (has c cs ≡ true
          → (has c kept ≡ false) ⊎ ((has c kept ≡ true) × (channels' c ≡ pushed msg (channels c))))

  has-below :
      (c : ℕ) (cs : List ℕ) (channels : ℕ → Channel A) → Open c cs channels → has c cs ≡ false
  has-below c cs channels o = go (has c cs) refl
    where
      go : (b : Bool) → has c cs ≡ b → b ≡ false
      go true e = let (lt, _) = has-Open c c cs channels o e in absurd (omega (arith, lt))
      go false e = refl

  pub deliver-Gets :
      (c : ℕ) (msg : A) (bound : ℕ) (cs : List ℕ) (channels : ℕ → Channel A)
      → Open bound cs channels
      → Gets c msg cs channels (deliver msg cs channels)
  unfolding deliver close_send
  deliver-Gets c msg bound [] channels o = ((λ e. (refl, refl)), λ e. cc)
  deliver-Gets c msg bound (d ∷ ds) channels (lt, opened, rest) =
      go (channels d).closed (channels d).closed (ltb (length (channels d).buffer) send_buffer)
        (deliver msg ds sent)
        (deliver-Gets c msg d ds sent (Open-set_channel d d ds _ channels (omega arith) rest))
        (deliver-Gets c msg d ds dropped (Open-set_channel d d ds _ channels (omega arith) rest))
        (d == c) refl
    where
      sent : ℕ → Channel A
      sent = set_channel d (pushed msg (channels d)) channels

      dropped : ℕ → Channel A
      dropped = set_channel d (record (channels d) { closed = true }) channels

      none_below : (d == c) ≡ true → has c ds ≡ false
      none_below e =
          subst (λ (j : ℕ). has j ds ≡ false) {x = d} {y = c} (ground (arith, e))
            (has-below d ds channels rest)

      at_self :
          (f : Channel A → Channel A)
          → (d == c) ≡ true
          → set_channel d (f (channels d)) channels c ≡ f (channels c)
      at_self f e = is_set ∙ ap (λ (j : ℕ). f (channels j)) {x = d} {y = c} (ground (arith, e))
        where
          is_set : set_channel d (f (channels d)) channels c ≡ f (channels d)
          is_set = ground (arith, e)

      at_other :
          (channel : Channel A) → (d == c) ≡ false → set_channel d channel channels c ≡ channels c
      at_other channel e = ground (arith, e)

      keeps :
          (r : Option (List ℕ × (ℕ → Channel A))) (b : Bool)
          → (d == c) ≡ b
          → Gets c msg ds sent r
          → Gets c msg
              (d ∷ ds)
              channels
              (elim r [ none ↦ none | some (kept, channels') ↦ some (d ∷ kept, channels') ])
      keeps none b e h = tt
      keeps (some (kept, channels')) true e (out, in_) = (
        λ f. absurd (ground (arith, e, f)),
        λ t. inr (ground (arith, e), (out (none_below e)).1 ∙ at_self (pushed msg) e),
      )
      keeps (some (kept, channels')) false e (out, in_) = (
        λ f.
            let (gone, same) = out (ground (arith, e, f)) in
            (ground (arith, e, gone), same ∙ at_other _ e),
        λ t. elim (in_ (ground (arith, e, t))) [
          | inl gone ↦ inl (ground (arith, e, gone))
          | inr (there, same) ↦
              inr (ground (arith, e, there), same ∙ ap (pushed msg) (at_other _ e))
        ],
      )

      drops :
          (r : Option (List ℕ × (ℕ → Channel A))) (b : Bool)
          → (d == c) ≡ b
          → Gets c msg ds dropped r
          → Gets c msg (d ∷ ds) channels r
      drops none b e h = tt
      drops (some (kept, channels')) true e (out, in_) =
          (λ f. absurd (ground (arith, e, f)), λ t. inl (out (none_below e)).0)
      drops (some (kept, channels')) false e (out, in_) = (
        λ f. let (gone, same) = out (ground (arith, e, f)) in (gone, same ∙ at_other _ e),
        λ t. elim (in_ (ground (arith, e, t))) [
          | inl gone ↦ inl gone
          | inr (there, same) ↦ inr (there, same ∙ ap (pushed msg) (at_other _ e))
        ],
      )

      go :
          (closed still room : Bool) (r : Option (List ℕ × (ℕ → Channel A)))
          → Gets c msg ds sent r
          → Gets c msg ds dropped (deliver msg ds dropped)
          → (b : Bool) → (d == c) ≡ b
          → Gets c msg (d ∷ ds) channels (elim closed [
            | true ↦ none
            | false ↦ elim room [
              | true ↦ elim r [ none ↦ none | some (kept, channels') ↦ some (d ∷ kept, channels') ]
              | false ↦ elim (if still then none else some dropped) [
                | none ↦ none
                | some channels' ↦ deliver msg ds channels'
              ]
            ]
          ])
      go true still room r h k b e = tt
      go false still true r h k b e = keeps r b e h
      go false true false r h k b e = tt
      go false false false r h k b e = drops (deliver msg ds dropped) b e k
