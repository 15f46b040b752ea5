-- ===== src/Hub/Loops.antt =====
-- The two loops over the clients in `Run` of internal/interfaces/http/ws/hub.go.
use backend_golang_task.Prelude.{
  ℕ, ◌≡◌, refl, ap, ◌∙◌, ltb, Bool, true, false, if◌then◌else◌, Option, some, none, List, [], ◌∷◌,
  length, arith,
}
use backend_golang_task.Hub.{
  Channel, send_buffer, set_channel, close_send, pushed, deliver, close_all,
}
use backend_golang_task.Hub.Clients.{
  Open, Open-set_channel, Open-bound, SameAbove, set_channel-above, then_above,
}

module _ {A : Type 0} where
  abbrev pub Delivers : ℕ → (ℕ → Channel A) → Option (List ℕ × (ℕ → Channel A)) → Type 0
  Delivers bound channels none = ◌≡◌ {A = Bool} true false
  Delivers bound channels (some (cs, channels')) =
      Open bound cs channels' × SameAbove bound channels channels'

  pub deliver-Delivers :
      (msg : A) (bound : ℕ) (cs : List ℕ) (channels : ℕ → Channel A)
      → Open bound cs channels
      → Delivers bound channels (deliver msg cs channels)
  unfolding deliver close_send
  deliver-Delivers msg bound [] channels h = (tt, λ i le. refl)
  deliver-Delivers msg bound (c ∷ cs) channels (lt, opened, rest) =
      go (channels c).closed opened (channels c).closed opened
        (ltb (length (channels c).buffer) send_buffer) (deliver msg cs sent)
        (deliver-Delivers msg c cs sent
          (Open-set_channel c c cs (pushed msg (channels c)) channels (omega arith) rest))
        (deliver-Delivers msg c cs dropped (
          Open-set_channel c c cs (record (channels c) { closed = true }) channels (omega arith)
            rest))
    where
      sent : ℕ → Channel A
      sent = set_channel c (pushed msg (channels c)) channels

      dropped : ℕ → Channel A
      dropped = set_channel c (record (channels c) { closed = true }) channels

      keeps :
          (r : Option (List ℕ × (ℕ → Channel A)))
          → Delivers c sent r
          → Delivers bound channels
              (elim r [ none ↦ none | some (kept, channels') ↦ some (c ∷ kept, channels') ])
      keeps none h = h
      keeps (some (kept, channels')) (o, same) = (
        (
          lt,
          ap (λ (ch : Channel A). ch.closed) (same c (omega arith)) ∙ (ground (arith, opened)),
          o,
        ),
        then_above c bound channels sent channels' lt
            (set_channel-above c bound (pushed msg (channels c)) channels lt) same,
      )

      drops :
          (r : Option (List ℕ × (ℕ → Channel A))) → Delivers c dropped r → Delivers bound channels r
      drops none h = h
      drops (some (kept, channels')) (o, same) = (
        Open-bound c bound kept channels' (omega (arith, lt)) o,
        then_above c bound channels dropped channels' lt
            (set_channel-above c bound (record (channels c) { closed = true }) channels lt) same,
      )

      go :
          (closed : Bool)
          → closed ≡ false
          → (still : Bool) → still ≡ false
          → (room : Bool) (r : Option (List ℕ × (ℕ → Channel A))) → Delivers c sent r
          → Delivers c dropped (deliver msg cs dropped)
          → Delivers bound channels (elim closed [
            | true ↦ none
            | false ↦ elim room [
              | true ↦ elim r [ none ↦ none | some (kept, channels') ↦ some (c ∷ kept, channels') ]
              | false ↦ elim (if still then none else some dropped) [
                | none ↦ none
                | some channels' ↦ deliver msg cs channels'
              ]
            ]
          ])
      go true e still f room r h k = e
      go false e still f true r h k = keeps r h
      go false e true f false r h k = f
      go false e false f false r h k = drops (deliver msg cs dropped) k

  abbrev pub Closes : ℕ → (ℕ → Channel A) → Option (ℕ → Channel A) → Type 0
  Closes bound channels none = ◌≡◌ {A = Bool} true false
  Closes bound channels (some channels') = SameAbove bound channels channels'

  pub close_all-Closes :
      (bound : ℕ) (cs : List ℕ) (channels : ℕ → Channel A)
      → Open bound cs channels
      → Closes bound channels (close_all cs channels)
  unfolding close_all close_send
  close_all-Closes bound [] channels h = λ i le. refl
  close_all-Closes bound (c ∷ cs) channels (lt, opened, rest) = go (channels c).closed opened (
      close_all-Closes c cs closed_one (
        Open-set_channel c c cs (record (channels c) { closed = true }) channels (omega arith)
          rest))
    where
      closed_one : ℕ → Channel A
      closed_one = set_channel c (record (channels c) { closed = true }) channels

      ends : (r : Option (ℕ → Channel A)) → Closes c closed_one r → Closes bound channels r
      ends none h = h
      ends (some channels') same =
          then_above c bound channels closed_one channels' lt
            (set_channel-above c bound (record (channels c) { closed = true }) channels lt) same

      go :
          (closed : Bool)
          → closed ≡ false
          → Closes c closed_one (close_all cs closed_one)
          → Closes bound channels (elim (if closed then none else some closed_one) [
            | none ↦ none
            | some channels' ↦ close_all cs channels'
          ])
      go true e h = e
      go false e h = ends (close_all cs closed_one) h
