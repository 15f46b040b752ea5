-- ===== src/Hub/Follow.antt =====
-- A turn of the hub in internal/interfaces/http/ws/hub.go, as one client sees it.
use backend_golang_task.Prelude.{
  ℕ, suc, ◌<◌, ◌≡◌, ◌⊎◌, inl, inr, refl, sym, ap, ◌∙◌, subst, ◌==◌, Bool, true, false,
  if◌then◌else◌, Option, some, none, List, [], ◌∷◌, ◌++◌, append-nil, arith,
}
use backend_golang_task.Hub.{
  Channel, Hub, Received, registers, unregisters, broadcasts, stops, Turn, receives, writes,
  set_channel, close_send, has, delete, deliver, close_all, unregistered, delivered, stopped,
  receive, taken, write, turn,
}
use backend_golang_task.Hub.Clients.{has-Open}
use backend_golang_task.Hub.Safety.{IsSafe}
use backend_golang_task.Hub.Broadcast.{Gets, deliver-Gets, has-delete}

module _ {A : Type 0} where
  abbrev first_of : List A → List A
  first_of [] = []
  first_of (msg ∷ _) = msg ∷ []

  first_of-taken : (msgs : List A) → first_of msgs ++ taken msgs ≡ msgs
  first_of-taken [] = refl
  first_of-taken (msg ∷ msgs) = refl

  -- What a client takes from its channel at a turn.
  abbrev pub takes : ℕ → Turn A → Hub A → List A
  takes c (receives _) h = []
  takes c (writes d) h = if d == c then first_of (h.channels d).buffer else []

  abbrev spoken : Bool → A → List A
  spoken true msg = []
  spoken false msg = msg ∷ []

  -- The message that `Run` receives at a turn.
  abbrev pub hears : Turn A → Hub A → List A
  hears (receives (broadcasts msg)) h = spoken h.done msg
  hears _ h = []

  -- What a turn does at one client.
  abbrev pub Follows : ℕ → Turn A → Hub A → Option (Hub A) → Type 0
  Follows c t h none = Unit
  Follows c t h (some h') =
      (c < h.connected → has c h.clients ≡ false → (c < h'.connected) × (has c h'.clients ≡ false))
      × (has c h.clients ≡ true
          → (c < h'.connected)
            × ((has c h'.clients ≡ false)
                ⊎ ((has c h'.clients ≡ true)
                    × (takes c t h ++ (h'.channels c).buffer
                        ≡ (h.channels c).buffer ++ hears t h))))

  unregistered-Follows :
      (c d : ℕ) (h : Hub A)
      → (has c h.clients ≡ true → c < h.connected)
      → Follows c (receives (unregisters d)) h (unregistered d h (has d h.clients))
  unfolding close_send
  unregistered-Follows c d h below = go (has d h.clients) (h.channels d).closed (d == c) refl
    where
      go :
          (b closed same : Bool)
          → (d == c) ≡ same
          → Follows c (receives (unregisters d)) h (elim b [
            | false ↦ some h
            | true ↦
                elim (if closed
                  then none
                  else some (set_channel d (record (h.channels d) { closed = true }) h.channels)) [
                    | none ↦ none
                    | some channels ↦
                        some (record h { clients = delete d h.clients; channels = channels })
                  ]
          ])
      go false closed same e =
          ((λ lt f. (lt, f)), λ t. (below t, inr (t, sym (append-nil (h.channels c).buffer))))
      go true true same e = tt
      go true false true e = (
        (λ lt f. (lt, ground (arith, e, f, has-delete c d h.clients))),
        λ t. (below t, inl (ground (arith, e, has-delete c d h.clients))),
      )
      go true false false e = (
        (λ lt f. (lt, ground (arith, e, f, has-delete c d h.clients))),
        λ t. (
          below t,
          inr (
            ground (arith, e, t, has-delete c d h.clients),
            ground (arith, e, append-nil (h.channels c).buffer),
          ),
        ),
      )

  delivered-Follows :
      (c : ℕ) (msg : A) (h : Hub A) (x : Option (List ℕ × (ℕ → Channel A)))
      → h.done ≡ false
      → (has c h.clients ≡ true → c < h.connected)
      → Gets c msg h.clients h.channels x
      → Follows c (receives (broadcasts msg)) h (delivered h x)
  delivered-Follows c msg h none running below gets = tt
  delivered-Follows c msg h (some (kept, channels)) running below (out, in_) = (
    λ lt f. (lt, (out f).0),
    λ t. (
      below t,
      elim (in_ t) [
        | inl gone ↦ inl gone
        | inr (there, same) ↦ inr (
          there,
          ap (λ (ch : Channel A). ch.buffer) same
              ∙ ap (λ (b : Bool). (h.channels c).buffer ++ spoken b msg) (sym running),
        )
      ],
    ),
  )

  stopped-Follows :
      (c : ℕ) (h : Hub A) (x : Option (ℕ → Channel A))
      → (has c h.clients ≡ true → c < h.connected)
      → Follows c (receives stops) h (stopped h x)
  stopped-Follows c h none below = tt
  stopped-Follows c h (some channels) below = ((λ lt f. (lt, refl)), λ t. (below t, inl refl))

  write-Follows :
      (c d : ℕ) (h : Hub A)
      → (has c h.clients ≡ true → c < h.connected)
      → Follows c (writes d) h (some (write d h))
  write-Follows c d h below = (
    (λ lt f. (lt, f)),
    λ t. (below t, inr (t, go (d == c) refl ∙ sym (append-nil (h.channels c).buffer))),
  )
    where
      go :
          (b : Bool)
          → (d == c) ≡ b
          → (if b then first_of (h.channels d).buffer else []) ++ ((write d h).channels c).buffer
            ≡ (h.channels c).buffer
      go true e =
          subst
            (λ (j : ℕ).
              first_of (h.channels d).buffer ++ ((write d h).channels j).buffer
              ≡ (h.channels j).buffer)
            {x = d} {y = c} (ground (arith, e)) at_self
        where
          at_self :
              first_of (h.channels d).buffer ++ ((write d h).channels d).buffer
              ≡ (h.channels d).buffer
          at_self = ground (arith, first_of-taken (h.channels d).buffer)
      go false e = ground (arith, e)

  receive-Follows :
      (c : ℕ) (r : Received A) (h : Hub A) → IsSafe h → Follows c (receives r) h (receive r h)
  unfolding receive
  receive-Follows c r h safe = go r h.done refl
    where
      below : has c h.clients ≡ true → c < h.connected
      below e = (has-Open c h.connected h.clients h.channels safe.open_clients e).0

      still : (r : Received A) → hears (receives r) h ≡ [] → Follows c (receives r) h (some h)
      still r e = (
        (λ lt f. (lt, f)),
        λ t. (
          below t,
          inr (
            t,
            sym (append-nil (h.channels c).buffer)
                ∙ ap (λ (msgs : List A). (h.channels c).buffer ++ msgs) (sym e),
          ),
        ),
      )

      ended : (r : Received A) → h.done ≡ true → hears (receives r) h ≡ []
      ended registers e = refl
      ended (unregisters d) e = refl
      ended (broadcasts msg) e = ap (λ (b : Bool). spoken b msg) e
      ended stops e = refl

      go :
          (r : Received A) (done : Bool)
          → h.done ≡ done
          → Follows c (receives r) h (elim done [
            | true ↦ some h
            | false ↦ elim r [
              | registers ↦
                  some
                    (record h { clients = h.connected ∷ h.clients; connected = suc (h.connected) })
              | unregisters c ↦ unregistered c h (has c (h.clients))
              | broadcasts msg ↦ delivered h (deliver msg (h.clients) (h.channels))
              | stops ↦ stopped h (close_all (h.clients) (h.channels))
            ]
          ])
      go r true e = still r (ended r e)
      go registers false e = (
        (λ lt f. (omega (arith, lt), ground (arith, lt, f))),
        λ t.
            let lt = below t in
            (
              omega (arith, lt),
              inr (ground (arith, lt, t), sym (append-nil (h.channels c).buffer)),
            ),
      )
      go (unregisters d) false e = unregistered-Follows c d h below
      go (broadcasts msg) false e =
          delivered-Follows c msg h _ e below
            (deliver-Gets c msg h.connected h.clients h.channels safe.open_clients)
      go stops false e = stopped-Follows c h _ below

  pub turn-Follows : (c : ℕ) (t : Turn A) (h : Hub A) → IsSafe h → Follows c t h (turn t h)
  unfolding turn
  turn-Follows c (receives r) h safe = receive-Follows c r h safe
  turn-Follows c (writes d) h safe =
      write-Follows c d h (λ e. (has-Open c h.connected h.clients h.channels safe.open_clients e).0)
