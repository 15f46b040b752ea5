-- ===== src/Hub/Safety.antt =====
-- That `Run` of internal/interfaces/http/ws/hub.go does not panic.
use backend_golang_task.Prelude.{
  ℕ, suc, ◌≤◌, ◌<◌, ◌≡◌, ◌≢◌, refl, ap, ◌∙◌, subst, Bool, true, false, if◌then◌else◌, Option, some,
  none, List, [], ◌∷◌, arith,
}
use backend_golang_task.Hub.{
  Channel, Hub, Received, registers, unregisters, broadcasts, stops, new_hub, set_channel,
  close_send, has, delete, deliver, close_all, unregistered, delivered, stopped, receive, run, Turn,
  receives, writes, write, turn,
}
use backend_golang_task.Hub.Clients.{
  Open, Open-closed, set_channel_closed, has-Open, Open-delete_set, SameAbove, set_channel-above,
}
use backend_golang_task.Hub.Loops.{Delivers, deliver-Delivers, Closes, close_all-Closes}
use mathlib.Core.Bool.{true≢false}

module _ {A : Type 0} where
  pub record IsSafe (h : Hub A) : Type 0 where
    pub open_clients : Open h.connected h.clients h.channels
    pub unused : (i : ℕ) → h.connected ≤ i → (h.channels i).closed ≡ false

  -- Not a panic, and safe.
  abbrev pub Receives : Option (Hub A) → Type 0
  Receives none = ◌≡◌ {A = Bool} true false
  Receives (some h) = IsSafe h

  pub new_hub-IsSafe : IsSafe (new_hub {A = A})
  new_hub-IsSafe = record { open_clients = tt; unused = λ i le. refl }

  untouched :
      (h : Hub A) (cs : List ℕ) (channels : ℕ → Channel A) (done : Bool)
      → IsSafe h
      → Open h.connected cs channels
      → SameAbove h.connected h.channels channels
      → IsSafe (record h { clients = cs; channels = channels; done = done })
  untouched h cs channels done safe o same = record {
    open_clients = o;
    unused = λ i le. ap (λ (ch : Channel A). ch.closed) (same i le) ∙ safe.unused i le;
  }

  registered-IsSafe :
      (h : Hub A)
      → IsSafe h
      → IsSafe (record h { clients = h.connected ∷ h.clients; connected = suc h.connected })
  registered-IsSafe h safe = record {
    open_clients = (omega arith, safe.unused h.connected (omega arith), safe.open_clients);
    unused = λ i le. safe.unused i (omega (arith, le));
  }

  unregistered-Receives :
      (c : ℕ) (h : Hub A) → IsSafe h → Receives (unregistered c h (has c h.clients))
  unfolding close_send
  unregistered-Receives c h safe = go (has c h.clients) refl
    where
      closed_one : ℕ → Channel A
      closed_one = set_channel c (record (h.channels c) { closed = true }) h.channels

      closing :
          (closed : Bool)
          → closed ≡ false
          → c < h.connected
          → Receives (elim (if closed then none else some closed_one) [
            | none ↦ none
            | some channels ↦ some (record h { clients = delete c h.clients; channels = channels })
          ])
      closing true e lt = e
      closing false e lt =
          untouched h (delete c h.clients) closed_one h.done safe
            (Open-delete_set c h.connected h.clients (record (h.channels c) { closed = true })
              h.channels safe.open_clients)
            (set_channel-above c h.connected (record (h.channels c) { closed = true }) h.channels
              lt)

      go : (b : Bool) → has c h.clients ≡ b → Receives (unregistered c h b)
      go false e = safe
      go true e =
          let (lt, opened) = has-Open c h.connected h.clients h.channels safe.open_clients e in
          closing (h.channels c).closed opened lt

  delivered-Receives :
      (h : Hub A) (r : Option (List ℕ × (ℕ → Channel A)))
      → IsSafe h
      → Delivers h.connected h.channels r
      → Receives (delivered h r)
  delivered-Receives h none safe d = d
  delivered-Receives h (some (clients, channels)) safe (o, same) =
      untouched h clients channels h.done safe o same

  stopped-Receives :
      (h : Hub A) (r : Option (ℕ → Channel A))
      → IsSafe h
      → Closes h.connected h.channels r
      → Receives (stopped h r)
  stopped-Receives h none safe d = d
  stopped-Receives h (some channels) safe same = untouched h [] channels true safe tt same

  receive-Receives : (r : Received A) (h : Hub A) → IsSafe h → Receives (receive r h)
  unfolding receive
  receive-Receives r h safe = go h.done r
    where
      go :
          (done : Bool) (r : Received A)
          → Receives (elim done [
            | true ↦ some h
            | false ↦ elim r [
              | registers ↦
                  some
                    (record h { clients = h.connected ∷ h.clients; connected = suc (h.connected) })
              | unregisters c ↦ unregistered c h (has c (h.clients))
              | broadcasts msg ↦ delivered h (deliver msg (h.clients) (h.channels))
              | stops ↦ stopped h (close_all (h.clients) (h.channels))
            ]
          ])
      go true r = safe
      go false registers = registered-IsSafe h safe
      go false (unregisters c) = unregistered-Receives c h safe
      go false (broadcasts msg) =
          delivered-Receives h _ safe
            (deliver-Delivers msg h.connected h.clients h.channels safe.open_clients)
      go false stops =
          stopped-Receives h _ safe
            (close_all-Closes h.connected h.clients h.channels safe.open_clients)

  write-IsSafe : (c : ℕ) (h : Hub A) → IsSafe h → IsSafe (write c h)
  write-IsSafe c h safe = record {
    open_clients =
        Open-closed h.connected h.clients h.channels (write c h).channels same safe.open_clients;
    unused = λ i le. same i ∙ safe.unused i le;
  }
    where
      same : (i : ℕ) → ((write c h).channels i).closed ≡ (h.channels i).closed
      same i = set_channel_closed c i _ h.channels refl

  pub turn-Receives : (t : Turn A) (h : Hub A) → IsSafe h → Receives (turn t h)
  unfolding turn
  turn-Receives (receives r) h safe = receive-Receives r h safe
  turn-Receives (writes c) h safe = write-IsSafe c h safe

  pub run-Receives : (ts : List (Turn A)) (h : Hub A) → IsSafe h → Receives (run ts h)
  unfolding run
  run-Receives [] h safe = safe
  run-Receives (t ∷ ts) h safe = go (turn t h) (turn-Receives t h safe) (run-Receives ts)
    where
      go :
          (x : Option (Hub A))
          → Receives x
          → ((h' : Hub A) → IsSafe h' → Receives (run ts h'))
          → Receives (elim x [ none ↦ none | some h' ↦ run ts h' ])
      go none e rest = e
      go (some h') safe' rest = rest h' safe'

  -- Whatever the hub receives and its clients take, in whatever order, it does not panic: it never
  -- closes the channel of a client twice, and never sends on one that is closed.
  pub run_panics : (ts : List (Turn A)) → run ts (new_hub {A = A}) ≢ none
  run_panics ts e = true≢false (subst Receives e (run-Receives ts (new_hub {A = A}) new_hub-IsSafe))
