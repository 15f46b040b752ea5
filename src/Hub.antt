-- ===== src/Hub.antt =====
-- internal/interfaces/http/ws/hub.go: `Run` of the websocket hub, one iteration of its loop after the
-- other. A client is the number of its connection.
-- What `Broadcast`, `Stop`, `ServeWS` and `readPump` send is what `Run` receives.
pub mod Clients
pub mod Loops
pub mod Safety
pub mod Broadcast
pub mod Follow
pub mod Messages
mod Examples
use backend_golang_task.Prelude.{
  ℕ, suc, ◌==◌, ltb, Bool, true, false, if◌then◌else◌, Option, some, none, List, [], ◌∷◌, ◌++◌,
  length,
}

-- A client's channel `send`.
pub record Channel (A : Type 0) : Type 0 where
  pub buffer : List A
  pub closed : Bool

-- `clients` is the map, `channels` the channels of all connections that have been made, `connected`
-- their number, and `done` whether `Run` has returned.
pub record Hub (A : Type 0) : Type 0 where
  pub clients : List ℕ
  pub channels : ℕ → Channel A
  pub connected : ℕ
  pub done : Bool

-- What the `select` of the loop receives. `ServeWS` makes a client of its own for each registration.
pub data Received (A : Type 0) : Type 0 where
  registers : Received A
  unregisters : ℕ → Received A
  broadcasts : A → Received A
  stops : Received A

-- A turn of `Run`, or of the `writePump` of a client, which takes a message from its channel.
pub data Turn (A : Type 0) : Type 0 where
  receives : Received A → Turn A
  writes : ℕ → Turn A

abbrev pub send_buffer : ℕ
send_buffer = 256

-- Whether the map holds a client, and `delete`.
abbrev pub has : ℕ → List ℕ → Bool
has c [] = false
has c (d ∷ ds) = let rest = has c ds in if d == c then true else rest

abbrev pub delete : ℕ → List ℕ → List ℕ
delete c [] = []
delete c (d ∷ ds) = let rest = delete c ds in if d == c then rest else d ∷ rest

module _ {A : Type 0} where
  abbrev pub new_channel : Channel A
  new_channel = record { buffer = []; closed = false }

  abbrev pub new_hub : Hub A
  new_hub = record { clients = []; channels = λ _. new_channel; connected = 0; done = false }

  abbrev pub set_channel : ℕ → Channel A → (ℕ → Channel A) → ℕ → Channel A
  set_channel c channel channels i = if i == c then channel else channels i

  -- `close(client.send)`; `none` is the panic of closing a closed channel.
  unfoldable pub close_send : ℕ → (ℕ → Channel A) → Option (ℕ → Channel A)
  close_send c channels =
      if (channels c).closed
      then none
      else some (set_channel c (record (channels c) { closed = true }) channels)

  abbrev pub pushed : A → Channel A → Channel A
  pushed msg channel = record channel { buffer = channel.buffer ++ msg ∷ [] }

  -- The loop over the clients, in one of the orders in which Go may range over the map: those that are
  -- left, and the channels. A send on a closed channel panics; a client whose buffer is full is dropped.
  unfoldable pub deliver : A → List ℕ → (ℕ → Channel A) → Option (List ℕ × (ℕ → Channel A))
  unfolding close_send
  deliver msg [] channels = some ([], channels)
  deliver msg (c ∷ cs) channels = elim (channels c).closed [
    | true ↦ none
    | false ↦ elim (ltb (length (channels c).buffer) send_buffer) [
      | true ↦ elim (deliver msg cs (set_channel c (pushed msg (channels c)) channels)) [
        | none ↦ none
        | some (kept, channels') ↦ some (c ∷ kept, channels')
      ]
      | false ↦ elim (close_send c channels) [
        | none ↦ none
        | some channels' ↦ deliver msg cs channels'
      ]
    ]
  ]

  -- What `Run` does once `done` is closed.
  unfoldable pub close_all : List ℕ → (ℕ → Channel A) → Option (ℕ → Channel A)
  unfolding close_send
  close_all [] channels = some channels
  close_all (c ∷ cs) channels = elim (close_send c channels) [
    | none ↦ none
    | some channels' ↦ close_all cs channels'
  ]

  abbrev pub unregistered : ℕ → Hub A → Bool → Option (Hub A)
  unregistered c h false = some h
  unregistered c h true = elim (close_send c h.channels) [
    | none ↦ none
    | some channels ↦ some (record h { clients = delete c h.clients; channels = channels })
  ]

  abbrev pub delivered : Hub A → Option (List ℕ × (ℕ → Channel A)) → Option (Hub A)
  delivered h none = none
  delivered h (some (clients, channels)) =
      some (record h { clients = clients; channels = channels })

  abbrev pub stopped : Hub A → Option (ℕ → Channel A) → Option (Hub A)
  stopped h none = none
  stopped h (some channels) = some (record h { clients = []; channels = channels; done = true })

  -- An iteration of `Run`; `none` is a panic. A hub that is done receives nothing.
  unfoldable pub receive : Received A → Hub A → Option (Hub A)
  unfolding deliver close_all
  receive r h = elim h.done [
    | true ↦ some h
    | false ↦ elim r [
      | registers ↦
          some (record h { clients = h.connected ∷ h.clients; connected = suc h.connected })
      | unregisters c ↦ unregistered c h (has c h.clients)
      | broadcasts msg ↦ delivered h (deliver msg h.clients h.channels)
      | stops ↦ stopped h (close_all h.clients h.channels)
    ]
  ]

  abbrev pub taken : List A → List A
  taken [] = []
  taken (_ ∷ msgs) = msgs

  abbrev pub write : ℕ → Hub A → Hub A
  write c h = record h {
    channels =
        set_channel c (record (h.channels c) { buffer = taken (h.channels c).buffer }) h.channels;
  }

  unfoldable pub turn : Turn A → Hub A → Option (Hub A)
  unfolding receive
  turn (receives r) h = receive r h
  turn (writes c) h = some (write c h)

  unfoldable pub run : List (Turn A) → Hub A → Option (Hub A)
  unfolding turn
  run [] h = some h
  run (t ∷ ts) h = elim (turn t h) [ none ↦ none | some h' ↦ run ts h' ]
