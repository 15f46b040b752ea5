-- ===== src/EventBus.antt =====
-- internal/infrastructure/messaging/eventbus.go: the in-process event bus. What a handler does is not
-- part of the bus; the workers' steps stand between the publisher's as the scheduler puts them there.
pub mod Delivery
pub mod Subscriptions
mod Examples
use backend_golang_task.Prelude.{
  ℕ, String, str_eq, Bool, true, false, if◌then◌else◌, Option, some, none, List, [], ◌∷◌, ◌++◌,
}
use backend_golang_task.Prelude.Int.{ℤ, pos}
use backend_golang_task.Shared.Event.{Event, event_name}
use backend_golang_task.Pool.{at_least}
use backend_golang_task.Workers.{
  Workers, Move, Sent, sent, full, on_closed, new_channel, launch, close, offer, works,
}

-- `ports.EventHandler`: `EventName` and what stands for the rest.
pub record Handler (H : Type 0) : Type 0 where
  pub name : String
  pub code : H

pub record Job (H : Type 0) : Type 0 where
  pub handler : Handler H
  pub event : Event

-- `started` and `ended` are what the two `sync.Once` remember. `direct` is no state of the program: the
-- jobs that publishers have run themselves.
pub record Bus (H : Type 0) : Type 0 where
  pub workers : ℕ
  pub handlers : List (String × List (Handler H))
  pub started : Bool
  pub ended : Bool
  pub jobs : Workers (Job H)
  pub direct : List (Job H)

-- What happens up to a send: the workers' steps, and whether one of them has come to its receive.
pub record Turn : Type 0 where
  pub moves : List Move
  pub ready : Bool

abbrev idle_turn : Turn
idle_turn = record { moves = []; ready = false }

abbrev pub first_turn : List Turn → Turn
first_turn [] = idle_turn
first_turn (t ∷ ts) = t

abbrev pub other_turns : List Turn → List Turn
other_turns [] = []
other_turns (t ∷ ts) = ts

module _ {H : Type 0} where
  unfoldable pub new_bus : ℤ → ℤ → Bus H
  new_bus workers queue_size = record {
    workers = at_least (pos 1) workers;
    handlers = [];
    started = false;
    ended = false;
    jobs = new_channel (at_least (pos 0) queue_size);
    direct = [];
  }

  -- `b.handlers[name]`, where a missing key has no handlers.
  unfoldable pub handlers_of : String → List (String × List (Handler H)) → List (Handler H)
  handlers_of name [] = []
  handlers_of name ((key, hs) ∷ entries) =
      let rest = handlers_of name entries in if str_eq key name then hs else rest

  -- `b.handlers[name] = append(b.handlers[name], handler)`
  unfoldable pub add_handler :
      Handler H → List (String × List (Handler H)) → List (String × List (Handler H))
  add_handler h [] = (h.name, h ∷ []) ∷ []
  add_handler h ((key, hs) ∷ entries) =
      let rest = add_handler h entries in
      if str_eq key h.name then (key, hs ++ h ∷ []) ∷ entries else (key, hs) ∷ rest

  unfoldable pub subscribe : Handler H → Bus H → Bus H
  unfolding add_handler
  subscribe h b = record b { handlers = add_handler h b.handlers }

  unfoldable pub start : Bus H → Bus H
  start b = if b.started then b else record b { started = true; jobs = launch b.workers b.jobs }

  -- The handlers of an event: those of its name, and those of every event.
  unfoldable pub dispatched : Event → List (String × List (Handler H)) → List (Handler H)
  unfolding handlers_of
  dispatched e handlers = handlers_of (event_name e) handlers ++ handlers_of "*" handlers

  abbrev pub after : List Move → Workers (Job H) → Workers (Job H)
  unfolding works
  after ms w = elim (works ms w) [ none ↦ w | some w' ↦ w' ]

  -- The `select`; `none` is the panic of a send on a closed channel.
  abbrev pub handed : Job H → Bus H → Sent (Job H) → Option (Bus H)
  handed j b (sent w) = some (record b { jobs = w })
  handed j b full = some (record b { direct = b.direct ++ j ∷ [] })
  handed j b on_closed = none

  unfoldable pub hand_over : Turn → Job H → Bus H → Option (Bus H)
  unfolding offer
  hand_over t j b =
      let w = after t.moves b.jobs in handed j (record b { jobs = w }) (offer t.ready j w)

  -- The loop over the handlers, with the turns that are left.
  unfoldable pub publish_to :
      Event → List (Handler H) → List Turn → Bus H → Option (List Turn × Bus H)
  unfolding hand_over
  publish_to e [] ts b = some (ts, b)
  publish_to e (h ∷ hs) ts b =
      elim (hand_over (first_turn ts) (record { handler = h; event = e }) b) [
        | none ↦ none
        | some b' ↦ publish_to e hs (other_turns ts) b'
      ]

  -- `Publish`
  unfoldable pub publish : List Event → List Turn → Bus H → Option (List Turn × Bus H)
  unfolding publish_to dispatched
  publish [] ts b = some (ts, b)
  publish (e ∷ es) ts b = elim (publish_to e (dispatched e b.handlers) ts b) [
    | none ↦ none
    | some (ts', b') ↦ publish es ts' b'
  ]

  -- `Stop` up to `wg.Wait`.
  unfoldable pub stop : Bus H → Bus H
  stop b = if b.ended then b else record b { ended = true; jobs = close b.jobs }
