-- ===== src/EventBus/Subscriptions.antt =====
-- Whom the table of handlers of internal/infrastructure/messaging/eventbus.go names.
use backend_golang_task.Prelude.{
  ◌≡◌, sym, ap, ◌∙◌, String, str_eq, eq_iff, List, [], ◌∷◌, ◌++◌, append-nil, append_assoc, select,
  arith,
}
use backend_golang_task.Prelude.Int.{ℤ}
use backend_golang_task.Shared.Event.{Event, event_name}
use backend_golang_task.EventBus.{
  Handler, Bus, new_bus, handlers_of, add_handler, subscribe, dispatched,
}

module _ {H : Type 0} where
  abbrev pub named : String → List (Handler H) → List (Handler H)
  named name hs = select (λ (h : Handler H). str_eq h.name name) hs

  handlers_of-add_handler :
      (name : String) (h : Handler H) (entries : List (String × List (Handler H)))
      → handlers_of name (add_handler h entries) ≡ handlers_of name entries ++ named name (h ∷ [])
  unfolding handlers_of add_handler
  handlers_of-add_handler name h [] = ground arith
  handlers_of-add_handler name h ((key, hs) ∷ entries) = grind (
    arith,
    append-nil,
    eq_iff key h.name,
    eq_iff key name,
    eq_iff h.name name,
    handlers_of-add_handler name h entries,
  )

  -- Subscriptions one after the other.
  abbrev pub subscribe_all : List (Handler H) → Bus H → Bus H
  subscribe_all [] b = b
  subscribe_all (h ∷ hs) b = subscribe_all hs (subscribe h b)

  named-append :
      (name : String) (h : Handler H) (hs : List (Handler H))
      → named name (h ∷ hs) ≡ named name (h ∷ []) ++ named name hs
  named-append name h hs = ground arith

  handlers_of-subscribe_all :
      (name : String) (hs : List (Handler H)) (b : Bus H)
      → handlers_of name (subscribe_all hs b).handlers
        ≡ handlers_of name b.handlers ++ named name hs
  unfolding subscribe
  handlers_of-subscribe_all name [] b = sym (append-nil _)
  handlers_of-subscribe_all name (h ∷ hs) b =
      handlers_of-subscribe_all name hs (subscribe h b)
      ∙ ap (λ (xs : List (Handler H)). xs ++ named name hs)
          (handlers_of-add_handler name h b.handlers)
      ∙ append_assoc (handlers_of name b.handlers) (named name (h ∷ [])) (named name hs)
      ∙ ap (λ (xs : List (Handler H)). handlers_of name b.handlers ++ xs)
          (sym (named-append name h hs))

  -- After any subscriptions on a new bus the table of handlers is worth the list of them: an event goes
  -- to the handlers that subscribed to its name, in the order in which they did, and then to those that
  -- subscribed to every event.
  pub dispatched-subscribe_all :
      (workers queue_size : ℤ) (hs : List (Handler H)) (e : Event)
      → dispatched e (subscribe_all hs (new_bus workers queue_size)).handlers
        ≡ named (event_name e) hs ++ named "*" hs
  unfolding dispatched new_bus handlers_of
  dispatched-subscribe_all workers queue_size hs e = grind (
    arith,
    handlers_of-subscribe_all (event_name e) hs (new_bus workers queue_size),
    handlers_of-subscribe_all "*" hs (new_bus workers queue_size),
  )
