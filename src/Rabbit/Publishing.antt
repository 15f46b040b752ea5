-- ===== src/Rabbit/Publishing.antt =====
-- What `Publish` of internal/infrastructure/messaging/rabbitmq.go sends, by itself and after the
-- in-process bus.
use backend_golang_task.Prelude.{
  String, ◌≡◌, refl, sym, ap, ◌∙◌, Bool, true, false, Option, some, none, List, [], ◌∷◌, ◌++◌, map,
  append_assoc, append-nil,
}
use backend_golang_task.Errs.{Result, ok, err}
use backend_golang_task.Action.{◌>>=◌}
use backend_golang_task.Shared.Event.{Event}
use backend_golang_task.EventBus.{Turn, Bus, publish}
use backend_golang_task.Rabbit.{
  Call, Amqp, Link, RabbitPublisher, succeeded, ask, message, rabbit_publish, CompositeBus,
  also_published, composite_publish,
}

-- The sends of events, all of which succeeded.
abbrev pub sends : String → List Event → List (Call × Bool)
sends exchange es = map (λ e. (message exchange e, true)) es

module _ (lib : Amqp) where
  -- How sending the events `es` ends after the calls `before`: all are sent in their order, or the ones
  -- before one whose send failed, and nothing after it.
  abbrev Published :
      String → List Event → List (Call × Bool) → Result (Unit {0}) × Link lib → Type 0
  Published exchange es before (ok _, l') = l'.calls ≡ before ++ sends exchange es
  Published exchange es before (err _, l') =
      (sent : List Event) × (failed : Event) × (left : List Event) × (es ≡ sent ++ failed ∷ left)
      × (l'.calls ≡ before ++ (sends exchange sent ++ (message exchange failed, false) ∷ []))

  rabbit_publish-Published :
      (p : RabbitPublisher) (es : List Event) (l : Link lib)
      → Published p.exchange es l.calls (rabbit_publish lib p es l)
  unfolding rabbit_publish
  rabbit_publish-Published p [] l = sym (append-nil l.calls)
  rabbit_publish-Published p (e ∷ es) l =
      go (ask lib (message p.exchange e) l) refl (rabbit_publish-Published p es)
    where
      later :
          (l₁ : Link lib) (x : Result (Unit {0}) × Link lib)
          → l₁.calls ≡ l.calls ++ (message p.exchange e, true) ∷ []
          → Published p.exchange es l₁.calls x
          → Published p.exchange (e ∷ es) l.calls x
      later l₁ (ok a, l') one rest =
          rest
          ∙ ap (λ cs. cs ++ sends p.exchange es) one
          ∙ append_assoc l.calls ((message p.exchange e, true) ∷ []) (sends p.exchange es)
      later l₁ (err x, l') one (sent, failed, left, is, calls) = (
        e ∷ sent,
        failed,
        left,
        ap (λ es. e ∷ es) is,
        calls
            ∙ ap (λ cs. cs ++ (sends p.exchange sent ++ (message p.exchange failed, false) ∷ []))
                one
            ∙ append_assoc l.calls ((message p.exchange e, true) ∷ []) _,
      )

      go :
          (x : Result String × Link lib)
          → x.1.calls ≡ l.calls ++ (message p.exchange e, succeeded x.0) ∷ []
          → ((l₁ : Link lib) → Published p.exchange es l₁.calls (rabbit_publish lib p es l₁))
          → Published p.exchange
              (e ∷ es)
              l.calls
              (◌>>=◌ (λ (_ : Link lib). x) (λ _. rabbit_publish lib p es) l)
      go (ok a, l₁) one rest = later l₁ (rabbit_publish lib p es l₁) one (rest l₁)
      go (err x, l₁) one rest = ([], e, es, refl, one)

  module _ (H : Type 0) where
    -- How `Publish` of the composite bus `c` ends: it panics where the in-process bus does; otherwise that
    -- has done what it does alone, and the events were sent to RabbitMQ up to the first send that failed.
    abbrev pub PublishesBoth :
        List Event
        → List Turn
        → CompositeBus lib H
        → Option (List Turn × CompositeBus lib H)
        → Type 0
    PublishesBoth es ts c none = publish es ts c.primary ≡ none
    PublishesBoth es ts c (some (ts', c')) =
        (publish es ts c.primary ≡ some (ts', c'.primary))
        × ((answer : Result (Unit {0})) × Published c.also_publish.exchange es c.link.calls
              (answer, c'.link))

    -- Whatever RabbitMQ answers, publishing on the composite bus hands the events over to the handlers as
    -- the in-process bus alone does, and panics only where that does; then the events are sent to the
    -- exchange in their order, all of them or those up to the first send that failed.
    pub composite_publish-PublishesBoth :
        (es : List Event) (ts : List Turn) (c : CompositeBus lib H)
        → PublishesBoth es ts c (composite_publish lib H es ts c)
    unfolding composite_publish also_published
    composite_publish-PublishesBoth es ts c = go (publish es ts c.primary) refl
      where
        go :
            (x : Option (List Turn × Bus H))
            → publish es ts c.primary ≡ x
            → PublishesBoth es ts c (also_published lib H es c x)
        go none e = e
        go (some (ts', b)) e = (
          e,
          (
            (rabbit_publish lib c.also_publish es c.link).0,
            rabbit_publish-Published c.also_publish es c.link,
          ),
        )
