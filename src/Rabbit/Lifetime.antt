-- ===== src/Rabbit/Lifetime.antt =====
-- The connections that internal/bootstrap/bootstrap.go keeps, and what it closes.
use backend_golang_task.Prelude.{
  String, ◌≡◌, refl, sym, ap, ◌∙◌, Bool, true, false, if◌then◌else◌, Option, some, none, [], ◌∷◌,
  arith,
}
use backend_golang_task.Errs.{Result, ok, err, panic}
use backend_golang_task.Action.{pure, ◌>>=◌}
use backend_golang_task.Rabbit.{
  consume, close_channel, close_connection, Amqp, Link, RabbitPublisher, RabbitConsumer, succeeded,
  ask, quietly, new_rabbit_publisher, rabbit_close, new_rabbit_consumer, consumer_start,
  consumer_stop, Messaging, consumer_started, consumer_made, publisher_made, start_messaging,
  consumer_stopped, publisher_closed, stop_messaging,
}
use backend_golang_task.Rabbit.Closing.{
  Open, shut, usable, after, open_at, open_at-ask, Ends, both, both-shut,
  new_rabbit_publisher-Leads, new_rabbit_consumer-Leads,
}

module _ (lib : Amqp) where
  -- What should be open for an object that is kept or not.
  abbrev expected : {A : Type 0} → Option A → Open
  expected none = shut
  expected (some _) = usable

  abbrev IsRunning : Option RabbitConsumer → Type 0
  IsRunning none = Unit
  IsRunning (some c) = c.done ≡ false

  pub record IsTidy (m : Messaging lib) : Type 0 where
    pub publisher_open : open_at lib m.publisher_link ≡ expected m.publisher
    pub consumer_open : open_at lib m.consumer_link ≡ expected m.consumer
    pub running : IsRunning m.consumer

  consumer-done :
      (url exchange : String) (l : Link lib) {c : RabbitConsumer} {l' : Link lib}
      → new_rabbit_consumer lib url exchange l ≡ (ok c, l')
      → c.done ≡ false
  unfolding new_rabbit_consumer
  consumer-done url exchange l e = ground (arith, e)

  consume-usable :
      (c : RabbitConsumer) (l : Link lib)
      → open_at lib l ≡ usable
      → open_at lib (consumer_start lib c l).1 ≡ usable
  unfolding consumer_start
  consume-usable c l e = go (ask lib (consume c.queue) l) (open_at-ask lib (consume c.queue) l)
    where
      go :
          (x : Result String × Link lib)
          → open_at lib x.1 ≡ after (open_at lib l) (consume c.queue) (succeeded x.0)
          → open_at lib (◌>>=◌ (λ (_ : Link lib). x) (λ _. pure tt) l).1 ≡ usable
      go (ok a, l') is = is ∙ e
      go (err x, l') is = is ∙ e

  stop-shut :
      (c : RabbitConsumer) (l : Link lib)
      → c.done ≡ false
      → open_at lib (consumer_stop lib (c, l)).1.1 ≡ shut
  unfolding consumer_stop
  stop-shut c l e = go c.done e
    where
      go :
          (b : Bool)
          → b ≡ false
          → open_at lib
              (if◌then◌else◌ {A = Result (Unit {0}) × (RabbitConsumer × Link lib)} b
                (err (panic "close of closed channel"), (c, l))
                (ok tt, (record c { done = true }, quietly lib both l))).1.1
            ≡ shut
      go true e = absurd (cc)
      go false e = both-shut lib l

  close-shut : (l : Link lib) → open_at lib (rabbit_close lib l).1 ≡ shut
  unfolding rabbit_close
  close-shut l =
      go (quietly lib (close_channel ∷ []) l)
        (ask lib close_connection (quietly lib (close_channel ∷ []) l))
        (open_at-ask lib close_connection (quietly lib (close_channel ∷ []) l))
    where
      go :
          (l₁ : Link lib) (x : Result String × Link lib)
          → open_at lib x.1 ≡ after (open_at lib l₁) close_connection (succeeded x.0)
          → open_at lib (◌>>=◌ (λ (_ : Link lib). x) (λ _. pure tt) l₁).1 ≡ shut
      go l₁ (ok a, l') is = is
      go l₁ (err x, l') is = is

  consumer_started-IsTidy :
      (c : RabbitConsumer) (m : Messaging lib) (x : Result (Unit {0}) × Link lib)
      → IsTidy m
      → m.consumer ≡ none
      → c.done ≡ false
      → open_at lib x.1 ≡ usable
      → IsTidy (consumer_started lib c m x)
  unfolding consumer_stop
  consumer_started-IsTidy c m (ok a, l) tidy no_consumer running is = record {
    publisher_open = tidy.publisher_open;
    consumer_open = is;
    running = running;
  }
  consumer_started-IsTidy c m (err e, l) tidy no_consumer running is = record {
    publisher_open = tidy.publisher_open;
    consumer_open = stop-shut c l running ∙ sym (ap expected no_consumer);
    running = tidy.running;
  }

  consumer_made-IsTidy :
      (m : Messaging lib) (x : Result RabbitConsumer × Link lib)
      → IsTidy m
      → m.consumer ≡ none
      → ((c : RabbitConsumer) (l : Link lib) → x ≡ (ok c, l) → c.done ≡ false)
      → Ends lib usable x
      → IsTidy (consumer_made lib m x)
  unfolding consumer_start consumer_stop
  consumer_made-IsTidy m (err e, l) tidy no_consumer running is = record {
    publisher_open = tidy.publisher_open;
    consumer_open = is ∙ sym (ap expected no_consumer);
    running = tidy.running;
  }
  consumer_made-IsTidy m (ok c, l) tidy no_consumer running is =
      consumer_started-IsTidy c m (consumer_start lib c l) tidy no_consumer (running c l refl)
        (consume-usable c l is)

  publisher_made-IsTidy :
      (url exchange : String) (m : Messaging lib) (x : Result RabbitPublisher × Link lib)
      → IsTidy m
      → m.publisher ≡ none
      → m.consumer ≡ none
      → Ends lib usable x
      → IsTidy (publisher_made lib url exchange m x)
  unfolding new_rabbit_consumer consumer_start consumer_stop
  publisher_made-IsTidy url exchange m (err e, l) tidy no_publisher no_consumer is = record {
    publisher_open = is ∙ sym (ap expected no_publisher);
    consumer_open = tidy.consumer_open;
    running = tidy.running;
  }
  publisher_made-IsTidy url exchange m (ok p, l) tidy no_publisher no_consumer is =
      consumer_made-IsTidy (record m { publisher = some p; publisher_link = l })
        (new_rabbit_consumer lib url exchange m.consumer_link)
        (record { publisher_open = is; consumer_open = tidy.consumer_open; running = tidy.running })
        no_consumer (λ c l' made. consumer-done url exchange m.consumer_link made)
        ((new_rabbit_consumer-Leads lib url exchange).ends m.consumer_link
          (tidy.consumer_open ∙ ap expected no_consumer))

  start_messaging-IsTidy :
      (enabled : Bool) (url exchange : String) (m : Messaging lib)
      → IsTidy m
      → m.publisher ≡ none
      → m.consumer ≡ none
      → IsTidy (start_messaging lib enabled url exchange m)
  unfolding start_messaging
  start_messaging-IsTidy true url exchange m tidy no_publisher no_consumer =
      publisher_made-IsTidy url exchange m (new_rabbit_publisher lib url exchange m.publisher_link)
        tidy no_publisher no_consumer
        ((new_rabbit_publisher-Leads lib url exchange).ends m.publisher_link
          (tidy.publisher_open ∙ ap expected no_publisher))
  start_messaging-IsTidy false url exchange m tidy no_publisher no_consumer = tidy

  publisher_closed-shut :
      (p : Option RabbitPublisher) (l : Link lib)
      → open_at lib l ≡ expected p
      → open_at lib (publisher_closed lib p l) ≡ shut
  unfolding rabbit_close
  publisher_closed-shut none l is = is
  publisher_closed-shut (some p) l is = close-shut l

  consumer_stopped-shut :
      (c : Option RabbitConsumer) (l : Link lib)
      → IsRunning c
      → open_at lib l ≡ expected c
      → open_at lib (consumer_stopped lib c l) ≡ shut
  unfolding consumer_stop
  consumer_stopped-shut none l running is = is
  consumer_stopped-shut (some c) l running is = stop-shut c l running

  -- Nothing made yet.
  abbrev pub no_messaging : Link lib → Link lib → Messaging lib
  no_messaging publisher_link consumer_link = record {
    publisher = none;
    consumer = none;
    publisher_link = publisher_link;
    consumer_link = consumer_link;
  }

  -- Whatever RabbitMQ answers, and whether it is enabled, after the start exactly the connections of the
  -- publisher and the consumer that are kept are open, each with its channel, and after the stop none is.
  pub messaging_closes :
      (enabled : Bool) (url exchange : String) (publisher_link consumer_link : Link lib)
      → open_at lib publisher_link ≡ shut
      → open_at lib consumer_link ≡ shut
      → let m =
          start_messaging lib enabled url exchange (no_messaging publisher_link consumer_link) in
        IsTidy m
        × (open_at lib (stop_messaging lib m).publisher_link ≡ shut)
        × (open_at lib (stop_messaging lib m).consumer_link ≡ shut)
  unfolding stop_messaging
  messaging_closes enabled url exchange publisher_link consumer_link shut₁ shut₂ =
      let tidy =
        start_messaging-IsTidy enabled url exchange (no_messaging publisher_link consumer_link)
          (record { publisher_open = shut₁; consumer_open = shut₂; running = tt }) refl refl in
      (
        tidy,
        publisher_closed-shut _ _ tidy.publisher_open,
        consumer_stopped-shut _ _ tidy.running tidy.consumer_open,
      )
