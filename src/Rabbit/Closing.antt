-- ===== src/Rabbit/Closing.antt =====
-- What internal/infrastructure/messaging/rabbitmq.go opens and closes.
use backend_golang_task.Prelude.{
  String, ◌≡◌, refl, ap, ◌∙◌, subst, Bool, true, false, List, [], ◌∷◌, ◌++◌,
}
use backend_golang_task.Errs.{Result, ok, err}
use backend_golang_task.Action.{Action, pure, ◌>>=◌, ◌>>◌}
use backend_golang_task.Rabbit.{
  Call, dial, open_channel, exchange_declare, queue_declare, queue_bind, close_channel,
  close_connection, Amqp, Link, succeeded, ask, quietly, closing, or_close, new_rabbit_publisher,
  new_rabbit_consumer,
}

-- Whether the connection is open, and whether the channel is.
pub record Open : Type 0 where
  pub connection : Bool
  pub channel : Bool

abbrev pub after : Open → Call → Bool → Open
after o (dial _) true = record o { connection = true }
after o open_channel true = record o { channel = true }
after o close_channel _ = record o { channel = false }
after o close_connection _ = record { connection = false; channel = false }
after o _ _ = o

abbrev after_all : Open → List (Call × Bool) → Open
after_all o [] = o
after_all o ((c, done) ∷ cs) = after_all (after o c done) cs

abbrev pub shut : Open
shut = record { connection = false; channel = false }

abbrev pub usable : Open
usable = record { connection = true; channel = true }

after_all-append :
    (o : Open) (cs ds : List (Call × Bool)) → after_all o (cs ++ ds) ≡ after_all (after_all o cs) ds
after_all-append o [] ds = refl
after_all-append o ((c, done) ∷ cs) ds = after_all-append (after o c done) cs ds

abbrev pub connected : Open
connected = record { connection = true; channel = false }

-- The two closes of an error path.
abbrev pub both : List Call
both = close_channel ∷ close_connection ∷ []

module _ (lib : Amqp) where
  abbrev pub open_at : Link lib → Open
  open_at l = after_all shut l.calls

  pub open_at-ask :
      (c : Call) (l : Link lib)
      → open_at (ask lib c l).1 ≡ after (open_at l) c (succeeded (ask lib c l).0)
  unfolding ask
  open_at-ask c l = after_all-append shut l.calls _

  -- A step that fails leaves nothing open, and one that succeeds leaves open what `o` says.
  abbrev pub Ends : {A : Type 0} → Open → Result A × Link lib → Type 0
  Ends o (ok _, l) = open_at l ≡ o
  Ends o (err _, l) = open_at l ≡ shut

  -- Code that is run where `o` is open.
  pub record Leads {A : Type 0} (o o' : Open) (m : Action (Link lib) A) : Type 0 where
    pub ends : (l : Link lib) → open_at l ≡ o → Ends o' (m l)

  bind-Leads :
      {A B : Type 0} {o o' o'' : Open} {m : Action (Link lib) A} {f : A → Action (Link lib) B}
      → Leads o o' m
      → ((a : A) → Leads o' o'' (f a))
      → Leads o o'' (m >>= f)
  bind-Leads {A} {B} {o} {o'} {o''} {m} {f} first rest = record {
    ends = λ l e. go l (m l) (first.ends l e);
  }
    where
      go :
          (l : Link lib) (x : Result A × Link lib)
          → Ends o' x
          → Ends o'' (◌>>=◌ (λ (_ : Link lib). x) f l)
      go l (ok a, l') e = (rest a).ends l' e
      go l (err e', l') e = e

  pure-Leads : {A : Type 0} {o : Open} (a : A) → Leads o o (pure a)
  pure-Leads a = record { ends = λ l e. e }

  or_close-Leads :
      (cs : List Call) (c : Call) (o : Open)
      → ((l' : Link lib) → open_at l' ≡ after o c false → open_at (quietly lib cs l') ≡ shut)
      → Leads o (after o c true) (or_close lib cs c)
  unfolding ask
  or_close-Leads cs c o shuts = record { ends = λ l e. go l e (ask lib c l) (open_at-ask c l) }
    where
      go :
          (l : Link lib)
          → open_at l ≡ o
          → (x : Result String × Link lib) → open_at x.1 ≡ after (open_at l) c (succeeded x.0)
          → Ends (after o c true) (closing lib cs x)
      go l e (ok a, l') is = is ∙ ap (λ (p : Open). after p c true) e
      go l e (err x, l') is = shuts l' (is ∙ ap (λ (p : Open). after p c false) e)

  close_connection-shut : (l : Link lib) → open_at (quietly lib (close_connection ∷ []) l) ≡ shut
  unfolding ask
  close_connection-shut l = open_at-ask close_connection l

  pub both-shut : (l : Link lib) → open_at (quietly lib both l) ≡ shut
  unfolding ask
  both-shut l = open_at-ask close_connection (ask lib close_channel l).1

  dial-Leads : (url : String) → Leads shut connected (or_close lib [] (dial url))
  unfolding quietly
  dial-Leads url = or_close-Leads [] (dial url) shut (λ l e. e)

  open_channel-Leads : Leads connected usable (or_close lib (close_connection ∷ []) open_channel)
  open_channel-Leads =
      or_close-Leads (close_connection ∷ []) open_channel connected (λ l e. close_connection-shut l)

  both-Leads : (c : Call) → after usable c true ≡ usable → Leads usable usable (or_close lib both c)
  both-Leads c e =
      subst (λ (o : Open). Leads usable o (or_close lib both c)) e
        (or_close-Leads both c usable (λ l _. both-shut l))

  -- A step of which only the error counts.
  done-Leads :
      {A : Type 0} {o o' o'' : Open} {m : Action (Link lib) String} {k : Action (Link lib) A}
      → Leads o o' m
      → Leads o' o'' k
      → Leads o o'' ((m >>= λ _. pure tt) >> k)
  done-Leads first rest = bind-Leads (bind-Leads first (λ _. pure-Leads tt)) (λ _. rest)

  pub new_rabbit_publisher-Leads :
      (url exchange : String) → Leads shut usable (new_rabbit_publisher lib url exchange)
  unfolding new_rabbit_publisher
  new_rabbit_publisher-Leads url exchange = done-Leads (dial-Leads url) (
      done-Leads open_channel-Leads (
        done-Leads (both-Leads (exchange_declare exchange) refl)
          (pure-Leads (record { exchange = exchange }))))

  pub new_rabbit_consumer-Leads :
      (url exchange : String) → Leads shut usable (new_rabbit_consumer lib url exchange)
  unfolding new_rabbit_consumer
  new_rabbit_consumer-Leads url exchange = done-Leads (dial-Leads url) (
      done-Leads open_channel-Leads (
        done-Leads (both-Leads (exchange_declare exchange) refl) (
          bind-Leads (both-Leads queue_declare refl) λ queue.
            done-Leads (both-Leads (queue_bind queue exchange) refl)
              (pure-Leads (record { exchange = exchange; queue = queue; done = false })))))
