-- ===== src/EventBus/Delivery.antt =====
-- What becomes of the events that internal/infrastructure/messaging/eventbus.go publishes.
use backend_golang_task.Prelude.{
  ◌≡◌, refl, sym, ap, ◌∙◌, subst, String, false, Option, some, none, List, [], ◌∷◌, ◌++◌,
  append_assoc, Perm, perm_middle, perm_append_comm,
}
use mathlib.Core.List.Perm
use backend_golang_task.Prelude.Int.{ℤ}
use backend_golang_task.Shared.Event.{Event, event_name}
use backend_golang_task.EventBus.Subscriptions.{named, subscribe_all, dispatched-subscribe_all}
use backend_golang_task.Workers.{Workers, Sent, sent, full, on_closed, Move, works}
use backend_golang_task.Workers.Sound.{IsSound, Keeps, works-Keeps, Sends, offer-Sends}
use backend_golang_task.Workers.Frame.{Runs, works-Runs, Offered, offer-Offered}
use backend_golang_task.EventBus.{
  Handler, Job, Bus, Turn, dispatched, after, handed, hand_over, first_turn, other_turns,
  publish_to, publish, new_bus,
}

module _ {H : Type 0} where
  abbrev jobs_of : Event → List (Handler H) → List (Job H)
  jobs_of e [] = []
  jobs_of e (h ∷ hs) = record { handler = h; event = e } ∷ jobs_of e hs

  -- One job for each event and each handler that has subscribed to its name or to every event.
  abbrev pub due : List Event → List (Handler H) → List (Job H)
  due [] hs = []
  due (e ∷ es) hs = jobs_of e (named (event_name e) hs ++ named "*" hs) ++ due es hs

  -- The same by the table of handlers.
  abbrev listed : List Event → List (String × List (Handler H)) → List (Job H)
  listed [] handlers = []
  listed (e ∷ es) handlers = jobs_of e (dispatched e handlers) ++ listed es handlers

  listed-due :
      (workers queue_size : ℤ) (hs : List (Handler H)) (es : List Event)
      → listed es (subscribe_all hs (new_bus workers queue_size)).handlers ≡ due es hs
  listed-due workers queue_size hs [] = refl
  listed-due workers queue_size hs (e ∷ es) =
      rw (dispatched-subscribe_all workers queue_size hs e, listed-due workers queue_size hs es)

  -- The jobs that the queue has got or that a publisher has run itself.
  abbrev pub given : Bus H → List (Job H)
  given b = b.jobs.accepted ++ b.direct

  -- An open bus after the jobs `js` have been handed over.
  abbrev pub Gives : List (Job H) → Bus H → Bus H → Type 0
  Gives js b b' =
      (b'.jobs.closed ≡ false)
      × (b'.handlers ≡ b.handlers)
      × IsSound b'.jobs
      × Perm (given b') (js ++ given b)

  after-IsSound :
      (ms : List Move) (w : Workers (Job H))
      → w.closed ≡ false
      → IsSound w
      → ((after ms w).closed ≡ false) × ((after ms w).accepted ≡ w.accepted) × IsSound (after ms w)
  unfolding after works
  after-IsSound ms w opened sound = go (works ms w) (works-Keeps ms w sound) (works-Runs ms w)
    where
      go :
          (r : Option (Workers (Job H)))
          → Keeps r
          → Runs w r
          → let w' = elim r as (λ _. Workers (Job H)) [ none ↦ w | some w₁ ↦ w₁ ] in
            (w'.closed ≡ false) × (w'.accepted ≡ w.accepted) × IsSound w'
      go none k same = (opened, refl, sound)
      go (some w₁) k (c, a) = (c ∙ opened, a, k)

  handed-Gives :
      (j : Job H) (b : Bus H) (w : Workers (Job H)) (r : Sent (Job H))
      → w.closed ≡ false
      → w.accepted ≡ b.jobs.accepted
      → IsSound w
      → Sends r
      → Offered j w r
      → (b' : Bus H) × (handed j (record b { jobs = w }) r ≡ some b') × Gives (j ∷ []) b b'
  handed-Gives j b w (sent w') opened same sound sound' (c, a) = (
    record b { jobs = w' },
    refl,
    (
      c,
      refl,
      sound',
      subst (λ (xs : List (Job H)). Perm (xs ++ b.direct) (j ∷ given b))
          (sym (a ∙ ap (λ (xs : List (Job H)). xs ++ j ∷ []) same))
          (subst (λ (xs : List (Job H)). Perm xs (j ∷ given b))
            (sym (append_assoc b.jobs.accepted (j ∷ []) b.direct))
            (perm_middle b.jobs.accepted b.direct)),
    ),
  )
  handed-Gives j b w full opened same sound sound' o = (
    record b { jobs = w; direct = b.direct ++ j ∷ [] },
    refl,
    (
      opened,
      refl,
      sound,
      subst (λ (xs : List (Job H)). Perm (xs ++ (b.direct ++ j ∷ [])) (j ∷ given b)) (sym same)
          (subst (λ (xs : List (Job H)). Perm xs (j ∷ given b))
            (append_assoc b.jobs.accepted b.direct (j ∷ []))
            (perm_append_comm (b.jobs.accepted ++ b.direct) (j ∷ []))),
    ),
  )
  handed-Gives j b w on_closed opened same sound sound' o = absurd (o refl)

  hand_over-Gives :
      (t : Turn) (j : Job H) (b : Bus H)
      → b.jobs.closed ≡ false
      → IsSound b.jobs
      → (b' : Bus H) × (hand_over t j b ≡ some b') × Gives (j ∷ []) b b'
  unfolding hand_over
  hand_over-Gives t j b opened sound =
      let (o, a, s) = after-IsSound t.moves b.jobs opened sound in
      handed-Gives j b (after t.moves b.jobs) _ o a s (offer-Sends t.ready j _ s)
        (offer-Offered t.ready j _ o)

  then-Gives :
      (js ks : List (Job H)) (b b₁ b₂ : Bus H)
      → Gives js b b₁
      → Gives ks b₁ b₂
      → Gives (js ++ ks) b b₂
  then-Gives js ks b b₁ b₂ (c, h, s, p) (c', h', s', p') = (
    c',
    h' ∙ h,
    s',
    Perm.trans p' (
        Perm.trans (Perm.append_left ks p) (
          subst (λ (xs : List (Job H)). Perm xs ((js ++ ks) ++ given b))
            (append_assoc ks js (given b)) (Perm.append_right (given b) (perm_append_comm ks js)))),
  )

  publish_to-Gives :
      (e : Event) (hs : List (Handler H)) (ts : List Turn) (b : Bus H)
      → b.jobs.closed ≡ false
      → IsSound b.jobs
      → (ts' : List Turn) × (b' : Bus H) × (publish_to e hs ts b ≡ some (ts', b'))
        × Gives (jobs_of e hs) b b'
  unfolding publish_to
  publish_to-Gives e [] ts b opened sound = (ts, b, refl, (opened, refl, sound, Perm.rfl))
  publish_to-Gives e (h ∷ hs) ts b opened sound =
      let j : Job H = record { handler = h; event = e } in
      let (b₁, ran₁, gives₁) = hand_over-Gives (first_turn ts) j b opened sound in
      let (c₁, h₁, s₁, p₁) = gives₁ in
      let (ts', b', ran, gives) = publish_to-Gives e hs (other_turns ts) b₁ c₁ s₁ in
      (
        ts',
        b',
        ap
              (λ (r : Option (Bus H)). elim r [
                | none ↦ none
                | some b₂ ↦ publish_to e hs (other_turns ts) b₂
              ])
              ran₁
            ∙ ran,
        then-Gives (j ∷ []) (jobs_of e hs) b b₁ b' gives₁ gives,
      )

  publish-listed :
      (es : List Event) (ts : List Turn) (b : Bus H)
      → b.jobs.closed ≡ false
      → IsSound b.jobs
      → (ts' : List Turn) × (b' : Bus H) × (publish es ts b ≡ some (ts', b'))
        × Gives (listed es b.handlers) b b'
  unfolding publish
  publish-listed [] ts b opened sound = (ts, b, refl, (opened, refl, sound, Perm.rfl))
  publish-listed (e ∷ es) ts b opened sound =
      let (ts₁, b₁, ran₁, gives₁) =
        publish_to-Gives e (dispatched e b.handlers) ts b opened sound in
      let (c₁, h₁, s₁, p₁) = gives₁ in
      let (ts', b', ran, gives) = publish-listed es ts₁ b₁ c₁ s₁ in
      (
        ts',
        b',
        ap
              (λ (r : Option (List Turn × Bus H)). elim r [
                | none ↦ none
                | some (ts₂, b₂) ↦ publish es ts₂ b₂
              ])
              ran₁
            ∙ ran,
        then-Gives (jobs_of e (dispatched e b.handlers)) (listed es b.handlers) b b₁ b' gives₁ (
            subst (λ (hs : List (String × List (Handler H))). Gives (listed es hs) b₁ b') h₁ gives),
      )

  -- Publishing on an open bus, in whose table the given handlers have subscribed one after the other, does
  -- not panic and hands every event over to each of them that subscribed to its name or to every event,
  -- once: as a job of the queue or by running the handler itself, whatever the workers do in the
  -- meantime.
  pub publish-Gives :
      (workers queue_size : ℤ) (hs : List (Handler H)) (es : List Event) (ts : List Turn)
      (b : Bus H)
      → b.handlers ≡ (subscribe_all hs (new_bus workers queue_size)).handlers
      → b.jobs.closed ≡ false
      → IsSound b.jobs
      → (ts' : List Turn) × (b' : Bus H) × (publish es ts b ≡ some (ts', b'))
        × Gives (due es hs) b b'
  publish-Gives workers queue_size hs es ts b subscribed opened sound =
      let (ts', b', ran, gives) = publish-listed es ts b opened sound in
      (
        ts',
        b',
        ran,
        subst (λ (js : List (Job H)). Gives js b b')
            (ap (listed es) subscribed ∙ listed-due workers queue_size hs es) gives,
      )
