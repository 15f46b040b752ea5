-- ===== src/Http/Middleware/Isolated.antt =====
-- That the clients of `RateLimit` in internal/interfaces/http/middleware/middleware.go do not share their
-- limits.
use backend_golang_task.Prelude.{
  ℕ, ◌+◌, ◌<◌, ◌≡◌, ◌≢◌, sym, ap, ◌∙◌, leb, str_eq, eq_iff, String, Bool, true, false,
  if◌then◌else◌, Option, some, none, List, [], ◌∷◌, All, arith,
}
use backend_golang_task.Http.Middleware.{
  Limiter, RateEntry, Rates, evict, evicted, limiter_of, set_entry, too_many, rate_limit,
}

module _ (l : Limiter) where
  -- The entry of a client.
  abbrev pub entry_of : String → List (String × RateEntry l) → Option (RateEntry l)
  entry_of client [] = none
  entry_of client ((key, e) ∷ entries) =
      let rest = entry_of client entries in if str_eq key client then some e else rest

  entry_of-evict :
      (ttl now : ℕ) (client : String) (entries : List (String × RateEntry l)) (e : RateEntry l)
      → entry_of client entries ≡ some e
      → now < e.last_seen + ttl
      → entry_of client (evict l ttl now entries) ≡ some e
  entry_of-evict ttl now client [] e is fresh = cc
  entry_of-evict ttl now client ((key, d) ∷ entries) e is fresh =
      ground (arith, eq_iff key client, entry_of-evict ttl now client entries e)

  entry_of-set_entry :
      (other client : String) (d : RateEntry l) (entries : List (String × RateEntry l))
      → other ≢ client
      → entry_of client (set_entry l other d entries) ≡ entry_of client entries
  entry_of-set_entry other client d [] ne = ground (arith, eq_iff other client)
  entry_of-set_entry other client d ((key, e) ∷ entries) ne = ground (
    arith,
    eq_iff key client,
    eq_iff key other,
    eq_iff other client,
    entry_of-set_entry other client d entries ne,
  )

  limiter_of-entry_of :
      (client : String) (entries : List (String × RateEntry l)) (e : RateEntry l)
      → entry_of client entries ≡ some e
      → limiter_of l client entries ≡ e.limiter
  limiter_of-entry_of client [] e is = cc
  limiter_of-entry_of client ((key, d) ∷ entries) e is =
      ground (arith, eq_iff key client, limiter_of-entry_of client entries e)

  entry_of-evicted :
      (ttl now : ℕ) (client : String) (r : Rates l) (e : RateEntry l)
      → entry_of client r.entries ≡ some e
      → now < e.last_seen + ttl
      → entry_of client (evicted l ttl now r).entries ≡ some e
  entry_of-evicted ttl now client r e is fresh = go (leb (r.last_evict + ttl) now)
    where
      go :
          (b : Bool)
          → entry_of client
              (if b
                then record { entries = evict l ttl now r.entries; last_evict = now }
                else r).entries
            ≡ some e
      go true = entry_of-evict ttl now client r.entries e is fresh
      go false = is

  -- The requests of clients, each with its time.
  unfoldable pub asked : ℕ → List (ℕ × String) → Rates l → Rates l
  asked ttl [] r = r
  asked ttl ((now, client) ∷ rs) r = asked ttl rs (rate_limit l ttl now client r).1

  asked-entry_of :
      (ttl : ℕ) (client : String) (rs : List (ℕ × String)) (r : Rates l) (e : RateEntry l)
      → entry_of client r.entries ≡ some e
      → All (λ (now, other). (now < e.last_seen + ttl) × (other ≢ client)) rs
      → entry_of client (asked ttl rs r).entries ≡ some e
  unfolding asked rate_limit
  asked-entry_of ttl client [] r e is others = is
  asked-entry_of ttl client ((now, other) ∷ rs) r e is ((fresh, ne), others) =
      asked-entry_of ttl client rs _ e
        (entry_of-set_entry other client _ (evicted l ttl now r).entries ne
          ∙ entry_of-evicted ttl now client r e is fresh)
        others

  -- Whatever other clients have asked since a client was seen, as long as less than the time to live has
  -- passed, its next request is answered as if they had not.
  pub rate_limit-asked :
      (ttl now : ℕ) (client : String) (rs : List (ℕ × String)) (r : Rates l) (e : RateEntry l)
      → entry_of client r.entries ≡ some e
      → now < e.last_seen + ttl
      → All (λ (at, other). (at < e.last_seen + ttl) × (other ≢ client)) rs
      → (rate_limit l ttl now client (asked ttl rs r)).0 ≡ (rate_limit l ttl now client r).0
  unfolding rate_limit
  rate_limit-asked ttl now client rs r e is fresh others =
      ap (λ s. if (l.allow now s).0 then none else some (too_many l))
        (limiter_of-entry_of client _ e (
            entry_of-evicted ttl now client (asked ttl rs r) e
              (asked-entry_of ttl client rs r e is others) fresh)
          ∙ sym (limiter_of-entry_of client _ e (entry_of-evicted ttl now client r e is fresh)))
