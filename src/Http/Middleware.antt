-- ===== src/Http/Middleware.antt =====
-- internal/interfaces/http/middleware/middleware.go. A middleware answers itself, or hands the request
-- on: the model of one is what it answers, or what the next handler gets.
pub mod Isolated
mod Examples
use Prim.Native.String.{len, slice}
use Prim.Native.Char.{code}
use backend_golang_task.Prelude.{
  ℕ, ◌+◌, String, Bool, true, false, not, ◌&&◌, ◌||◌, ◌==◌, leb, str_eq, is_empty, if◌then◌else◌,
  Option, some, none, List, [], ◌∷◌, map,
}
use backend_golang_task.Errs.{Result, ok, err, new, unauthorized}
use backend_golang_task.Ports.{TokenVerifier}
use backend_golang_task.Commands.RegisterUser.{codes, to_lower}
use backend_golang_task.Httpx.{Response, error_body, no_body}
use backend_golang_task.Http.{Caller}

-- `RequestID`, with the uuid that is drawn where the header is missing.
abbrev request_id : String → String → String
request_id header fresh = if is_empty header then fresh else header

-- `CORS`: a preflight is answered.
abbrev pub cors : String → Option Response
cors method =
    if str_eq method "OPTIONS" then some (record { status = 204; body = no_body }) else none

abbrev same_codes : List ℕ → List ℕ → Bool
same_codes [] [] = true
same_codes (c ∷ cs) (d ∷ ds) = c == d && same_codes cs ds
same_codes [] (d ∷ ds) = false
same_codes (c ∷ cs) [] = false

-- `strings.EqualFold` against `Bearer `: no character beyond ASCII folds to one of its letters.
abbrev pub is_bearer : String → Bool
is_bearer prefix = same_codes (map to_lower (codes prefix)) (codes "bearer ")

-- `unicode.IsSpace`
abbrev is_space : ℕ → Bool
is_space c =
    (leb 9 c && leb c 13)
    || c == 32
    || c == 0x85
    || c == 0xa0
    || c == 0x1680
    || (leb 0x2000 c && leb c 0x200a)
    || c == 0x2028
    || c == 0x2029
    || c == 0x202f
    || c == 0x205f
    || c == 0x3000

abbrev trim_left : String → String
trim_left String.[] = ""
trim_left (String.◌∷◌ c s) =
    let rest = trim_left s in if is_space (code c) then rest else String.◌∷◌ c s

abbrev trim_right : String → String
trim_right String.[] = ""
trim_right (String.◌∷◌ c s) =
    let rest = trim_right s in if is_space (code c) && is_empty rest then "" else String.◌∷◌ c rest

-- `strings.TrimSpace`
abbrev pub trim_space : String → String
trim_space s = trim_right (trim_left s)

-- `Auth`: the refusal, or the caller that is put into the context.
unfoldable pub auth : TokenVerifier → String → Result Caller
auth verifier header =
    if leb (len header) 7 || not (is_bearer (slice header 0 7))
    then err (new unauthorized "unauthorized" "missing or malformed authorization header")
    else elim (verifier.verify (trim_space (slice header 7 (len header)))) [
      | err e ↦ err (new unauthorized "unauthorized" "invalid or expired token")
      | ok claims ↦ ok (record { user_id = claims.user_id; role = claims.role })
    ]

-- A limiter of golang.org/x/time/rate: `NewLimiter` with the configured rate and burst, and `Allow`,
-- which reads the clock.
pub record Limiter : Type 1 where
  pub State : Type 0
  pub fresh : State
  pub allow : ℕ → State → Bool × State

module _ (l : Limiter) where
  open l use {State, fresh, allow}

  pub record RateEntry : Type 0 where
    pub limiter : State
    pub last_seen : ℕ

  -- What the closure of `RateLimit` holds.
  pub record Rates : Type 0 where
    pub entries : List (String × RateEntry)
    pub last_evict : ℕ

  abbrev pub evict : ℕ → ℕ → List (String × RateEntry) → List (String × RateEntry)
  evict ttl now [] = []
  evict ttl now ((key, e) ∷ entries) =
      let rest = evict ttl now entries in
      if leb (e.last_seen + ttl) now then rest else (key, e) ∷ rest

  abbrev evicted : ℕ → ℕ → Rates → Rates
  evicted ttl now r =
      if leb (r.last_evict + ttl) now
      then record { entries = evict ttl now r.entries; last_evict = now }
      else r

  abbrev pub limiter_of : String → List (String × RateEntry) → State
  limiter_of client [] = fresh
  limiter_of client ((key, e) ∷ entries) =
      let rest = limiter_of client entries in if str_eq key client then e.limiter else rest

  abbrev pub set_entry : String → RateEntry → List (String × RateEntry) → List (String × RateEntry)
  set_entry client new_entry [] = (client, new_entry) ∷ []
  set_entry client new_entry ((key, e) ∷ entries) =
      let rest = set_entry client new_entry entries in
      if str_eq key client then (key, new_entry) ∷ entries else (key, e) ∷ rest

  abbrev pub too_many : Response
  too_many = record { status = 429; body = error_body "rate_limited" "too many requests" }

  -- `RateLimit`: the refusal, or nothing and the next handler runs.
  unfoldable pub rate_limit : ℕ → ℕ → String → Rates → Option Response × Rates
  rate_limit ttl now client r =
      let kept = evicted ttl now r in
      let (allowed, limiter) = allow now (limiter_of client kept.entries) in
      let r' : Rates = record {
        entries = set_entry client (record { limiter = limiter; last_seen = now }) kept.entries;
        last_evict = kept.last_evict;
      } in
      (if allowed then none else some too_many, r')
