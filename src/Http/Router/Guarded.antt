-- ===== src/Http/Router/Guarded.antt =====
-- Who gets past the guards of internal/interfaces/http/router/router.go.
use Prim.Native.String.{len, slice}
use backend_golang_task.Prelude.{
  ◌≡◌, ◌≢◌, ◌<◌, ◌⊎◌, inl, inr, refl, sym, ap, ◌∙◌, String, str_eq, eq_iff, Bool, true, false, not,
  ◌||◌, leb, if◌then◌else◌, some, none, arith,
}
use backend_golang_task.Errs.{Result, ok, err, Failure, new, unauthorized, forbidden}
use backend_golang_task.Ports.{TokenVerifier, TokenClaims}
use backend_golang_task.Httpx.{Response, error_response}
use backend_golang_task.Http.{Caller, require_admin}
use backend_golang_task.Http.Middleware.{auth, is_bearer, trim_space}
use backend_golang_task.Http.Router.{
  AuthedRoute, AdminRoute, Route, open_route, authed_route, admin_route, Dependencies, Store,
  serve_open, serve_authed, serve_admin, behind_auth, behind_admin, serve,
}

abbrev caller_of : TokenClaims → Caller
caller_of claims = record { user_id = claims.user_id; role = claims.role }

-- The header has the scheme `Bearer`, a space and the token, and more than that before the spaces around
-- the token are cut off.
abbrev pub HasToken : String → String → Type 0
HasToken header token =
    (7 < len header)
    × (is_bearer (slice header 0 7) ≡ true)
    × (token ≡ trim_space (slice header 7 (len header)))

-- The header's token, which verifies with these claims.
abbrev pub Bears : TokenVerifier → String → TokenClaims → Type 0
Bears v header claims = (token : String) × HasToken header token × (v.verify token ≡ ok claims)

-- What `Auth` lets through is what the header's token says, which verifies; it refuses the rest with 401.
abbrev Verifies : TokenVerifier → String → Result Caller → Type 0
Verifies v header (ok c) = (claims : TokenClaims) × Bears v header claims × (c ≡ caller_of claims)
Verifies v header (err e) =
    ((error_response e).status ≡ 401) × ¬ ((claims : TokenClaims) × Bears v header claims)

unverified : (f : Failure) (claims : TokenClaims) → ¬ (err f ≡ ok claims)
unverified f claims e = cc

auth-Verifies : (v : TokenVerifier) (header : String) → Verifies v header (auth v header)
unfolding auth error_response
auth-Verifies v header =
    go (leb (len header) 7 || not (is_bearer (slice header 0 7))) refl
      (trim_space (slice header 7 (len header))) refl _ refl
  where
    go :
        (malformed : Bool)
        → (leb (len header) 7 || not (is_bearer (slice header 0 7))) ≡ malformed
        → (token : String) → token ≡ trim_space (slice header 7 (len header))
        → (x : Result TokenClaims) → v.verify token ≡ x
        → Verifies v header (
            if malformed
            then err (new unauthorized "unauthorized" "missing or malformed authorization header")
            else elim x [
              | err e ↦ err (new unauthorized "unauthorized" "invalid or expired token")
              | ok claims ↦ ok (caller_of claims)
            ])
    go true well token is x e =
        (refl, λ (_, (_, (long, bearer, _), _)). ground (arith, well, long, bearer))
    go false well token is (err f) e = (
      refl,
      λ (claims, (held, (_, _, at), verified)).
          unverified f claims (sym e ∙ ap v.verify (is ∙ sym at) ∙ verified),
    )
    go false well token is (ok claims) e =
        (claims, (token, (ground (arith, well), ground (arith, well), is), e), refl)

module _ (deps : Dependencies) where
  -- A request to a guarded route is served for the caller that a verified token names, an administrator
  -- where the route wants one, or refused.
  abbrev pub Guards : String → Route → Store deps → Response × Store deps → Type 0
  Guards header (open_route r) s x = x ≡ serve_open deps r s
  Guards header (authed_route r) s x =
      ((claims : TokenClaims) × Bears deps.verifier header claims
        × (x ≡ serve_authed deps (caller_of claims) r s))
      ⊎ ((x.0.status ≡ 401)
          × ¬ ((claims : TokenClaims) × Bears deps.verifier header claims)
          × (x.1 ≡ s))
  Guards header (admin_route r) s x =
      ((claims : TokenClaims) × Bears deps.verifier header claims
        × (claims.role ≡ "admin")
        × (x ≡ serve_admin deps r s))
      ⊎ ((((x.0.status ≡ 401) × ¬ ((claims : TokenClaims) × Bears deps.verifier header claims))
            ⊎ ((x.0.status ≡ 403)
                × (claims : TokenClaims) × Bears deps.verifier header claims
                × (claims.role ≢ "admin")))
          × (x.1 ≡ s))

  authed-Guards :
      (header : String) (r : AuthedRoute) (s : Store deps) (x : Result Caller)
      → Verifies deps.verifier header x
      → Guards header (authed_route r) s (behind_auth deps x (λ c. serve_authed deps c r) s)
  authed-Guards header r s (ok c) (claims, bears, is) =
      inl (claims, bears, ap (λ (c : Caller). serve_authed deps c r s) is)
  authed-Guards header r s (err e) (refused, unknown) = inr (refused, unknown, refl)

  admin-Guards :
      (header : String) (r : AdminRoute) (s : Store deps) (x : Result Caller)
      → Verifies deps.verifier header x
      → Guards header (admin_route r) s (
          behind_auth deps x
            (λ c. behind_admin deps (require_admin (some c)) (serve_admin deps r))
            s)
  unfolding require_admin error_response
  admin-Guards header r s (err e) refused = inr (inl refused, refl)
  admin-Guards header r s (ok c) (claims, bears, is) = go (str_eq c.role "admin") refl
    where
      go :
          (b : Bool)
          → str_eq c.role "admin" ≡ b
          → Guards header (admin_route r) s (
              behind_admin deps
                (if b
                  then none
                  else some (error_response (new forbidden "forbidden" "admin role required")))
                (serve_admin deps r)
                s)
      go true e = inl (claims, bears, grind (arith, is, eq_iff c.role "admin"), refl)
      go false e = inr (
        inr (refl, claims, bears, λ admin. grind (arith, e, admin, is, eq_iff c.role "admin")),
        refl,
      )

  -- A request to a route for accounts is served, for the caller that the token in its header names, if
  -- that token verifies, and one to a route for administrators if that caller is one. Otherwise nothing
  -- changes: without a token that verifies the answer is 401, and for a caller who is no administrator it
  -- is 403.
  pub serve-Guards :
      (header : String) (r : Route) (s : Store deps) → Guards header r s (serve deps header r s)
  unfolding serve
  serve-Guards header (open_route r) s = refl
  serve-Guards header (authed_route r) s =
      authed-Guards header r s _ (auth-Verifies deps.verifier header)
  serve-Guards header (admin_route r) s =
      admin-Guards header r s _ (auth-Verifies deps.verifier header)
