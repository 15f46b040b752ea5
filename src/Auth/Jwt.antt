-- ===== src/Auth/Jwt.antt =====
-- internal/infrastructure/auth/jwt.go: the tokens, on top of github.com/golang-jwt/jwt/v5.
mod RoundTrip
mod Examples
use backend_golang_task.Prelude.{
  ℕ, String, str_eq, Bool, true, false, if◌then◌else◌, ◌≡◌, Option, some, none, List, [], ◌∷◌,
}
use backend_golang_task.Prelude.Int.{ℤ, ◌+ℤ◌}
use backend_golang_task.Prelude.Decimal.{decimal}
use backend_golang_task.Prelude.Parse.{parse_uint}
use backend_golang_task.Errs.{Result, ok, err, Failure, new, internal, unauthorized}
use backend_golang_task.Ports.{TokenClaims, TokenIssuer, TokenVerifier}

-- The value of a claim: a text, a date, or another JSON value.
pub data Claim (Date : Type 0) : Type 0 where
  string : String → Claim Date
  date : Date → Claim Date
  other : Claim Date

-- `jwt.MapClaims`, and the claim of a name in it.
abbrev pub MapClaims : Type 0 → Type 0
MapClaims Date = List (String × Claim Date)

abbrev pub claim : {Date : Type 0} → String → MapClaims Date → Option (Claim Date)
claim k [] = none
claim k ((l, c) ∷ cs) = let rest = claim k cs in if str_eq l k then some c else rest

-- The library. `signed_string` signs by HS256; `none` is an error. `parse` gets the function for the
-- key, which is told whether the method is an HMAC, the methods that are valid, the issuer and the time.
-- Its answer is the claims of a token that is valid.
pub record Jwt : Type 1 where
  pub Date : Type 0
  pub numeric_date : ℤ → Date
  pub is_expired : Date → ℤ → Bool
  pub signed_string : MapClaims Date → String → Option String
  pub parse : (Bool → Result String) → List String → String → ℤ → String → Option (MapClaims Date)

-- What its documentation says: a signed token is valid under the key that signed it, for its issuer and
-- until it expires, and its texts are read back.
pub record IsJwt (j : Jwt) : Type 0 where
  pub parses :
      (key_of : Bool → Result String) (secret issuer : String) (claims : MapClaims j.Date)
      (exp : j.Date) (now : ℤ) {token : String}
      → j.signed_string claims secret ≡ some token
      → key_of true ≡ ok secret
      → claim "iss" claims ≡ some (string issuer)
      → claim "exp" claims ≡ some (date exp)
      → claim "nbf" claims ≡ none
      → j.is_expired exp now ≡ false
      → (parsed : MapClaims j.Date) × (j.parse key_of ("HS256" ∷ []) issuer now token ≡ some parsed)
        × ((k v : String) → claim k claims ≡ some (string v) → claim k parsed ≡ some (string v))

pub record JwtService : Type 0 where
  pub secret : String
  pub issuer : String
  pub ttl : ℤ

abbrev pub signed : Option String → Result String
signed none = err (new internal "token_sign_failed" "failed to sign token")
signed (some token) = ok token

abbrev pub invalid_token : String → Failure
invalid_token message = new unauthorized "invalid_token" message

-- The function for the key that `Verify` passes.
abbrev pub key_of : JwtService → Bool → Result String
key_of s true = ok s.secret
key_of s false = err (invalid_token "invalid token")

-- `claims[k].(string)`
abbrev as_string : {Date : Type 0} → Option (Claim Date) → Option String
as_string (some (string v)) = some v
as_string _ = none

-- The zero value of a failed assertion.
abbrev or_empty : Option String → String
or_empty none = ""
or_empty (some v) = v

abbrev pub with_id : String → Option ℕ → Result TokenClaims
with_id role none = err (invalid_token "invalid token subject")
with_id role (some id) = ok (record { user_id = id; role = role })

abbrev with_subject : String → Option String → Result TokenClaims
with_subject role none = err (invalid_token "invalid token subject")
with_subject role (some subject) = with_id role (parse_uint subject)

abbrev pub parsed_claims : {Date : Type 0} → Option (MapClaims Date) → Result TokenClaims
parsed_claims none = err (invalid_token "invalid or expired token")
parsed_claims (some claims) =
    with_subject (or_empty (as_string (claim "role" claims))) (as_string (claim "sub" claims))

module _ (j : Jwt) (s : JwtService) where
  abbrev pub issued_claims : ℕ → String → ℤ → MapClaims j.Date
  issued_claims user_id role now =
      ("sub", string (decimal user_id))
      ∷ ("role", string role)
      ∷ ("iss", string s.issuer)
      ∷ ("iat", date (j.numeric_date now))
      ∷ ("exp", date (j.numeric_date (now +ℤ s.ttl)))
      ∷ []

  -- `Issue`; the last argument is the time.
  unfoldable pub issue : ℕ → String → ℤ → Result String
  issue user_id role now = signed (j.signed_string (issued_claims user_id role now) s.secret)

  unfoldable pub verify : String → ℤ → Result TokenClaims
  verify token now = parsed_claims (j.parse (key_of s) ("HS256" ∷ []) s.issuer now token)

  -- The service as the interfaces of the use cases, at a time.
  abbrev issuer_at : ℤ → TokenIssuer
  issuer_at now = record { issue = λ user_id role. issue user_id role now }

  abbrev verifier_at : ℤ → TokenVerifier
  verifier_at now = record { verify = λ token. verify token now }
