-- ===== src/Auth/Jwt/RoundTrip.antt =====
-- That `Verify` of internal/infrastructure/auth/jwt.go accepts what `Issue` has made.
use backend_golang_task.Prelude.{
  ℕ, ◌<◌, ◌^◌, String, ◌≡◌, refl, ap, ◌∙◌, false, Option, some, none, arith,
}
use backend_golang_task.Prelude.Int.{ℤ, ◌+ℤ◌}
use backend_golang_task.Prelude.Decimal.{decimal}
use backend_golang_task.Prelude.Parse.{parse_uint-decimal}
use backend_golang_task.Errs.{ok}
use backend_golang_task.Auth.Jwt.{
  string, claim, MapClaims, Jwt, IsJwt, JwtService, signed, key_of, parsed_claims, issued_claims,
  issue, verify,
}

module _ (j : Jwt) (laws : IsJwt j) (s : JwtService) where
  signed_ok : (r : Option String) {token : String} → signed r ≡ ok token → r ≡ some token
  signed_ok none e = cc
  signed_ok (some t) e = cc

  parsed-TokenClaims :
      (claims : MapClaims j.Date) (user_id : ℕ) (role : String)
      → user_id < 2 ^ 64
      → claim "sub" claims ≡ some (string (decimal user_id))
      → claim "role" claims ≡ some (string role)
      → parsed_claims (some claims) ≡ ok (record { user_id = user_id; role = role })
  parsed-TokenClaims claims user_id role lt sub is_role =
      grind (arith, parse_uint-decimal user_id lt)

  -- A token that was issued to an account is accepted by the same service until it expires, and names
  -- the id and the role of the account. An id has 64 bits.
  pub verify-issue :
      (user_id : ℕ) (role : String) (now later : ℤ) {token : String}
      → user_id < 2 ^ 64
      → issue j s user_id role now ≡ ok token
      → j.is_expired (j.numeric_date (now +ℤ s.ttl)) later ≡ false
      → verify j s token later ≡ ok (record { user_id = user_id; role = role })
  unfolding issue verify
  verify-issue user_id role now later lt issued valid =
      let (parsed, read, texts) =
        laws.parses (key_of s) s.secret s.issuer (issued_claims j s user_id role now)
          (j.numeric_date (now +ℤ s.ttl)) later (signed_ok _ issued) refl refl refl refl valid in
      ap parsed_claims read
      ∙ parsed-TokenClaims parsed user_id role lt (texts "sub" (decimal user_id) refl)
          (texts "role" role refl)
