-- ===== src/Auth/Jwt/Examples.antt =====
-- A library that signs one set of claims, and a token of it.
use backend_golang_task.Prelude.{
  str_eq, eq_iff, ◌≡◌, refl, sym, ap, ◌∙◌, Bool, true, false, ◌&&◌, if◌then◌else◌, some, none, [],
  ◌∷◌, arith,
}
use backend_golang_task.Prelude.Int.{pos}
use backend_golang_task.Prelude.Decimal.{decimal}
use backend_golang_task.Errs.{ok}
use backend_golang_task.Auth.Jwt.{
  Claim, string, date, other, claim, MapClaims, Jwt, IsJwt, JwtService, issue, verify,
}
use backend_golang_task.Auth.Jwt.RoundTrip.{verify-issue}

abbrev same_claim : Claim (Unit {0}) → Claim (Unit {0}) → Bool
same_claim (string v) (string u) = str_eq v u
same_claim (date _) (date _) = true
same_claim other other = true
same_claim _ _ = false

abbrev same_claims : MapClaims (Unit {0}) → MapClaims (Unit {0}) → Bool
same_claims [] [] = true
same_claims ((k, c) ∷ cs) ((l, d) ∷ ds) = str_eq k l && (same_claim c d && same_claims cs ds)
same_claims _ _ = false

same_claim_eq : (c d : Claim (Unit {0})) → same_claim c d ≡ true → c ≡ d
same_claim_eq (string v) (string u) e = grind (arith, eq_iff v u)
same_claim_eq (date u) (date v) e = refl
same_claim_eq other other e = refl
same_claim_eq (string v) (date u) e = cc
same_claim_eq (string v) other e = cc
same_claim_eq (date v) (string u) e = cc
same_claim_eq (date v) other e = cc
same_claim_eq other (string u) e = cc
same_claim_eq other (date u) e = cc

same_claims_eq : (cs ds : MapClaims (Unit {0})) → same_claims cs ds ≡ true → cs ≡ ds
same_claims_eq [] [] e = refl
same_claims_eq [] (d ∷ ds) e = cc
same_claims_eq (c ∷ cs) [] e = cc
same_claims_eq ((k, c) ∷ cs) ((l, d) ∷ ds) e =
    grind (arith, eq_iff k l, same_claim_eq c d, same_claims_eq cs ds)

abbrev sample : MapClaims (Unit {0})
sample =
    ("sub", string "7")
    ∷ ("role", string "admin")
    ∷ ("iss", string "orders")
    ∷ ("iat", date tt)
    ∷ ("exp", date tt)
    ∷ []

abbrev one_token : Jwt
one_token = record {
  Date = Unit {0};
  numeric_date = λ time. tt;
  is_expired = λ exp now. false;
  signed_string = λ claims secret. if same_claims claims sample then some "signed" else none;
  parse = λ key_of methods issuer now token. if str_eq token "signed" then some sample else none;
}

one_token-IsJwt : IsJwt one_token
one_token-IsJwt = record {
  parses = λ key_of secret issuer claims exp now {token} signed key iss expires at_once valid. (
    sample,
    grind (arith, eq_iff token "signed"),
    λ k v e. ap (claim k) (sym (same_claims_eq claims sample (grind (arith)))) ∙ e,
  );
}

abbrev service : JwtService
service = record { secret = "secret"; issuer = "orders"; ttl = pos 60 }

issued : issue one_token service 7 "admin" (pos 100) ≡ ok "signed"
unfolding issue decimal
issued = refl

verify-issue_example :
    verify one_token service "signed" (pos 130) ≡ ok (record { user_id = 7; role = "admin" })
verify-issue_example =
    verify-issue one_token one_token-IsJwt service 7 "admin" (pos 100) (pos 130) (omega arith)
      issued refl
