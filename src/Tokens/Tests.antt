-- ===== src/Tokens/Tests.antt =====
-- Tokens on concrete texts, with one signature for all payloads.
use orbi_pay_gateway_v.Prelude.{add}
use orbi_pay_gateway_v.Tokens.{split_last}
use orbi_pay_gateway_v.Tokens.{strip_prefix}
use orbi_pay_gateway_v.Tokens.Texts.{is_base64url}
use orbi_pay_gateway_v.Prelude.{
  ◌<◌, ◌≡◌, ◌≢◌, refl, false, ◌==◌, String, none, [], ◌∷◌, ok, includes, if◌then◌else◌, arith,
}
use orbi_pay_gateway_v.Prelude.Text.{trim}
use orbi_pay_gateway_v.Environments.{sandbox}
use orbi_pay_gateway_v.Tokens.{
  prefix, service_claims, issue_service_access_token, verify_service_access_token,
  revoke_service_access_token,
}
use orbi_pay_gateway_v.Tokens.Data.{ServiceClaims, ServiceInput, Decoded, not_json, read, Issued}
use orbi_pay_gateway_v.Tokens.Signatures.{
  assembled, verify_service_access_token-issue, verify_service_access_token_signed,
}
use orbi_pay_gateway_v.Tokens.Revocations.{here, revoke_service_access_token_final}

abbrev sealed : String → String
sealed payload = "sig"

abbrev input : ServiceInput
input = record {
  service_code = "duka";
  key_id = "key_a";
  fingerprint = "fingerprint";
  environment = sandbox;
  scopes = " payments:create " ∷ [];
  cnf_jkt = none;
  ttl_seconds = none;
}

abbrev claims_of : String → ServiceClaims
claims_of uuid = service_claims 300 1000 uuid input

abbrev written : ServiceClaims → String
written c = if c.jti == "sat_one" then "one" else "two"

abbrev reads : String → Decoded ServiceClaims
reads payload =
    if payload == "one"
    then read (claims_of "one")
    else if payload == "two"
    then read (claims_of "two")
    else not_json

verify_service_access_token-issue_example :
    (t : Issued ServiceClaims) × (issue_service_access_token "secret" sealed written reads 300 1000
        "one" input
      ≡ ok t)
    × (verify_service_access_token "secret" sealed written reads [] 1200 t.access_token
        ≡ ok (claims_of "one"))
unfolding is_base64url service_claims includes
verify_service_access_token-issue_example =
    verify_service_access_token-issue "secret" sealed written reads 300 1000 1200 "one" input []
      refl (λ p. refl) refl refl refl (omega arith) refl

verify_service_access_token_signed_example :
    (payload : String) × (trim " orbi_at_one.sig" ≡ assembled prefix payload (sealed payload))
    × (reads payload ≡ read (claims_of "one"))
    × (1200 < (claims_of "one").exp)
    × (includes (claims_of "one").jti [] ≡ false)
unfolding verify_service_access_token strip_prefix trim split_last service_claims includes
verify_service_access_token_signed_example =
    verify_service_access_token_signed "secret" sealed written reads [] 1200 " orbi_at_one.sig"
      {claims = claims_of "one"} refl

revoke_service_access_token_final_example : (claims_of "two").jti ≢ (claims_of "one").jti
unfolding revoke_service_access_token strip_prefix trim split_last service_claims includes add
revoke_service_access_token_final_example =
    revoke_service_access_token_final "secret" sealed written reads 1100 1200 "orbi_at_one.sig"
      "orbi_at_two.sig" [] {t = "sat_one" ∷ []} {u = "sat_one" ∷ []} {claims = claims_of "one"}
      {found = claims_of "two"} refl here refl
