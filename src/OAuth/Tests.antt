-- ===== src/OAuth/Tests.antt =====
-- Authorizations on concrete tables, with texts that are their own hashes and open secrets.
use orbi_pay_gateway_v.Prelude.{
  ℕ, ◌≡◌, ◌<◌, refl, String, Option, none, some, [], ◌∷◌, ◌↔◌, inl, ok, err, In, find,
}
use orbi_pay_gateway_v.Environments.{sandbox}
use orbi_pay_gateway_v.Sql.{update_where}
use orbi_pay_gateway_v.OAuth.Data.{
  Vault, AuthorizationRow, AuthorizationRecord, CodeRow, Status, pending_identity, pending_consent,
  approved, deny, code_invalid,
}
use orbi_pay_gateway_v.OAuth.{
  check_code, consume_code, code_of, complete_identity, decide, awaits_identity, is_open,
}
use orbi_pay_gateway_v.OAuth.Codes as Codes
use orbi_pay_gateway_v.OAuth.Codes.{consume_once, consume_succeeds_iff}
use orbi_pay_gateway_v.OAuth.Transitions as Transitions
use orbi_pay_gateway_v.OAuth.Transitions.{
  Moves, updates-Moves, decision_final, Reach-IsIdentified, IsIdentified,
}

abbrev plain : String → String
plain s = s

abbrev open_vault : Vault
open_vault = record {
  Sealed = String;
  encrypt = plain;
  decrypt = plain;
  decrypt-encrypt = λ s. refl;
}

abbrev code_row : Option ℕ → CodeRow
code_row consumed_at = record {
  code_hash = "orbi_ac_a";
  service_code = "shop";
  environment = sandbox;
  redirect_uri = "https://shop.example";
  scopes = "balance:read" ∷ [];
  subject_id = "asha";
  consent_id = "consent_1";
  code_challenge = "verifier";
  expires_at = 61000;
  consumed_at = consumed_at;
}

consume_succeeds_iff_example :
    ((consume_code plain plain 2000 "orbi_ac_a" "shop" "https://shop.example" "verifier"
        (code_row none ∷ [])).1
      ≡ ok (code_of (code_row none)))
    ↔ (((code_row none).consumed_at ≡ none)
        × (2000 < (code_row none).expires_at)
        × ((code_row none).service_code ≡ "shop")
        × ((code_row none).redirect_uri ≡ "https://shop.example")
        × ((code_row none).code_challenge ≡ plain "verifier"))
unfolding find
consume_succeeds_iff_example =
    consume_succeeds_iff plain plain 2000 "orbi_ac_a" "shop" "https://shop.example" "verifier"
      (code_row none ∷ []) (code_row none) refl

consume_once_example :
    consume_code plain plain 3000 "orbi_ac_a" "shop" "https://shop.example" "verifier"
      (code_row (some 2000) ∷ [])
    ≡ (code_row (some 2000) ∷ [], err code_invalid)
unfolding consume_code check_code find update_where
consume_once_example =
    consume_once plain plain 2000 3000 "orbi_ac_a" "shop" "https://shop.example" "verifier" "shop"
      "https://shop.example" "verifier" (code_row none ∷ []) (code_row (some 2000) ∷ [])
      (code_row (some 2000) ∷ []) (code_of (code_row none)) refl
      (Codes.next Codes.here (Codes.Step.consumes 2500 "orbi_ac_a" "shop" "" ""))

abbrev row : Status → Option String → AuthorizationRow open_vault
row status subject_id = record {
  request_id = "r1";
  upstream_state_hash = "state";
  service_code = "shop";
  environment = sandbox;
  redirect_uri = "https://shop.example";
  requested_scopes = "balance:read" ∷ [];
  client_state = "";
  code_challenge = "verifier";
  nonce = "n";
  upstream_verifier = "v";
  approval_token = "ok";
  approval_token_hash = "ok";
  subject_id = subject_id;
  status = status;
  expires_at = 61000;
}

updates-Moves_example :
    (r : AuthorizationRow open_vault) × In r (row pending_identity none ∷ [])
    × Moves 2000 r (row pending_consent (some "asha"))
unfolding complete_identity awaits_identity is_open update_where
updates-Moves_example =
    updates-Moves open_vault plain 2000 "state" "asha" "" "" deny (row pending_identity none ∷ [])
      (row pending_consent (some "asha")) (inl (inl refl))

decision_final_example :
    In
      (row approved (some "asha"))
      (decide open_vault plain 3000 "r1" "ok" deny (row approved (some "asha") ∷ [])).0
decision_final_example =
    decision_final open_vault plain (row approved (some "asha")) (inl refl) (inl refl)
      (Transitions.next Transitions.here (Transitions.Step.decides_request 3000 "r1" "ok" deny))

abbrev pushed : AuthorizationRecord
pushed = record {
  request_id = "r1";
  upstream_state = "state";
  service_code = "shop";
  environment = sandbox;
  redirect_uri = "https://shop.example";
  requested_scopes = "balance:read" ∷ [];
  client_state = "";
  code_challenge = "verifier";
  nonce = "n";
  upstream_verifier = "v";
  approval_token = "ok";
  subject_id = none;
  status = pending_identity;
  expires_at = 61000;
}
