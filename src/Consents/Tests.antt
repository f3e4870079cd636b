-- ===== src/Consents/Tests.antt =====
-- Consents on concrete stores.
use orbi_pay_gateway_v.Prelude.{
  ◌≡◌, ◌<◌, refl, true, String, none, some, [], ◌∷◌, ok, In, find, any, filter, all, includes,
  unique, unique_from, add, sort_descending, insert_by,
}
use orbi_pay_gateway_v.Prelude.Dict
use orbi_pay_gateway_v.Prelude.Text.{
  slug, truthy, trim, trim_start, trim_end, to_lower, map_chars, translate_char, dash_runs,
  drop_leading, drop_trailing, is_alphanumeric, starts_with, is_space,
}
use orbi_pay_gateway_v.Environments.{sandbox}
use orbi_pay_gateway_v.Consents.Data.{
  Receipt, ReceiptCreate, Revocation, ConsentContext, ConsentEvidence, Question, active, revoked,
  SubjectType, Locale, Channel,
}
use orbi_pay_gateway_v.Consents.{
  Store, create, new_receipt, revoke, get, list_receipts, filter_receipts, has_active_consent,
  evaluate_consent,
}
use orbi_pay_gateway_v.Consents.Answers.{
  InEnvironment, evaluate-has_active_consent, has_active_consent-receipt,
}
use orbi_pay_gateway_v.Consents.History.{
  Reach, here, next, Step, IsUnique, Reach-IsUnique, revoke_final,
}

abbrev pub context : ConsentContext
context = record {
  locale = Locale.sw;
  timezone = "Africa/Dar_es_Salaam";
  ip_hash = none;
  device_hash = none;
  user_agent_hash = none;
  country_code = some "TZ";
  channel = Channel.mobile_app;
}

abbrev pub evidence : ConsentEvidence
evidence = record {
  consent_text_version = "v01";
  challenge_id = none;
  challenge_type = none;
  accepted_at = 900;
  evidence_hash = "0123456789abcdef";
  metadata = none;
}

abbrev input : ReceiptCreate
input = record {
  service_code = "Shop";
  environment = sandbox;
  subject_type = SubjectType.user;
  subject_id = "asha";
  external_subject_id = none;
  scopes = "balance:read" ∷ [];
  purpose = "show the balance";
  expires_at = 61000;
  context = context;
  evidence = evidence;
  metadata = none;
}

abbrev pub receipt : Receipt
receipt = record {
  service_code = "shop";
  environment = sandbox;
  subject_type = SubjectType.user;
  subject_id = "asha";
  external_subject_id = none;
  scopes = "balance:read" ∷ [];
  purpose = "show the balance";
  expires_at = 61000;
  context = context;
  evidence = evidence;
  metadata = none;
  consent_id = "consent_1";
  status = active;
  created_at = 1000;
  updated_at = 1000;
  revoked_at = none;
  revoked_by = none;
  revocation_reason = none;
}

abbrev pub agreed : Store
agreed = ("consent_1", receipt) ∷ []

abbrev question : Question
question = record {
  service_code = "shop";
  subject_id = "asha";
  scopes = "balance:read" ∷ [];
  environment = some sandbox;
}

pub agreed-Reach : Reach [] agreed
unfolding create new_receipt find Dict.values Dict.get Dict.set slug trim trim_start trim_end
    to_lower map_chars translate_char dash_runs drop_leading drop_trailing is_alphanumeric
    starts_with is_space unique unique_from add includes
agreed-Reach = next here (Step.creates 1000 "1" input refl)

evaluate-has_active_consent_example :
    (evaluate_consent 2000 2000 30 question agreed).allowed
    ≡ has_active_consent 2000 question agreed
evaluate-has_active_consent_example = evaluate-has_active_consent 2000 30 question agreed

pub held : has_active_consent 2000 question agreed ≡ true
unfolding has_active_consent list_receipts filter_receipts filter any all Dict.values
    sort_descending insert_by slug truthy trim trim_start trim_end to_lower map_chars translate_char
    dash_runs drop_leading drop_trailing is_alphanumeric starts_with is_space unique unique_from add
    includes
held = refl

has_active_consent-receipt_example :
    (r : Receipt) × In r (Dict.values agreed)
    × (r.service_code ≡ slug "shop")
    × (r.subject_id ≡ "asha")
    × (r.revoked_at ≡ none)
    × (2000 < r.expires_at)
    × InEnvironment (some sandbox) r.environment
    × ((scope : String)
        → includes scope ("balance:read" ∷ []) ≡ true
        → includes scope r.scopes ≡ true)
unfolding slug trim trim_start trim_end to_lower map_chars translate_char dash_runs drop_leading
    drop_trailing is_alphanumeric starts_with is_space
has_active_consent-receipt_example = has_active_consent-receipt 2000 question agreed held refl refl

Reach-IsUnique_example : IsUnique agreed
Reach-IsUnique_example = Reach-IsUnique agreed-Reach

abbrev pub reason : Revocation
reason = record { revoked_by = "asha"; reason = "no longer used"; metadata = none }

revoke_final_example :
    (x : Receipt) × (get 9000 "consent_1"
        (create 5000 "2" input (revoke 3000 "consent_1" reason agreed).0).0
      ≡ ok x)
    × (x.status ≡ revoked)
unfolding create find new_receipt revoke get Dict.get Dict.set
revoke_final_example =
    revoke_final 3000 9000 "consent_1" reason agreed
      (create 5000 "2" input (revoke 3000 "consent_1" reason agreed).0).0 receipt agreed-Reach refl
      (next here (Step.creates 5000 "2" input refl))
