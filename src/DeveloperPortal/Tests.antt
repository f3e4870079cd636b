-- ===== src/DeveloperPortal/Tests.antt =====
-- The portal on a small history, with secrets that are their own hashes and open vaults.
use orbi_pay_gateway_v.DeveloperPortal.Keys.{cut_over}
use orbi_pay_gateway_v.Prelude.{replace_first}
use orbi_pay_gateway_v.DeveloperPortal.Domains.{assert_live_credential_eligibility}
use orbi_pay_gateway_v.Prelude.{unique}
use orbi_pay_gateway_v.DeveloperPortal.Domains.{live_hostnames}
use orbi_pay_gateway_v.Prelude.Json.{decimal}
use orbi_pay_gateway_v.Prelude.Text.{truthy}
use orbi_pay_gateway_v.Prelude.{
  ℕ, ◌≡◌, refl, sym, ap, ◌≢◌, true, false, String, Option, none, some, List, [], ◌∷◌, Result, ok,
  err, any, all, find, includes, inl, inr,
}
use orbi_pay_gateway_v.Prelude.Json.{Json, text}
use orbi_pay_gateway_v.Environments.{Environment, sandbox, live}
use orbi_pay_gateway_v.DeveloperPortal.{
  Error, Call, empty_state, add_event, get_mutable_service, service_slug, store_service,
  live_domain_verification_required, has_code,
}
use orbi_pay_gateway_v.DeveloperPortal.Data.{
  merchant, pending_cutover, ApplicationInput, Service, Credential, IssueRequest, RevokeRequest,
  State,
}
use orbi_pay_gateway_v.DeveloperPortal.Applications.{
  Approval, submit_application, approve_application, new_application, next_service_code,
  new_service,
}
use orbi_pay_gateway_v.DeveloperPortal.Applications.Codes.{next_service_code_free}
use orbi_pay_gateway_v.DeveloperPortal.Soundness.{IsValid}
use orbi_pay_gateway_v.DeveloperPortal.History.{
  Outside, Reach, here, next, submits, approves, issues_key, Reach-empty_state-IsValid,
}
use orbi_pay_gateway_v.DeveloperPortal.Keys.{
  has_id, api_key_secret, ResolvedKey, revoked_credential, issue_api_key, revoke_api_key,
  resolve_api_key, new_key,
}
use orbi_pay_gateway_v.DeveloperPortal.Keys.Outcomes.{IsFreshKey}
use orbi_pay_gateway_v.DeveloperPortal.Keys.Issued.{
  issue_api_key-live, issue_api_key-resolve, Opens,
}
use orbi_pay_gateway_v.DeveloperPortal.History.Revocations.{revoke_api_key_final}
use orbi_pay_gateway_v.DeveloperPortal.WebhookSecrets.{
  new_secret, webhook_secret, issue_webhook_secret, get_active_webhook_signing_secret,
}
use orbi_pay_gateway_v.DeveloperPortal.WebhookSecrets.Signing.{issue_webhook_secret-get}

abbrev plain : String → String
plain s = s

abbrev input : ApplicationInput
input = record {
  external_developer_id = none;
  legal_name = "Duka Ltd";
  display_name = "Duka";
  contact_email = "asha@duka.example";
  contact_phone = none;
  business_type = merchant;
  country_code = "TZ";
  requested_environments = sandbox ∷ live ∷ [];
  requested_scopes = "payments:create" ∷ [];
  browser_origins = [];
  redirect_urls = "https://duka.example/done" ∷ [];
  webhook_urls = [];
  use_cases = [];
  support_email = none;
  metadata = none;
}

abbrev call : ℕ → String → Call
call now id = record { now = now; uuid = id; event_uuid = id; random = id }

abbrev approval : Approval
approval = record { service_code = none; starts_active = true; grant_requested_scopes = true }

abbrev state_of : {A : Type 0} → Result Error (State × A) → State
state_of (ok (s, a)) = s
state_of (err e) = empty_state

abbrev service_of : Result Error (State × Service) → Option Service
service_of (ok (s, x)) = some x
service_of (err e) = none

abbrev keyed_state : Result Error (State × Service × Credential × String) → State
keyed_state (ok (s, x, k, secret)) = s
keyed_state (err e) = empty_state

abbrev head_or : Service → List Service → Service
head_or x [] = x
head_or x (y ∷ ys) = y

abbrev submitted : State
submitted = (submit_application (call 1 "a") input none empty_state).0

abbrev approved : State
approved = state_of (approve_application (call 2 "b") "dev_app_a" approval submitted)

abbrev duka : Service
duka = new_service 2 "duka" approval (new_application (call 1 "a") input none)

abbrev host : String → Option String
host url = some "duka.example"

abbrev outside : Outside
outside = record {
  hash = plain;
  hmac = plain;
  seal = some (λ s. text s);
  hostname_of = host;
  proves = λ c. none;
}

abbrev request : Environment → IssueRequest
request e = record { environment = e; expires_at = none; requested_by = "asha"; reason = "start" }

abbrev history : Reach outside empty_state approved
unfolding approve_application find submit_application add_event new_application service_slug truthy
history =
    next (next here (submits (call 1 "a") input none refl))
      (approves (call 2 "b") "dev_app_a" approval {x = duka} refl)

Reach-empty_state-IsValid_example : IsValid approved
Reach-empty_state-IsValid_example = Reach-empty_state-IsValid outside history

next_service_code_free_example :
    any (has_code (next_service_code "Duka" approved.services)) approved.services ≡ false
next_service_code_free_example = next_service_code_free "Duka" approved.services

taken_test : next_service_code "Duka" approved.services ≡ "duka-2"
unfolding next_service_code approve_application find submit_application add_event new_application
    any service_slug truthy decimal
taken_test = refl

issue_api_key-live_example :
    issue_api_key plain host (call 3 "c") "Duka" (request live) approved
    ≡ err live_domain_verification_required
unfolding get_mutable_service find approve_application submit_application add_event new_application
    truthy any includes live_hostnames unique
issue_api_key-live_example =
    (issue_api_key-live plain host (call 3 "c") "Duka" (request live) approved {x = duka} refl refl
        refl).1
      refl "duka.example" ("https://duka.example/done", "duka.example", inl refl, refl, refl) refl

abbrev key : String → Credential
key id = new_key plain (call 3 id) sandbox none

abbrev with_key : State
with_key = keyed_state (issue_api_key plain host (call 3 "c") "Duka" (request sandbox) approved)

abbrev with_two : State
with_two = keyed_state (issue_api_key plain host (call 4 "d") "Duka" (request sandbox) with_key)

abbrev revocation : RevokeRequest
revocation = record { revoked_by = "asha"; reason = "lost"; metadata = none }

abbrev keyed_service : State → Service
keyed_service s = head_or duka s.services

fresh_c : IsFreshKey (call 3 "c") approved
unfolding approve_application find submit_application add_event new_application any
fresh_c x (inl e) = ap (λ (z : Service). any (has_id "key_c") z.keys) (sym e)
fresh_c x (inr n) = absurd n

fresh_d : IsFreshKey (call 4 "d") with_key
unfolding issue_api_key get_mutable_service find approve_application submit_application add_event
    new_application truthy assert_live_credential_eligibility store_service replace_first any
    cut_over
fresh_d x (inl e) = ap (λ (z : Service). any (has_id "key_d") z.keys) (sym e)
fresh_d x (inr n) = absurd n

issue_api_key-resolve_example :
    Opens plain 9 with_key
      (keyed_service with_key)
      (key "c")
      (api_key_secret (call 3 "c") sandbox)
      sandbox
unfolding issue_api_key get_mutable_service find approve_application submit_application add_event
    new_application truthy assert_live_credential_eligibility store_service replace_first any
issue_api_key-resolve_example =
    issue_api_key-resolve plain host (call 3 "c") "Duka" (request sandbox) approved 9 {t = with_key}
      {y = keyed_service with_key} {k = key "c"} {secret = api_key_secret (call 3 "c") sandbox} refl
      refl refl refl

abbrev revoked_answer : Result Error (State × Service × Credential)
revoked_answer = revoke_api_key (call 5 "e") "Duka" "key_c" revocation with_two

abbrev after_revocation : State
after_revocation = elim revoked_answer [ err e ↦ empty_state | ok a ↦ a.0 ]

abbrev other_key : ResolvedKey
other_key = record {
  service = keyed_service after_revocation;
  key_id = "key_d";
  environment = sandbox;
  fingerprint = "orbi_sandbox_d";
  issued_at = 4;
  expires_at = none;
}

abbrev longer_history : Reach outside empty_state with_two
unfolding issue_api_key get_mutable_service find approve_application submit_application add_event
    new_application truthy assert_live_credential_eligibility store_service replace_first
longer_history =
    next
      (next history (
        issues_key (call 3 "c") "Duka" (request sandbox) {x = keyed_service with_key} {k = key "c"}
          {secret = api_key_secret (call 3 "c") sandbox} fresh_c refl))
      (issues_key (call 4 "d") "Duka" (request sandbox) {x = keyed_service with_two}
        {k = new_key plain (call 4 "d") sandbox none} {secret = api_key_secret (call 4 "d") sandbox}
        fresh_d refl)

revoke_api_key_final_example : other_key.key_id ≢ "key_c"
unfolding revoke_api_key get_mutable_service find issue_api_key approve_application
    submit_application add_event new_application truthy assert_live_credential_eligibility
    store_service replace_first cut_over resolve_api_key api_key_secret
revoke_api_key_final_example =
    revoke_api_key_final outside (call 5 "e") "Duka" "key_c" revocation 9 "orbi_sandbox_d"
      {s = with_two} {t = after_revocation} {u = after_revocation}
      {x = keyed_service after_revocation}
      {k = revoked_credential 5 (record (key "c") { status = pending_cutover })} {r = other_key}
      longer_history refl here refl refl

abbrev with_secret : Result Error (State × Service × Credential × String)
with_secret =
    issue_webhook_secret plain (some (λ s. text s)) host (call 3 "c") "Duka" (request sandbox)
      approved

abbrev opened : Json → Option String
opened (text s) = some s
opened _ = none

abbrev signing : State
signing = keyed_state with_secret

issue_webhook_secret-get_example :
    get_active_webhook_signing_secret opened 9 "Duka" (some sandbox) signing
    ≡ ok (webhook_secret (call 3 "c") sandbox)
unfolding get_mutable_service find approve_application submit_application add_event new_application
    truthy all issue_webhook_secret assert_live_credential_eligibility store_service replace_first
issue_webhook_secret-get_example =
    issue_webhook_secret-get plain (λ s. text s) opened host (call 3 "c") "Duka" (request sandbox)
      approved 9 {x = duka} {t = signing} {y = keyed_service signing}
      {w = new_secret plain (some (λ s. text s)) host (call 3 "c") sandbox none}
      {secret = webhook_secret (call 3 "c") sandbox} refl refl refl refl refl
