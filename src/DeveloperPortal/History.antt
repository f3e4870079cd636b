-- ===== src/DeveloperPortal/History.antt =====
-- services/developerPortalStore.ts: the histories of its calls.
pub mod Revocations
use mathlib.Core.Path.{subst}
use orbi_pay_gateway_v.Prelude.{
  ℕ, ◌≡◌, refl, sym, ap, ◌∙◌, Bool, true, false, String, Option, none, some, List, [], ◌∷◌, Result,
  ok, >>=-eq-ok, >>-eq-ok, ok-eq, In,
}
use orbi_pay_gateway_v.Prelude.Json.{Json}
use orbi_pay_gateway_v.Environments.{Environment}
use orbi_pay_gateway_v.DeveloperPortal.{Call, Actor, empty_state, add_event}
use orbi_pay_gateway_v.DeveloperPortal.Applications.{
  Approval, Rejection, submit_application, approve_application, reject_application,
}
use orbi_pay_gateway_v.DeveloperPortal.Applications.Outcomes.{
  submit_application-Effect, approve_application-Effect, reject_application-Effect,
}
use orbi_pay_gateway_v.DeveloperPortal.Scopes.{
  submit_scope_request, decide_scope_request, update_service_status, apply_allowlist_update,
}
use orbi_pay_gateway_v.DeveloperPortal.Scopes.Outcomes.{
  submit_scope_request-Effect, decide_scope_request-Effect, update_service_status-Effect,
  apply_allowlist_update-Effect,
}
use orbi_pay_gateway_v.DeveloperPortal.Domains.{Challenge, VerifyInput, verify_service_domains}
use orbi_pay_gateway_v.DeveloperPortal.Domains.Outcomes.{verify_service_domains-Effect}
use orbi_pay_gateway_v.DeveloperPortal.Ownership.{
  AutomaticAnswer, verify_service_domains_automatically,
}
use orbi_pay_gateway_v.DeveloperPortal.Ownership.Outcomes.{
  verify_service_domains_automatically-Effect,
}
use orbi_pay_gateway_v.DeveloperPortal.Keys.{
  EmergencyAnswer, request_api_key_rotation, decide_api_key_rotation, issue_api_key,
  emergency_rotate_api_key, revoke_api_key,
}
use orbi_pay_gateway_v.DeveloperPortal.Keys.Outcomes.{
  IsFreshKey, request_api_key_rotation-Effect, decide_api_key_rotation-Effect, issue_api_key-Effect,
  emergency_rotate_api_key-Effect, revoke_api_key-Effect,
}
use orbi_pay_gateway_v.DeveloperPortal.WebhookSecrets.{
  request_webhook_secret_rotation, decide_webhook_secret_rotation, issue_webhook_secret,
  revoke_webhook_secret,
}
use orbi_pay_gateway_v.DeveloperPortal.WebhookSecrets.Outcomes.{
  request_webhook_secret_rotation-Effect, decide_webhook_secret_rotation-Effect,
  issue_webhook_secret-Effect, revoke_webhook_secret-Effect,
}
use orbi_pay_gateway_v.DeveloperPortal.Access.{record_operational_event}
use orbi_pay_gateway_v.DeveloperPortal.Soundness.{IsValid, Effect, untouched}
use orbi_pay_gateway_v.DeveloperPortal.Soundness.Effects.{Effect-IsValid}
use orbi_pay_gateway_v.DeveloperPortal.Data.{
  ApplicationInput, Application, Credential, Service, ScopeRequestInput, ScopeRequest,
  ScopeDecision, StatusUpdate, AllowlistInput, AllowlistUpdate, RotationInput, Rotation,
  RotationDecision, IssueRequest, EmergencyRotation, RevokeRequest, EventType, State,
}

-- What the store takes from other code.
pub record Outside : Type 0 where
  pub hash : String → String
  pub hmac : String → String
  pub seal : Option (String → Json)
  pub hostname_of : String → Option String
  pub proves : Challenge → Option String

module _ (o : Outside) where
  -- One call that ends without an error. The identifier of a new API key is not in use.
  pub data Step (s t : State) : Type 0 where
    submits :
        (call : Call) (input : ApplicationInput) (actor : Option Actor)
        → (submit_application call input actor s).0 ≡ t
        → Step s t
    approves :
        (call : Call) (id : String) (approval : Approval) {x : Service}
        → approve_application call id approval s ≡ ok (t, x)
        → Step s t
    rejects :
        (call : Call) (id : String) (rejection : Rejection) {a : Application}
        → reject_application call id rejection s ≡ ok (t, a)
        → Step s t
    asks_scopes :
        (call : Call) (code : String) (request : ScopeRequestInput) {r : ScopeRequest}
        → submit_scope_request call code request s ≡ ok (t, r)
        → Step s t
    decides_scopes :
        (call : Call) (id : String) (d : ScopeDecision) {x : Service} {r : ScopeRequest}
        → decide_scope_request call id d s ≡ ok (t, x, r)
        → Step s t
    sets_status :
        (call : Call) (code : String) (input : StatusUpdate) {x : Service}
        → update_service_status call code input s ≡ ok (t, x)
        → Step s t
    allows :
        (call : Call) (code : String) (update : AllowlistInput) {x : Service} {u : AllowlistUpdate}
        → apply_allowlist_update call code update s ≡ ok (t, x, u)
        → Step s t
    verifies :
        (call : Call) (code : String) (input : VerifyInput) {x : Service}
        → verify_service_domains o.hostname_of call code input s ≡ ok (t, x)
        → Step s t
    verifies_automatically :
        (call : Call) (code : String) (domains : Option (List String)) (by : String)
        {a : AutomaticAnswer}
        → verify_service_domains_automatically o.hmac o.hostname_of o.proves call code domains by s
          ≡ ok (t, a)
        → Step s t
    asks_key_rotation :
        (call : Call) (code : String) (request : RotationInput) {r : Rotation}
        → request_api_key_rotation call code request s ≡ ok (t, r)
        → Step s t
    decides_key_rotation :
        (call : Call) (id : String) (d : RotationDecision) {x : Service} {r : Rotation}
        → decide_api_key_rotation call id d s ≡ ok (t, x, r)
        → Step s t
    issues_key :
        (call : Call) (code : String) (request : IssueRequest) {x : Service} {k : Credential}
        {secret : String}
        → IsFreshKey call s
        → issue_api_key o.hash o.hostname_of call code request s ≡ ok (t, x, k, secret)
        → Step s t
    rotates_key :
        (call : Call) (code : String) (request : EmergencyRotation) {a : EmergencyAnswer}
        → IsFreshKey call s
        → emergency_rotate_api_key o.hash call code request s ≡ ok (t, a)
        → Step s t
    revokes_key :
        (call : Call) (code id : String) (request : RevokeRequest) {x : Service} {k : Credential}
        → revoke_api_key call code id request s ≡ ok (t, x, k)
        → Step s t
    asks_secret_rotation :
        (call : Call) (code : String) (request : RotationInput) {r : Rotation}
        → request_webhook_secret_rotation call code request s ≡ ok (t, r)
        → Step s t
    decides_secret_rotation :
        (call : Call) (id : String) (d : RotationDecision) {x : Service} {r : Rotation}
        → decide_webhook_secret_rotation call id d s ≡ ok (t, x, r)
        → Step s t
    issues_secret :
        (call : Call) (code : String) (request : IssueRequest) {x : Service} {w : Credential}
        {secret : String}
        → issue_webhook_secret o.hash o.seal o.hostname_of call code request s
          ≡ ok (t, x, w, secret)
        → Step s t
    revokes_secret :
        (call : Call) (code id : String) (request : RevokeRequest) {x : Service} {w : Credential}
        → revoke_webhook_secret call code id request s ≡ ok (t, x, w)
        → Step s t
    records :
        (call : Call) (event_type : EventType) (code : Option String) (e : Option Environment)
        (fields : Json)
        → record_operational_event call event_type code e fields s ≡ t
        → Step s t

  pub data Reach (s : State) : State → Type 0 where
    here : Reach s s
    next : {t u : State} → Reach s t → Step t u → Reach s u

  pub Step-Effect : {s t : State} → Step s t → Effect s t
  unfolding add_event record_operational_event
  Step-Effect {s} (submits call input actor e) =
      subst (Effect s) e (submit_application-Effect call input actor s)
  Step-Effect {s} (approves call id approval e) = approve_application-Effect call id approval s e
  Step-Effect {s} (rejects call id rejection e) = reject_application-Effect call id rejection s e
  Step-Effect {s} (asks_scopes call code request e) =
      submit_scope_request-Effect call code request s e
  Step-Effect {s} (decides_scopes call id d e) = decide_scope_request-Effect call id d s e
  Step-Effect {s} (sets_status call code input e) = update_service_status-Effect call code input s e
  Step-Effect {s} (allows call code update e) = apply_allowlist_update-Effect call code update s e
  Step-Effect {s} (verifies call code input e) =
      verify_service_domains-Effect o.hostname_of call code input s e
  Step-Effect {s} (verifies_automatically call code domains by e) =
      verify_service_domains_automatically-Effect o.hmac o.hostname_of o.proves call code domains by
        s e
  Step-Effect {s} (asks_key_rotation call code request e) =
      request_api_key_rotation-Effect call code request s e
  Step-Effect {s} (decides_key_rotation call id d e) = decide_api_key_rotation-Effect call id d s e
  Step-Effect {s} (issues_key call code request fresh e) =
      issue_api_key-Effect o.hash o.hostname_of call code request s fresh e
  Step-Effect {s} (rotates_key call code request fresh e) =
      emergency_rotate_api_key-Effect o.hash call code request s fresh e
  Step-Effect {s} (revokes_key call code id request e) =
      revoke_api_key-Effect call code id request s e
  Step-Effect {s} (asks_secret_rotation call code request e) =
      request_webhook_secret_rotation-Effect call code request s e
  Step-Effect {s} (decides_secret_rotation call id d e) =
      decide_webhook_secret_rotation-Effect call id d s e
  Step-Effect {s} (issues_secret call code request e) =
      issue_webhook_secret-Effect o.hash o.seal o.hostname_of call code request s e
  Step-Effect {s} (revokes_secret call code id request e) =
      revoke_webhook_secret-Effect call code id request s e
  Step-Effect {s} (records call event_type code e fields same) =
      untouched (ap (λ (z : State). z.services) (sym same))

  pub Reach-IsValid : {s t : State} → Reach s t → IsValid s → IsValid t
  Reach-IsValid here v = v
  Reach-IsValid (next r st) v = Effect-IsValid (Step-Effect st) (Reach-IsValid r v)

  -- After any sequence of calls on the empty store, in which the identifiers of new API keys are not in
  -- use: no two services have one code; a service has in each environment at most one API key and at
  -- most one webhook secret of the status active, while those that wait for a cutover are not counted;
  -- its API keys have distinct identifiers; and none of its granted scopes is pending.
  pub Reach-empty_state-IsValid : {t : State} → Reach empty_state t → IsValid t
  Reach-empty_state-IsValid r = Reach-IsValid r (record { codes = tt; each = λ x i. absurd i })

  pub Reach-trans : {s t u : State} → Reach s t → Reach t u → Reach s u
  Reach-trans r here = r
  Reach-trans r (next q st) = next (Reach-trans r q) st
