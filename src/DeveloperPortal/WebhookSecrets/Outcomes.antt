-- ===== src/DeveloperPortal/WebhookSecrets/Outcomes.antt =====
-- services/developerPortalStore.ts: each call on webhook secrets that ends without an error.
use orbi_pay_gateway_v.Prelude.{
  ◌≡◌, refl, sym, ap, String, Option, List, [], ◌∷◌, ◌++◌, ok, ok-eq, >>=-eq-ok, >>-eq-ok, filter,
}
use orbi_pay_gateway_v.Prelude.Json.{Json}
use orbi_pay_gateway_v.DeveloperPortal.{
  webhook_secret_not_found, webhook_secret_rotation_not_found, Call, get_mutable_service,
  store_service, add_event,
}
use orbi_pay_gateway_v.DeveloperPortal.Domains.{assert_live_credential_eligibility}
use orbi_pay_gateway_v.DeveloperPortal.Keys.{is_current_in, find_rotation, find_credential}
use orbi_pay_gateway_v.DeveloperPortal.Keys.Histories.{
  cut_over-AllAge, cut_over-none, credentials_after_decision-AllAge, replace_first-AllAge,
}
use orbi_pay_gateway_v.DeveloperPortal.Keys.Outcomes.{find_credential-find}
use orbi_pay_gateway_v.DeveloperPortal.WebhookSecrets.{
  with_secrets, new_secret, request_webhook_secret_rotation, decide_webhook_secret_rotation,
  issue_webhook_secret, revoke_webhook_secret,
}
use orbi_pay_gateway_v.DeveloperPortal.Soundness.{Change, Effect}
use orbi_pay_gateway_v.DeveloperPortal.Soundness.Effects.{store_service-Effect}
use orbi_pay_gateway_v.DeveloperPortal.Soundness.Ages.{
  AllAge, AllAge-refl, AllAge-HasOneActive, append-HasOneActive,
}
use orbi_pay_gateway_v.DeveloperPortal.Data.{
  Credential, CredentialState, Service, RotationInput, Rotation, RotationDecision, IssueRequest,
  RevokeRequest, State,
}

secrets-Change :
    (call : Call) (state : CredentialState) (ls : List Credential) (x : Service)
    → AllAge x.webhook_secrets ls
    → Change x (with_secrets call state ls x)
unfolding with_secrets
secrets-Change call state ls x age = record {
  code = refl;
  sound = λ v. record {
    one_key = v.one_key;
    one_secret = AllAge-HasOneActive age v.one_secret;
    key_ids = v.key_ids;
    scopes = v.scopes;
  };
  spent = λ id v. v;
}

new_secret-Change :
    (call : Call) (state : CredentialState) (ls : List Credential) (new : Credential) (x : Service)
    → AllAge x.webhook_secrets ls
    → filter (is_current_in new.environment) ls ≡ []
    → Change x (with_secrets call state (ls ++ new ∷ []) x)
unfolding with_secrets
new_secret-Change call state ls new x age free = record {
  code = refl;
  sound = λ v. record {
    one_key = v.one_key;
    one_secret = append-HasOneActive new ls free (AllAge-HasOneActive age v.one_secret);
    key_ids = v.key_ids;
    scopes = v.scopes;
  };
  spent = λ id v. v;
}

pub request_webhook_secret_rotation-Effect :
    (call : Call) (code : String) (request : RotationInput) (s : State) {t : State} {r : Rotation}
    → request_webhook_secret_rotation call code request s ≡ ok (t, r)
    → Effect s t
unfolding request_webhook_secret_rotation add_event store_service
request_webhook_secret_rotation-Effect call code request s e =
    let (x, found, rest) = >>=-eq-ok (get_mutable_service code s) _ e in
    store_service-Effect code s x _ found
      (secrets-Change call _ x.webhook_secrets x (AllAge-refl x.webhook_secrets))
      (sym (ap (λ p. (p.0).services) (ok-eq rest)))

pub decide_webhook_secret_rotation-Effect :
    (call : Call) (id : String) (d : RotationDecision) (s : State) {t : State} {y : Service}
    {r : Rotation}
    → decide_webhook_secret_rotation call id d s ≡ ok (t, y, r)
    → Effect s t
unfolding decide_webhook_secret_rotation add_event store_service
decide_webhook_secret_rotation-Effect call id d s e =
    let (r, _, after) =
      >>=-eq-ok (find_rotation webhook_secret_rotation_not_found id s.webhook_secret_rotations) _
        e in
    let (x, found, rest) = >>=-eq-ok (get_mutable_service r.service_code s) _ after in
    store_service-Effect r.service_code s x _ found
      (secrets-Change call _ _ x
        (credentials_after_decision-AllAge call.now d.decision r.environment x.webhook_secrets))
      (sym (ap (λ p. (p.0).services) (ok-eq rest)))

pub revoke_webhook_secret-Effect :
    (call : Call) (code id : String) (request : RevokeRequest) (s : State) {t : State} {y : Service}
    {w : Credential}
    → revoke_webhook_secret call code id request s ≡ ok (t, y, w)
    → Effect s t
unfolding revoke_webhook_secret add_event store_service
revoke_webhook_secret-Effect call code id request s e =
    let (x, found, after) = >>=-eq-ok (get_mutable_service code s) _ e in
    let (w, there, rest) =
      >>=-eq-ok (find_credential webhook_secret_not_found id x.webhook_secrets) _ after in
    store_service-Effect code s x _ found
      (secrets-Change call _ _ x (
        replace_first-AllAge id call.now w x.webhook_secrets
          (find_credential-find _ id x.webhook_secrets there)))
      (sym (ap (λ p. (p.0).services) (ok-eq rest)))

module _ (hash : String → String) (seal : Option (String → Json))
    (hostname_of : String → Option String) where
  pub issue_webhook_secret-Effect :
      (call : Call) (code : String) (request : IssueRequest) (s : State) {t : State} {y : Service}
      {w : Credential} {secret : String}
      → issue_webhook_secret hash seal hostname_of call code request s ≡ ok (t, y, w, secret)
      → Effect s t
  unfolding issue_webhook_secret add_event store_service new_secret
  issue_webhook_secret-Effect call code request s e =
      let (x, found, after) = >>=-eq-ok (get_mutable_service code s) _ e in
      let (_, rest) =
        >>-eq-ok
          (assert_live_credential_eligibility hostname_of x.service_code request.environment s) _
          after in
      store_service-Effect code s x _ found
        (new_secret-Change call _ _
          (new_secret hash seal hostname_of call request.environment request.expires_at) x
          (cut_over-AllAge request.environment x.webhook_secrets)
          (cut_over-none request.environment x.webhook_secrets))
        (sym (ap (λ p. (p.0).services) (ok-eq rest)))
