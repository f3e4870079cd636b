-- ===== src/DeveloperPortal/WebhookSecrets.antt =====
-- services/developerPortalStore.ts: the webhook signing secrets of a service. `hash` is the hexadecimal
-- SHA-256, `seal` encrypts a secret when an encryption key is configured, and `unseal` decrypts it.
pub mod Outcomes
pub mod Signing
use Prim.Native.String as Str
use orbi_pay_gateway_v.Prelude.{
  ℕ, Bool, true, false, ◌&&◌, ◌==◌, String, Option, none, some, List, [], ◌∷◌, ◌++◌, if◌then◌else◌,
  Result, ok, err, ◌>>=◌, ◌>>◌, find, filter, replace_first, sort_descending,
}
use orbi_pay_gateway_v.Prelude.Json.{Json, text, to_object}
use orbi_pay_gateway_v.Environments.{Environment, env_eq}
use orbi_pay_gateway_v.DeveloperPortal.{
  Error, webhook_secret_not_found, webhook_secret_not_available, webhook_secret_rotation_not_found,
  webhook_secret_unreadable, Call, env_text, get_mutable_service, store_service, add_event,
}
use orbi_pay_gateway_v.DeveloperPortal.Scopes.{object_or_empty}
use orbi_pay_gateway_v.DeveloperPortal.Domains.{assert_live_credential_eligibility}
use orbi_pay_gateway_v.DeveloperPortal.Keys.{
  has_id, is_usable, cut_over, state_after_revocation, has_rotation_id, new_rotation,
  decided_rotation, state_after_decision, credentials_after_decision, find_rotation,
  find_credential, revoked_credential, fingerprint, issue_api_key,
}
use orbi_pay_gateway_v.DeveloperPortal.Data.{
  CredentialStatus, Credential, CredentialState, rotation_pending, Service, RotationInput, Rotation,
  RotationChoice, approve, reject, complete, RotationDecision, IssueRequest, RevokeRequest, State,
  EventType, secret_rotation_requested, secret_rotation_approved, secret_rotation_rejected,
  secret_rotated, secret_issued, secret_revoked,
}

unfoldable pub with_secrets : Call → CredentialState → List Credential → Service → Service
with_secrets call state ws x = record x {
  webhook_secret_status = state;
  webhook_secrets = ws;
  updated_at = call.now;
}

pub request_webhook_secret_rotation :
    Call → String → RotationInput → State → Result Error (State × Rotation)
unfolding with_secrets
request_webhook_secret_rotation call code request s = do
  x ← get_mutable_service code s
  let new : Rotation = new_rotation call "whsec_rot_" x.service_code request
  let changed : State = store_service (with_secrets call rotation_pending x.webhook_secrets x) s
  ok (
    add_event call secret_rotation_requested (some x.service_code) (some request.environment)
        (to_object (
          ("rotationId", some (text new.rotation_id))
          ∷ ("requestedBy", some (text request.requested_by))
          ∷ []))
        (record changed { webhook_secret_rotations = new ∷ changed.webhook_secret_rotations }),
    new,
  )

abbrev secret_decision_event : RotationChoice → EventType
secret_decision_event approve = secret_rotation_approved
secret_decision_event complete = secret_rotated
secret_decision_event reject = secret_rotation_rejected

pub decide_webhook_secret_rotation :
    Call → String → RotationDecision → State → Result Error (State × Service × Rotation)
unfolding with_secrets
decide_webhook_secret_rotation call id d s = do
  r ← find_rotation webhook_secret_rotation_not_found id s.webhook_secret_rotations
  x ← get_mutable_service r.service_code s
  let changed : Service =
      with_secrets call (state_after_decision d.decision)
        (credentials_after_decision call.now d.decision r.environment x.webhook_secrets) x
  let decided : Rotation = decided_rotation call d r
  let with_service : State = store_service changed s
  let stored : State = record with_service {
    webhook_secret_rotations =
        replace_first (has_rotation_id r.rotation_id) decided with_service.webhook_secret_rotations;
  }
  ok (
    add_event call (secret_decision_event d.decision) (some x.service_code) (some r.environment)
        (to_object (("rotationId", some (text id)) ∷ ("decidedBy", some (text d.decided_by)) ∷ []))
        stored,
    changed,
    decided,
  )

-- `oneTimeSecret` of a webhook secret.
unfoldable pub webhook_secret : Call → Environment → String
webhook_secret call e = Str.◌++◌ (Str.◌++◌ "orbi_whsec_" (env_text e)) (Str.◌++◌ "_" call.random)

abbrev pub is_signing : ℕ → Option Environment → Credential → Bool
is_signing now none w = is_usable now w
is_signing now (some e) w = is_usable now w && env_eq w.environment e

abbrev pub first : List Credential → Option Credential
first [] = none
first (w ∷ ws) = some w

-- The secrets that may sign, the one issued last first.
unfoldable pub signing_secrets : ℕ → Option Environment → List Credential → List Credential
signing_secrets now e ws =
    sort_descending (λ (w : Credential). w.issued_at) (filter (is_signing now e) ws)

unfoldable pub get_active_webhook_signing_secret :
    (Json → Option String) → ℕ → String → Option Environment → State → Result Error String
unfolding signing_secrets
get_active_webhook_signing_secret unseal now code e s = do
  x ← get_mutable_service code s
  elim (first (signing_secrets now e x.webhook_secrets)) [
    | none ↦ err webhook_secret_not_available
    | some w ↦ elim w.encrypted_secret [
      | none ↦ err webhook_secret_not_available
      | some sealed ↦ elim (unseal sealed) [
        | none ↦ err webhook_secret_unreadable
        | some secret ↦ ok secret
      ]
    ]
  ]

pub revoke_webhook_secret :
    Call → String → String → RevokeRequest → State → Result Error (State × Service × Credential)
unfolding with_secrets
revoke_webhook_secret call code id request s = do
  x ← get_mutable_service code s
  w ← find_credential webhook_secret_not_found id x.webhook_secrets
  let changed_secret : Credential = revoked_credential call.now w
  let ws : List Credential = replace_first (has_id id) changed_secret x.webhook_secrets
  let changed : Service = with_secrets call (state_after_revocation call.now w.environment ws) ws x
  ok (
    add_event call secret_revoked (some x.service_code) (some w.environment)
        (to_object (
          ("secretId", some (text id))
          ∷ ("fingerprint", some (text w.fingerprint))
          ∷ ("revokedBy", some (text request.revoked_by))
          ∷ ("reason", some (text request.reason))
          ∷ ("metadata", some (object_or_empty request.metadata))
          ∷ []))
        (store_service changed s),
    changed,
    changed_secret,
  )

pub record Provisioned : Type 0 where
  pub service : Service
  pub api_key : Credential
  pub api_key_secret : String
  pub webhook_credential : Credential
  pub webhook_signing_secret : String

module _ (hash : String → String) (seal : Option (String → Json))
    (hostname_of : String → Option String) where
  unfoldable pub new_secret : Call → Environment → Option ℕ → Credential
  unfolding webhook_secret
  new_secret call e expires_at = record {
    id = Str.◌++◌ "whsec_" call.uuid;
    environment = e;
    status = CredentialStatus.active;
    fingerprint = fingerprint hash (webhook_secret call e);
    encrypted_secret = elim seal [
      | none ↦ none
      | some encrypt ↦ some (encrypt (webhook_secret call e))
    ];
    issued_at = call.now;
    expires_at = expires_at;
    revoked_at = none;
  }

  unfoldable pub issue_webhook_secret :
      Call → String → IssueRequest → State → Result Error (State × Service × Credential × String)
  unfolding new_secret with_secrets
  issue_webhook_secret call code request s = do
    x ← get_mutable_service code s
    assert_live_credential_eligibility hostname_of x.service_code request.environment s
    let new : Credential = new_secret call request.environment request.expires_at
    let changed : Service =
        with_secrets call CredentialState.active
          (cut_over request.environment x.webhook_secrets ++ new ∷ []) x
    ok (
      add_event call secret_issued (some x.service_code) (some request.environment)
          (to_object (
            ("secretId", some (text new.id))
            ∷ ("fingerprint", some (text new.fingerprint))
            ∷ ("requestedBy", some (text request.requested_by))
            ∷ []))
          (store_service changed s),
      changed,
      new,
      webhook_secret call request.environment,
    )

  -- Both credentials; the two calls draw on their own.
  pub provision_service_credentials :
      Call
      → Call
      → String
      → Environment
      → String
      → String
      → State
      → Result Error (State × Provisioned)
  unfolding issue_webhook_secret
  provision_service_credentials call other code e requested_by reason s = do
    assert_live_credential_eligibility hostname_of code e s
    let request : IssueRequest = record {
      environment = e;
      expires_at = none;
      requested_by = requested_by;
      reason = reason;
    }
    key ← issue_api_key hash hostname_of call code request s
    secret ← issue_webhook_secret other code request key.0
    ok (
      secret.0,
      record {
        service = secret.1;
        api_key = key.2;
        api_key_secret = key.3;
        webhook_credential = secret.2;
        webhook_signing_secret = secret.3;
      },
    )
