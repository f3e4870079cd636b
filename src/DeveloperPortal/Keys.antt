-- ===== src/DeveloperPortal/Keys.antt =====
-- services/developerPortalStore.ts: the API keys of a service. `hash` is the hexadecimal SHA-256.
pub mod Histories
pub mod Resolution
pub mod Issued
pub mod Outcomes
use Prim.Native.String as Str
use orbi_pay_gateway_v.Prelude.{
  ℕ, Bool, true, false, not, ◌&&◌, ◌||◌, ◌==◌, ltb, String, Option, none, some, List, [], ◌∷◌, ◌++◌,
  map, if◌then◌else◌, Result, ok, err, ◌>>=◌, ◌>>◌, any, find, filter, replace_first,
}
use orbi_pay_gateway_v.Prelude.Json.{Json, flag, number, text, to_object, texts}
use orbi_pay_gateway_v.Environments.{Environment, sandbox, live, env_eq}
use orbi_pay_gateway_v.DeveloperPortal.{
  Error, api_key_not_found, api_key_rotation_not_found, Call, take_chars, env_text,
  get_mutable_service, store_service, add_event,
}
use orbi_pay_gateway_v.DeveloperPortal.Scopes.{object_or_empty}
use orbi_pay_gateway_v.DeveloperPortal.Domains.{assert_live_credential_eligibility}
use orbi_pay_gateway_v.DeveloperPortal.Data.{
  ServiceStatus, is_active, CredentialStatus, pending_cutover, revoked, is_current, is_cutover,
  Credential, CredentialState, rotation_pending, Service, RotationInput, Rotation, RotationStatus,
  approved, completed, rejected, RotationChoice, approve, reject, complete, RotationDecision,
  IssueRequest, ExposureType, suspected_exposure, confirmed_exposure, lost_key,
  routine_fast_rotation, EmergencyRotation, RevokeRequest, State, EventType, key_rotation_requested,
  key_rotation_approved, key_rotation_rejected, key_rotated, key_emergency_rotated, key_issued,
  key_revoked,
}

abbrev pub has_id : String → Credential → Bool
has_id id k = k.id == id

abbrev pub is_current_in : Environment → Credential → Bool
is_current_in e k = env_eq k.environment e && is_current k.status

-- `!expiresAt || Date.parse(expiresAt) > now`.
abbrev pub is_unexpired : ℕ → Credential → Bool
is_unexpired now k = elim k.expires_at [ none ↦ true | some t ↦ ltb now t ]

abbrev pub is_usable : ℕ → Credential → Bool
is_usable now k = (is_current k.status || is_cutover k.status) && is_unexpired now k

-- The credentials of an environment whose status is active wait for the cutover.
unfoldable pub cut_over : Environment → List Credential → List Credential
cut_over e [] = []
cut_over e (k ∷ ks) =
    let rest = cut_over e ks in
    if is_current_in e k then record k { status = pending_cutover } ∷ rest else k ∷ rest

-- The active credentials of an environment are revoked at once.
pub revoke_current : ℕ → Environment → List Credential → List Credential
revoke_current now e [] = []
revoke_current now e (k ∷ ks) =
    let rest = revoke_current now e ks in
    if is_current_in e k
    then record k { status = revoked; revoked_at = some now } ∷ rest
    else k ∷ rest

-- The credentials that wait for the cutover are revoked.
pub end_cutover : ℕ → Environment → List Credential → List Credential
end_cutover now e [] = []
end_cutover now e (k ∷ ks) =
    let rest = end_cutover now e ks in
    if env_eq k.environment e && is_cutover k.status
    then record k { status = revoked; revoked_at = some now } ∷ rest
    else k ∷ rest

-- The state of a service's credentials after one of an environment was revoked.
unfoldable pub state_after_revocation : ℕ → Environment → List Credential → CredentialState
state_after_revocation now e ks =
    if any (λ k. is_current_in e k && is_unexpired now k) ks
    then CredentialState.active
    else CredentialState.revoked

abbrev pub has_rotation_id : String → Rotation → Bool
has_rotation_id id r = r.rotation_id == id

pub new_rotation : Call → String → String → RotationInput → Rotation
new_rotation call prefix code request = record {
  input = request;
  rotation_id = Str.◌++◌ prefix call.uuid;
  service_code = code;
  status = RotationStatus.pending_review;
  requested_at = call.now;
  decided_at = none;
  decided_by = none;
  decision_reason = none;
}

abbrev pub rotation_status : RotationChoice → RotationStatus
rotation_status approve = approved
rotation_status complete = completed
rotation_status reject = RotationStatus.rejected

pub decided_rotation : Call → RotationDecision → Rotation → Rotation
decided_rotation call d r = record r {
  status = rotation_status d.decision;
  decided_at = some call.now;
  decided_by = some d.decided_by;
  decision_reason = some d.reason;
}

abbrev pub state_after_decision : RotationChoice → CredentialState
state_after_decision approve = rotation_pending
state_after_decision _ = CredentialState.active

abbrev pub credentials_after_decision :
    ℕ → RotationChoice → Environment → List Credential → List Credential
credentials_after_decision now complete e ks = end_cutover now e ks
credentials_after_decision now _ e ks = ks

unfoldable pub with_keys : Call → CredentialState → List Credential → Service → Service
with_keys call state ks x = record x { key_status = state; keys = ks; updated_at = call.now }

pub request_api_key_rotation :
    Call → String → RotationInput → State → Result Error (State × Rotation)
unfolding with_keys new_rotation
request_api_key_rotation call code request s = do
  x ← get_mutable_service code s
  let new : Rotation = new_rotation call "key_rot_" x.service_code request
  let changed : State = store_service (with_keys call rotation_pending x.keys x) s
  ok (
    add_event call key_rotation_requested (some x.service_code) (some request.environment)
        (to_object (
          ("rotationId", some (text new.rotation_id))
          ∷ ("requestedBy", some (text request.requested_by))
          ∷ []))
        (record changed { key_rotations = new ∷ changed.key_rotations }),
    new,
  )

abbrev key_decision_event : RotationChoice → EventType
key_decision_event approve = key_rotation_approved
key_decision_event complete = key_rotated
key_decision_event reject = key_rotation_rejected

pub find_rotation : Error → String → List Rotation → Result Error Rotation
find_rotation e id rs = elim (find (has_rotation_id id) rs) [ none ↦ err e | some r ↦ ok r ]

pub decide_api_key_rotation :
    Call → String → RotationDecision → State → Result Error (State × Service × Rotation)
unfolding find_rotation with_keys decided_rotation
decide_api_key_rotation call id d s = do
  r ← find_rotation api_key_rotation_not_found id s.key_rotations
  x ← get_mutable_service r.service_code s
  let changed : Service =
      with_keys call (state_after_decision d.decision)
        (credentials_after_decision call.now d.decision r.environment x.keys) x
  let decided : Rotation = decided_rotation call d r
  let with_service : State = store_service changed s
  let stored : State = record with_service {
    key_rotations =
        replace_first (has_rotation_id r.rotation_id) decided with_service.key_rotations;
  }
  ok (
    add_event call (key_decision_event d.decision) (some x.service_code) (some r.environment)
        (to_object (("rotationId", some (text id)) ∷ ("decidedBy", some (text d.decided_by)) ∷ []))
        stored,
    changed,
    decided,
  )

-- `oneTimeSecret` of an API key.
unfoldable pub api_key_secret : Call → Environment → String
api_key_secret call e = Str.◌++◌ (Str.◌++◌ "orbi_" (env_text e)) (Str.◌++◌ "_" call.random)

abbrev exposure_text : ExposureType → String
exposure_text suspected_exposure = "suspected_exposure"
exposure_text confirmed_exposure = "confirmed_exposure"
exposure_text lost_key = "lost_key"
exposure_text routine_fast_rotation = "routine_fast_rotation"

abbrev is_confirmed : ExposureType → Bool
is_confirmed confirmed_exposure = true
is_confirmed _ = false

-- `revokePreviousImmediately ?? exposureType === 'confirmed_exposure'`.
pub revokes_at_once : EmergencyRotation → Bool
revokes_at_once r = elim r.revoke_previous_immediately [
  | none ↦ is_confirmed r.exposure_type
  | some b ↦ b
]

abbrev default_overlap : Environment → ℕ
default_overlap live = 15
default_overlap sandbox = 30

pub overlap : EmergencyRotation → ℕ
unfolding revokes_at_once
overlap r =
    if revokes_at_once r
    then 0
    else elim r.overlap_minutes [ none ↦ default_overlap r.environment | some n ↦ n ]

pub record EmergencyAnswer : Type 0 where
  pub service : Service
  pub key : Credential
  pub one_time_secret : String
  pub previous_keys : List (String × String × CredentialStatus)
  pub overlap_minutes : ℕ

-- What a resolved API key shows.
pub record ResolvedKey : Type 0 where
  pub service : Service
  pub key_id : String
  pub environment : Environment
  pub fingerprint : String
  pub issued_at : ℕ
  pub expires_at : Option ℕ

module _ (hash : String → String) where
  unfoldable pub fingerprint : String → String
  fingerprint secret = take_chars 24 (hash secret)

  unfoldable pub new_key : Call → Environment → Option ℕ → Credential
  unfolding fingerprint
  new_key call e expires_at = record {
    id = Str.◌++◌ "key_" call.uuid;
    environment = e;
    status = CredentialStatus.active;
    fingerprint = fingerprint (api_key_secret call e);
    encrypted_secret = none;
    issued_at = call.now;
    expires_at = expires_at;
    revoked_at = none;
  }

  unfoldable pub issue_api_key :
      (String → Option String)
      → Call
      → String
      → IssueRequest
      → State
      → Result Error (State × Service × Credential × String)
  unfolding new_key with_keys
  issue_api_key hostname_of call code request s = do
    x ← get_mutable_service code s
    assert_live_credential_eligibility hostname_of x.service_code request.environment s
    let new : Credential = new_key call request.environment request.expires_at
    let changed : Service =
        with_keys call CredentialState.active (cut_over request.environment x.keys ++ new ∷ []) x
    ok (
      add_event call key_issued (some x.service_code) (some request.environment)
          (to_object (
            ("keyId", some (text new.id))
            ∷ ("fingerprint", some (text new.fingerprint))
            ∷ ("requestedBy", some (text request.requested_by))
            ∷ []))
          (store_service changed s),
      changed,
      new,
      api_key_secret call request.environment,
    )

  pub emergency_rotate_api_key :
      Call → String → EmergencyRotation → State → Result Error (State × EmergencyAnswer)
  unfolding new_key with_keys revokes_at_once overlap
  emergency_rotate_api_key call code request s = do
    x ← get_mutable_service code s
    let e : Environment = request.environment
    let at_once : Bool = revokes_at_once request
    let previous : List Credential = filter (is_current_in e) x.keys
    let new : Credential = new_key call e none
    let kept : List Credential =
        if at_once then revoke_current call.now e x.keys else cut_over e x.keys
    let changed : Service = with_keys call CredentialState.active (kept ++ new ∷ []) x
    ok (
      add_event call key_emergency_rotated (some x.service_code) (some e)
          (to_object (
            ("keyId", some (text new.id))
            ∷ ("fingerprint", some (text new.fingerprint))
            ∷ ("requestedBy", some (text request.requested_by))
            ∷ ("reason", some (text request.reason))
            ∷ ("exposureType", some (text (exposure_text request.exposure_type)))
            ∷ ("revokePreviousImmediately", some (flag at_once))
            ∷ ("overlapMinutes", some (number (overlap request)))
            ∷ (
              "previousKeyFingerprints",
              some (texts (map (λ (k : Credential). k.fingerprint) previous)),
            )
            ∷ ("metadata", some (object_or_empty request.metadata))
            ∷ []))
          (store_service changed s),
      record {
        service = changed;
        key = new;
        one_time_secret = api_key_secret call e;
        previous_keys =
            map
              (λ (k : Credential). (
                k.id,
                k.fingerprint,
                if at_once then CredentialStatus.revoked else pending_cutover,
              ))
              previous;
        overlap_minutes = overlap request;
      },
    )

  -- The loop of `resolveApiKey` over the services.
  unfoldable pub resolve_among : ℕ → String → List Service → Option ResolvedKey
  resolve_among now fp [] = none
  resolve_among now fp (x ∷ xs) =
      let rest = resolve_among now fp xs in
      if is_active x.status
      then (elim (find (λ k. is_usable now k && k.fingerprint == fp) x.keys) [
        | none ↦ rest
        | some k ↦ some (record {
          service = x;
          key_id = k.id;
          environment = k.environment;
          fingerprint = k.fingerprint;
          issued_at = k.issued_at;
          expires_at = k.expires_at;
        })
      ])
      else rest

  unfoldable pub resolve_api_key : ℕ → String → State → Option ResolvedKey
  unfolding resolve_among fingerprint
  resolve_api_key now secret s = resolve_among now (fingerprint secret) s.services

unfoldable pub find_credential : Error → String → List Credential → Result Error Credential
find_credential e id ks = elim (find (has_id id) ks) [ none ↦ err e | some k ↦ ok k ]

abbrev pub revoked_credential : ℕ → Credential → Credential
revoked_credential now k = record k { status = revoked; revoked_at = some now }

unfoldable pub revoke_api_key :
    Call → String → String → RevokeRequest → State → Result Error (State × Service × Credential)
unfolding find_credential with_keys state_after_revocation
revoke_api_key call code id request s = do
  x ← get_mutable_service code s
  k ← find_credential api_key_not_found id x.keys
  let changed_key : Credential = revoked_credential call.now k
  let ks : List Credential = replace_first (has_id id) changed_key x.keys
  let changed : Service = with_keys call (state_after_revocation call.now k.environment ks) ks x
  ok (
    add_event call key_revoked (some x.service_code) (some k.environment)
        (to_object (
          ("keyId", some (text id))
          ∷ ("fingerprint", some (text k.fingerprint))
          ∷ ("revokedBy", some (text request.revoked_by))
          ∷ ("reason", some (text request.reason))
          ∷ ("metadata", some (object_or_empty request.metadata))
          ∷ []))
        (store_service changed s),
    changed,
    changed_key,
  )
