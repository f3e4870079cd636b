-- ===== src/DeveloperPortal/Keys/Outcomes.antt =====
-- services/developerPortalStore.ts: each call on API keys that ends without an error.
use Prim.Native.String as Str
use mathlib.Core.Path.{subst}
use orbi_pay_gateway_v.Prelude.{
  ◌≡◌, sym, ap, Bool, true, false, String, Option, none, some, List, [], ◌∷◌, ◌++◌, ok, ok-eq,
  >>=-eq-ok, >>-eq-ok, any, find, find-some, find-replace_first, eq_refl, Option-cases,
  if◌then◌else◌, In, inl, inr,
}
use orbi_pay_gateway_v.DeveloperPortal.{
  Error, api_key_not_found, api_key_rotation_not_found, Call, has_code, get_mutable_service,
  store_service, add_event,
}
use orbi_pay_gateway_v.DeveloperPortal.Domains.{assert_live_credential_eligibility}
use orbi_pay_gateway_v.DeveloperPortal.Keys.{
  has_id, cut_over, revoke_current, with_keys, new_key, EmergencyAnswer, find_rotation,
  request_api_key_rotation, decide_api_key_rotation, issue_api_key, emergency_rotate_api_key,
  revoke_api_key, find_credential, revokes_at_once,
}
use orbi_pay_gateway_v.DeveloperPortal.Keys.Histories.{
  cut_over-AllAge, cut_over-none, revoke_current-AllAge, revoke_current-none,
  credentials_after_decision-AllAge, replace_first-AllAge, replace_first-IsSpent, keys-Change,
  new_key-Change,
}
use orbi_pay_gateway_v.DeveloperPortal.Soundness.{IsSpent, IsValid, Change, Effect}
use orbi_pay_gateway_v.DeveloperPortal.Soundness.Effects.{found-find, store_service-Effect}
use orbi_pay_gateway_v.DeveloperPortal.Soundness.Ages.{AllAge-refl}
use orbi_pay_gateway_v.DeveloperPortal.Data.{
  Credential, CredentialState, Service, RotationInput, Rotation, RotationDecision, IssueRequest,
  EmergencyRotation, RevokeRequest, State,
}

-- The identifier of the key that a call creates is in use in no service.
abbrev pub IsFreshKey : Call → State → Type 0
IsFreshKey call s =
    (x : Service) → In x s.services → any (has_id (Str.◌++◌ "key_" call.uuid)) x.keys ≡ false

pub found-In :
    (code : String) (s : State) {x : Service} → get_mutable_service code s ≡ ok x → In x s.services
found-In code s {x} e = (find-some _ s.services (found-find code s x e)).1

pub find_credential-find :
    (e : Error) (id : String) (ks : List Credential) {k : Credential}
    → find_credential e id ks ≡ ok k
    → find (has_id id) ks ≡ some k
unfolding find_credential
find_credential-find e id ks h = elim (Option-cases (find (has_id id) ks)) [
  | inl n ↦ absurd (cc (rw (n, find_credential) at h))
  | inr (l, q) ↦ rw q (ap some (ok-eq (rw (q, find_credential) at h)))
]

pub request_api_key_rotation-Effect :
    (call : Call) (code : String) (request : RotationInput) (s : State) {t : State} {r : Rotation}
    → request_api_key_rotation call code request s ≡ ok (t, r)
    → Effect s t
unfolding request_api_key_rotation add_event store_service
request_api_key_rotation-Effect call code request s e =
    let (x, found, rest) = >>=-eq-ok (get_mutable_service code s) _ e in
    store_service-Effect code s x _ found (keys-Change call _ x.keys x (AllAge-refl x.keys))
      (sym (ap (λ p. (p.0).services) (ok-eq rest)))

pub decide_api_key_rotation-Effect :
    (call : Call) (id : String) (d : RotationDecision) (s : State) {t : State} {y : Service}
    {r : Rotation}
    → decide_api_key_rotation call id d s ≡ ok (t, y, r)
    → Effect s t
unfolding decide_api_key_rotation add_event store_service
decide_api_key_rotation-Effect call id d s e =
    let (r, _, after) =
      >>=-eq-ok (find_rotation api_key_rotation_not_found id s.key_rotations) _ e in
    let (x, found, rest) = >>=-eq-ok (get_mutable_service r.service_code s) _ after in
    store_service-Effect r.service_code s x _ found
      (keys-Change call _ _ x
        (credentials_after_decision-AllAge call.now d.decision r.environment x.keys))
      (sym (ap (λ p. (p.0).services) (ok-eq rest)))

module _ (hash : String → String) where
  pub issue_api_key-Effect :
      (hostname_of : String → Option String) (call : Call) (code : String) (request : IssueRequest)
      (s : State) {t : State} {y : Service} {k : Credential} {secret : String}
      → IsFreshKey call s
      → issue_api_key hash hostname_of call code request s ≡ ok (t, y, k, secret)
      → Effect s t
  unfolding issue_api_key add_event store_service new_key
  issue_api_key-Effect hostname_of call code request s fresh e =
      let (x, found, after) = >>=-eq-ok (get_mutable_service code s) _ e in
      let (_, rest) =
        >>-eq-ok
          (assert_live_credential_eligibility hostname_of x.service_code request.environment s) _
          after in
      store_service-Effect code s x _ found
        (new_key-Change call _ _ (new_key hash call request.environment request.expires_at) x
          (cut_over-AllAge request.environment x.keys) (cut_over-none request.environment x.keys)
          (fresh x (found-In code s found)))
        (sym (ap (λ p. (p.0).services) (ok-eq rest)))

  emergency-Change :
      (call : Call) (request : EmergencyRotation) (x : Service) (at_once : Bool)
      → any (has_id (Str.◌++◌ "key_" call.uuid)) x.keys ≡ false
      → Change x (
          with_keys call CredentialState.active
            ((if at_once
                then revoke_current call.now request.environment x.keys
                else cut_over request.environment x.keys)
              ++ new_key hash call request.environment none ∷ [])
            x)
  unfolding new_key
  emergency-Change call request x true fresh =
      new_key-Change call _ _ (new_key hash call request.environment none) x
        (revoke_current-AllAge call.now request.environment x.keys)
        (revoke_current-none call.now request.environment x.keys) fresh
  emergency-Change call request x false fresh =
      new_key-Change call _ _ (new_key hash call request.environment none) x
        (cut_over-AllAge request.environment x.keys) (cut_over-none request.environment x.keys)
        fresh

  pub emergency_rotate_api_key-Effect :
      (call : Call) (code : String) (request : EmergencyRotation) (s : State) {t : State}
      {a : EmergencyAnswer}
      → IsFreshKey call s
      → emergency_rotate_api_key hash call code request s ≡ ok (t, a)
      → Effect s t
  unfolding emergency_rotate_api_key add_event store_service
  emergency_rotate_api_key-Effect call code request s fresh e =
      let (x, found, rest) = >>=-eq-ok (get_mutable_service code s) _ e in
      store_service-Effect code s x _ found
        (emergency-Change call request x (revokes_at_once request)
          (fresh x (found-In code s found)))
        (sym (ap (λ p. (p.0).services) (ok-eq rest)))

pub revoke_api_key-Effect :
    (call : Call) (code id : String) (request : RevokeRequest) (s : State) {t : State} {y : Service}
    {k : Credential}
    → revoke_api_key call code id request s ≡ ok (t, y, k)
    → Effect s t
unfolding revoke_api_key add_event store_service
revoke_api_key-Effect call code id request s e =
    let (x, found, after) = >>=-eq-ok (get_mutable_service code s) _ e in
    let (k, there, rest) = >>=-eq-ok (find_credential api_key_not_found id x.keys) _ after in
    store_service-Effect code s x _ found
      (keys-Change call _ _ x
        (replace_first-AllAge id call.now k x.keys (find_credential-find _ id x.keys there)))
      (sym (ap (λ p. (p.0).services) (ok-eq rest)))

-- The service that a revocation answers is stored, and holds no other key with the identifier.
pub revoke_api_key-IsSpent :
    (call : Call) (code id : String) (request : RevokeRequest) (s : State) {t : State} {y : Service}
    {k : Credential}
    → IsValid s
    → revoke_api_key call code id request s ≡ ok (t, y, k)
    → (find (has_code y.service_code) t.services ≡ some y) × IsSpent id y.keys
unfolding revoke_api_key add_event store_service with_keys
revoke_api_key-IsSpent call code id request s {t} {y} v e =
    let (x, found, after) = >>=-eq-ok (get_mutable_service code s) _ e in
    let (k, there, rest) = >>=-eq-ok (find_credential api_key_not_found id x.keys) _ after in
    let same = ok-eq rest in
    subst
      (λ (p : State × Service × Credential).
        (find (has_code (p.1).service_code) (p.0).services ≡ some p.1) × IsSpent id (p.1).keys)
      same
      (
        find-replace_first (has_code x.service_code) _ x s.services (found-find code s x found)
            (eq_refl x.service_code),
        replace_first-IsSpent id call.now k x.keys (find_credential-find _ id x.keys there)
            (v.each x (found-In code s found)).key_ids,
      )
