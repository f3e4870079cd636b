-- ===== src/DeveloperPortal/Data.antt =====
-- contracts/developerPortalContract.ts and the records of services/developerPortalStore.ts. Times are
-- milliseconds. The entry `domainVerification` of a metadata object stands apart from the others, with
-- the type that the store gives it. API keys and webhook secrets are both credentials; only a webhook
-- secret is kept in sealed form.
use orbi_pay_gateway_v.Prelude.{ℕ, Bool, true, false, String, Option, List}
use orbi_pay_gateway_v.Prelude.Dict.{Dict}
use orbi_pay_gateway_v.Prelude.Json.{Json}
use orbi_pay_gateway_v.Environments.{Environment}

pub data BusinessType : Type 0 where
  merchant marketplace organization saccos agent_network platform internal : BusinessType

pub data ServiceStatus : Type 0 where
  draft pending_review active suspended rejected archived : ServiceStatus

abbrev pub is_active : ServiceStatus → Bool
is_active ServiceStatus.active = true
is_active _ = false

-- `['suspended', 'rejected', 'archived'].includes(status)`
abbrev pub is_closed : ServiceStatus → Bool
is_closed suspended = true
is_closed rejected = true
is_closed archived = true
is_closed _ = false

pub data ReviewStatus : Type 0 where
  pending_review approved rejected : ReviewStatus

abbrev pub is_pending : ReviewStatus → Bool
is_pending ReviewStatus.pending_review = true
is_pending _ = false

pub record ChallengeRecord : Type 0 where
  pub token : String
  pub dns_record_name : String
  pub dns_record_value : String
  pub https_url : String
  pub verified : Bool
  pub verified_at : Option ℕ
  pub verification_method : Option String

pub record DomainVerification : Type 0 where
  pub verified_domains : Option (List String)
  pub verified_by : Option String
  pub verified_at : Option ℕ
  pub verification_method : Option String
  pub reason : Option String
  pub challenges : Dict ChallengeRecord
  pub metadata : Option Json

pub record Metadata : Type 0 where
  pub domain_verification : Option DomainVerification
  pub entries : Dict Json

pub record ApplicationInput : Type 0 where
  pub external_developer_id : Option String
  pub legal_name : String
  pub display_name : String
  pub contact_email : String
  pub contact_phone : Option String
  pub business_type : BusinessType
  pub country_code : String
  pub requested_environments : List Environment
  pub requested_scopes : List String
  pub browser_origins : List String
  pub redirect_urls : List String
  pub webhook_urls : List String
  pub use_cases : List String
  pub support_email : Option String
  pub metadata : Option Metadata

pub record Application : Type 0 where
  pub input : ApplicationInput
  pub open input use *
  pub own_metadata : Metadata
  pub application_id : String
  pub status : ReviewStatus
  pub service_code : Option String
  pub owner_portal_user_id : Option String
  pub owner_email : Option String
  pub submitted_at : ℕ
  pub decided_at : Option ℕ
  pub decided_by : Option String
  pub decision_reason : Option String
  pub updated_at : ℕ

pub data CredentialStatus : Type 0 where
  active pending_cutover revoked : CredentialStatus

abbrev pub is_current : CredentialStatus → Bool
is_current CredentialStatus.active = true
is_current _ = false

abbrev pub is_cutover : CredentialStatus → Bool
is_cutover pending_cutover = true
is_cutover _ = false

pub record Credential : Type 0 where
  pub id : String
  pub environment : Environment
  pub status : CredentialStatus
  pub fingerprint : String
  pub encrypted_secret : Option Json
  pub issued_at : ℕ
  pub expires_at : Option ℕ
  pub revoked_at : Option ℕ

pub data CredentialState : Type 0 where
  not_issued active rotation_pending revoked : CredentialState

pub record Service : Type 0 where
  pub service_code : String
  pub display_name : String
  pub status : ServiceStatus
  pub environments : List Environment
  pub scopes_granted : List String
  pub scopes_pending : List String
  pub browser_origins : List String
  pub redirect_urls : List String
  pub webhook_urls : List String
  pub key_status : CredentialState
  pub webhook_secret_status : CredentialState
  pub keys : List Credential
  pub webhook_secrets : List Credential
  pub created_at : ℕ
  pub updated_at : ℕ
  pub legal_name : String
  pub business_type : BusinessType
  pub country_code : String
  pub contact_email : String
  pub contact_phone : Option String
  pub external_developer_id : Option String
  pub owner_portal_user_id : Option String
  pub owner_email : Option String
  pub metadata : Metadata

pub record ScopeRequestInput : Type 0 where
  pub requested_scopes : List String
  pub reason : String
  pub environment : Environment
  pub metadata : Option Json

pub record ScopeRequest : Type 0 where
  pub input : ScopeRequestInput
  pub open input use *
  pub request_id : String
  pub service_code : String
  pub status : ReviewStatus
  pub submitted_at : ℕ
  pub decided_at : Option ℕ
  pub decided_by : Option String
  pub decision_reason : Option String

pub record ScopeDecision : Type 0 where
  pub approves : Bool
  pub reason : String
  pub decided_by : String

pub record StatusUpdate : Type 0 where
  pub status : ServiceStatus
  pub reason : String
  pub decided_by : String
  pub metadata : Option Json

pub record AllowlistInput : Type 0 where
  pub browser_origins : Option (List String)
  pub redirect_urls : Option (List String)
  pub webhook_urls : Option (List String)
  pub reason : String
  pub environment : Environment

pub record AllowlistUpdate : Type 0 where
  pub input : AllowlistInput
  pub update_id : String
  pub service_code : String
  pub applied_at : ℕ

pub record RotationInput : Type 0 where
  pub environment : Environment
  pub current_id : Option String
  pub rotation_reason : String
  pub requested_by : String
  pub metadata : Option Json

pub data RotationStatus : Type 0 where
  pending_review approved completed rejected : RotationStatus

pub record Rotation : Type 0 where
  pub input : RotationInput
  pub open input use *
  pub rotation_id : String
  pub service_code : String
  pub status : RotationStatus
  pub requested_at : ℕ
  pub decided_at : Option ℕ
  pub decided_by : Option String
  pub decision_reason : Option String

pub data RotationChoice : Type 0 where
  approve reject complete : RotationChoice

pub record RotationDecision : Type 0 where
  pub decision : RotationChoice
  pub reason : String
  pub decided_by : String

pub record IssueRequest : Type 0 where
  pub environment : Environment
  pub expires_at : Option ℕ
  pub requested_by : String
  pub reason : String

pub data ExposureType : Type 0 where
  suspected_exposure confirmed_exposure lost_key routine_fast_rotation : ExposureType

pub record EmergencyRotation : Type 0 where
  pub environment : Environment
  pub reason : String
  pub requested_by : String
  pub exposure_type : ExposureType
  pub revoke_previous_immediately : Option Bool
  pub overlap_minutes : Option ℕ
  pub metadata : Option Json

pub record RevokeRequest : Type 0 where
  pub revoked_by : String
  pub reason : String
  pub metadata : Option Json

pub data EventType : Type 0 where
  application_submitted application_rejected service_approved service_status_updated
        service_suspended billing_plan_assigned scope_request_submitted scope_request_approved
        scope_request_rejected allowlist_updated key_rotation_requested key_rotation_approved
        key_rotation_rejected key_rotated key_emergency_rotated key_issued key_revoked
        secret_rotation_requested secret_rotation_approved secret_rotation_rejected secret_rotated
        secret_issued secret_revoked :
      EventType

pub record Event : Type 0 where
  pub event_id : String
  pub event_type : EventType
  pub service_code : Option String
  pub environment : Option Environment
  pub occurred_at : ℕ
  pub data_fields : Json

pub record State : Type 0 where
  pub applications : List Application
  pub services : List Service
  pub scope_requests : List ScopeRequest
  pub allowlist_updates : List AllowlistUpdate
  pub key_rotations : List Rotation
  pub webhook_secret_rotations : List Rotation
  pub events : List Event
