-- ===== src/Consents/Data.antt =====
-- contracts/consentCenterContract.ts: a consent receipt, with its times in milliseconds.
use orbi_pay_gateway_v.Prelude.{ℕ, Bool, true, false, String, Option, List}
use orbi_pay_gateway_v.Prelude.Json.{Json}
use orbi_pay_gateway_v.Environments.{Environment}

pub data SubjectType : Type 0 where
  user business : SubjectType

pub data Channel : Type 0 where
  hosted_challenge developer_portal operator mobile_app : Channel

pub data ConsentStatus : Type 0 where
  active revoked expired : ConsentStatus

abbrev pub status_eq : ConsentStatus → ConsentStatus → Bool
status_eq active active = true
status_eq revoked revoked = true
status_eq expired expired = true
status_eq _ _ = false

pub data Locale : Type 0 where
  en sw : Locale

pub record ConsentContext : Type 0 where
  pub locale : Locale
  pub timezone : String
  pub ip_hash : Option String
  pub device_hash : Option String
  pub user_agent_hash : Option String
  pub country_code : Option String
  pub channel : Channel

pub data ChallengeType : Type 0 where
  otp pin passkey biometric oidc operator_challenge : ChallengeType

pub record ConsentEvidence : Type 0 where
  pub consent_text_version : String
  pub challenge_id : Option String
  pub challenge_type : Option ChallengeType
  pub accepted_at : ℕ
  pub evidence_hash : String
  pub metadata : Option Json

pub record ReceiptCreate : Type 0 where
  pub service_code : String
  pub environment : Environment
  pub subject_type : SubjectType
  pub subject_id : String
  pub external_subject_id : Option String
  pub scopes : List String
  pub purpose : String
  pub expires_at : ℕ
  pub context : ConsentContext
  pub evidence : ConsentEvidence
  pub metadata : Option Json

pub record Receipt : Type 0 where
  pub service_code : String
  pub environment : Environment
  pub subject_type : SubjectType
  pub subject_id : String
  pub external_subject_id : Option String
  pub scopes : List String
  pub purpose : String
  pub expires_at : ℕ
  pub context : ConsentContext
  pub evidence : ConsentEvidence
  pub metadata : Option Json
  pub consent_id : String
  pub status : ConsentStatus
  pub created_at : ℕ
  pub updated_at : ℕ
  pub revoked_at : Option ℕ
  pub revoked_by : Option String
  pub revocation_reason : Option String

pub record Revocation : Type 0 where
  pub revoked_by : String
  pub reason : String
  pub metadata : Option Json

pub record Filters : Type 0 where
  pub service_code : Option String
  pub subject_id : Option String
  pub status : Option ConsentStatus

pub record Question : Type 0 where
  pub service_code : String
  pub subject_id : String
  pub scopes : List String
  pub environment : Option Environment

pub data EvaluationStatus : Type 0 where
  is_active is_expiring_soon is_revoked is_expired is_missing : EvaluationStatus

pub data RenewalReason : Type 0 where
  consent_expiring_soon consent_revoked consent_expired consent_missing : RenewalReason

pub record Evaluation : Type 0 where
  pub status : EvaluationStatus
  pub allowed : Bool
  pub renewal_required : Bool
  pub renewal_reason : Option RenewalReason
  pub consent_id : Option String
  pub expires_at : Option ℕ
  pub scopes : List String
  pub receipt : Option Receipt
