-- ===== src/PortalAccess/Data.antt =====
-- services/portalAccessStore.ts: the accounts, recovery codes and sessions of the portal. Times in the
-- tables are milliseconds, those of claims seconds. The rows and the claims hold what
-- signing in reads and writes; `sub` and `username`, which no check reads, are left out.
use orbi_pay_gateway_v.Prelude.{ℕ, Bool, true, false, String, Option, List}
use orbi_pay_gateway_v.Prelude.Json.{Json}

pub data Role : Type 0 where
  developer operator admin : Role

abbrev pub role_order : Role → ℕ
role_order developer = 1
role_order operator = 2
role_order admin = 3

pub data MfaStatus : Type 0 where
  disabled pending active : MfaStatus

abbrev pub is_active : MfaStatus → Bool
is_active active = true
is_active _ = false

pub record Account : Type 0 where
  pub user_id : String
  pub email : String
  pub name : String
  pub role : Role
  pub permissions : List String
  pub live_access : Bool
  pub service_codes : List String
  pub password_salt : String
  pub password_hash : String
  pub password_iterations : ℕ
  pub totp_secret : Option String
  pub totp_secret_encrypted : Option Json
  pub mfa_status : MfaStatus
  pub last_totp_counter : Option ℕ
  pub mfa_failed_attempts : ℕ
  pub mfa_locked_until : Option ℕ
  pub email_verified_at : Option ℕ
  pub mfa_required : Bool
  pub enabled : Bool

pub record RecoveryCode : Type 0 where
  pub user_id : String
  pub code_hash : String
  pub used_at : Option ℕ

pub record Session : Type 0 where
  pub session_id : String
  pub user_id : String
  pub mfa_verified_at : Option ℕ
  pub expires_at : ℕ
  pub revoked_at : Option ℕ
  pub revoke_reason : Option String

pub record Claims : Type 0 where
  pub sid : String
  pub email : String
  pub name : String
  pub role : Role
  pub live_access : Bool
  pub service_codes : List String
  pub permissions : List String
  pub mfa_verified : Bool
  pub mfa_required : Bool
  pub mfa_status : MfaStatus
  pub mfa_at : Option ℕ
  pub iat : ℕ
  pub exp : ℕ

pub record State : Type 0 where
  pub users : List Account
  pub recovery_codes : List RecoveryCode
  pub sessions : List Session
  pub active_sessions : List String

pub record Config : Type 0 where
  pub operator_mfa_required : Bool
  pub session_ttl_seconds : ℕ
  pub mfa_freshness_seconds : ℕ
  pub mfa_max_failed_attempts : ℕ
  pub mfa_lockout_seconds : ℕ

pub record LoginInput : Type 0 where
  pub email : String
  pub password : String
  pub otp : String
  pub recovery_code : String
