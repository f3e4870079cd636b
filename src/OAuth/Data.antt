-- ===== src/OAuth/Data.antt =====
-- The rows and records of OAuth authorizations, and the sealing of secrets at rest
-- (security/secretVaultCrypto.ts), of which the store needs that opening undoes sealing.
use orbi_pay_gateway_v.Prelude.{ℕ, ◌≡◌, Bool, true, false, String, Option, List}
use orbi_pay_gateway_v.Environments.{Environment}

pub record Vault : Type 1 where
  pub Sealed : Type 0
  pub encrypt : String → Sealed
  pub decrypt : Sealed → String
  pub decrypt-encrypt : (s : String) → decrypt (encrypt s) ≡ s

pub data Status : Type 0 where
  pending_identity pending_consent approved denied : Status

abbrev pub is_status : Status → Status → Bool
is_status pending_identity pending_identity = true
is_status pending_consent pending_consent = true
is_status approved approved = true
is_status denied denied = true
is_status _ _ = false

pub data Decision : Type 0 where
  approve deny : Decision

abbrev pub status_of : Decision → Status
status_of approve = approved
status_of deny = denied

pub record AuthorizationRecord : Type 0 where
  pub request_id : String
  pub upstream_state : String
  pub service_code : String
  pub environment : Environment
  pub redirect_uri : String
  pub requested_scopes : List String
  pub client_state : String
  pub code_challenge : String
  pub nonce : String
  pub upstream_verifier : String
  pub approval_token : String
  pub subject_id : Option String
  pub status : Status
  pub expires_at : ℕ

pub record AuthorizationRow (vault : Vault) : Type 0 where
  pub request_id : String
  pub upstream_state_hash : String
  pub service_code : String
  pub environment : Environment
  pub redirect_uri : String
  pub requested_scopes : List String
  pub client_state : String
  pub code_challenge : String
  pub nonce : String
  pub upstream_verifier : vault.Sealed
  pub approval_token : vault.Sealed
  pub approval_token_hash : String
  pub subject_id : Option String
  pub status : Status
  pub expires_at : ℕ

pub record AuthorizationCode : Type 0 where
  pub service_code : String
  pub environment : Environment
  pub redirect_uri : String
  pub scopes : List String
  pub subject_id : String
  pub consent_id : String
  pub code_challenge : String

pub record CodeRow : Type 0 where
  pub code_hash : String
  pub service_code : String
  pub environment : Environment
  pub redirect_uri : String
  pub scopes : List String
  pub subject_id : String
  pub consent_id : String
  pub code_challenge : String
  pub expires_at : ℕ
  pub consumed_at : Option ℕ

pub data Error : Type 0 where
  unique_violation state_invalid request_invalid subject_required code_invalid client_mismatch
        pkce_verifier_invalid :
      Error
