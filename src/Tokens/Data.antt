-- ===== src/Tokens/Data.antt =====
-- security/serviceAccessToken.ts: the claims of a service access token, without the literal ones, and
-- the answers of its functions.
use orbi_pay_gateway_v.Prelude.{ℕ, String, Option, List}
use orbi_pay_gateway_v.Environments.{Environment}

pub record ServiceClaims : Type 0 where
  pub sub : String
  pub service_code : String
  pub key_id : String
  pub fingerprint : String
  pub environment : Environment
  pub scopes : List String
  pub cnf_jkt : Option String
  pub iat : ℕ
  pub exp : ℕ
  pub jti : String

pub record ServiceInput : Type 0 where
  pub service_code : String
  pub key_id : String
  pub fingerprint : String
  pub environment : Environment
  pub scopes : List String
  pub cnf_jkt : Option String
  pub ttl_seconds : Option ℕ

-- What reading a payload gives: no JSON, JSON that the schema refuses, or claims.
pub data Decoded (Claims : Type 0) : Type 0 where
  not_json not_claims : Decoded Claims
  read : Claims → Decoded Claims

pub record Issued (Claims : Type 0) : Type 0 where
  pub access_token : String
  pub claims : Claims
  pub expires_in : ℕ

pub data Introspection (Claims : Type 0) : Type 0 where
  active : Claims → Introspection Claims
  inactive : Introspection Claims
