-- ===== src/RefreshTokens/Data.antt =====
-- The data of refresh tokens, and the claims of a financial access token
-- (security/financialAccessToken.ts). Times of claims are seconds.
use orbi_pay_gateway_v.Prelude.{ℕ, String, Option, List}
use orbi_pay_gateway_v.Environments.{Environment}

pub record Context : Type 0 where
  pub family_id : String
  pub service_code : String
  pub environment : Environment
  pub subject_id : String
  pub consent_id : String
  pub scopes : List String
  pub identity_issuer : String

pub record IssueInput : Type 0 where
  pub service_code : String
  pub environment : Environment
  pub subject_id : String
  pub consent_id : String
  pub scopes : List String
  pub identity_issuer : String

pub record Claims : Type 0 where
  pub aud : String
  pub sub : String
  pub azp : String
  pub service_code : String
  pub key_id : String
  pub fingerprint : String
  pub environment : Environment
  pub scopes : List String
  pub consent_id : String
  pub identity_issuer : String
  pub identity_session_id : Option String
  pub cnf_jkt : Option String
  pub iat : ℕ
  pub exp : ℕ
  pub jti : String

pub data RotationResult : Type 0 where
  rotated : String → Context → RotationResult
  reuse_detected : Context → List Claims → RotationResult
  invalid : RotationResult

pub record SubjectFilter : Type 0 where
  pub subject_id : String
  pub service_code : Option String
  pub environment : Option Environment
