-- ===== src/TokenExchange/Claims.antt =====
-- security/financialAccessToken.ts: the claims of a financial access token.
use Prim.Native.String as Str
use orbi_pay_gateway_v.Prelude.{
  ℕ, zero, suc, ◌+◌, ◌≤◌, arith, min, max, String, Option, none, some, List, unique,
}
use orbi_pay_gateway_v.Prelude.Text.{truthy}
use orbi_pay_gateway_v.Environments.{Environment}

pub record Config : Type 0 where
  pub audience : String
  pub ttl_seconds : ℕ

pub record IssueInput : Type 0 where
  pub subject : String
  pub service_code : String
  pub key_id : String
  pub fingerprint : String
  pub environment : Environment
  pub scopes : List String
  pub consent_id : String
  pub identity_issuer : String
  pub identity_session_id : Option String
  pub cnf_jkt : Option String
  pub audience : Option String
  pub ttl_seconds : Option ℕ

pub record Cnf : Type 0 where
  pub jkt : String

-- The literal claims `iss` and `typ` are left out.
pub record FinancialClaims : Type 0 where
  pub aud : String
  pub sub : String
  pub azp : String
  pub service_code : String
  pub key_id : String
  pub fingerprint : String
  pub environment : Environment
  pub scopes : List String
  pub consent_id : String
  pub identity_issuer : String
  pub identity_session_id : Option String
  pub cnf : Option Cnf
  pub iat : ℕ
  pub exp : ℕ
  pub jti : String

-- `input.ttlSeconds || config…`, between 60 and 600.
unfoldable pub token_ttl : Config → Option ℕ → ℕ
token_ttl config none = max 60 (min config.ttl_seconds 600)
token_ttl config (some zero) = max 60 (min config.ttl_seconds 600)
token_ttl config (some (suc n)) = max 60 (min (suc n) 600)

abbrev pub bound_key : Option String → Option Cnf
bound_key jkt = elim (truthy jkt) [ none ↦ none | some t ↦ some (record { jkt = t }) ]

abbrev pub or_audience : Config → Option String → String
or_audience config a = elim (truthy a) [ none ↦ config.audience | some t ↦ t ]

unfoldable pub issue_claims : Config → ℕ → String → IssueInput → FinancialClaims
unfolding token_ttl
issue_claims config now random input = record {
  aud = or_audience config input.audience;
  sub = input.subject;
  azp = input.service_code;
  service_code = input.service_code;
  key_id = input.key_id;
  fingerprint = input.fingerprint;
  environment = input.environment;
  scopes = unique input.scopes;
  consent_id = input.consent_id;
  identity_issuer = input.identity_issuer;
  identity_session_id = input.identity_session_id;
  cnf = bound_key input.cnf_jkt;
  iat = now;
  exp = now + token_ttl config input.ttl_seconds;
  jti = Str.◌++◌ "fat_" random;
}

pub token_ttl-bounds :
    (config : Config) (ttl : Option ℕ) → (60 ≤ token_ttl config ttl) × (token_ttl config ttl ≤ 600)
unfolding token_ttl
token_ttl-bounds config none = (omega arith, omega arith)
token_ttl-bounds config (some zero) = (omega arith, omega arith)
token_ttl-bounds config (some (suc n)) = (omega arith, omega arith)
