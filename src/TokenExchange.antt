-- ===== src/TokenExchange.antt =====
-- services/financialTokenExchange.ts, with the claims that security/financialAccessToken.ts puts into a
-- token. `verify` is the identity verifier that the service is built with; the signed text of a token
-- is left out. `now` is the time in seconds, `now_ms` the same moment for the consent store.
pub mod Claims
pub mod Grants
mod Tests
pub use Claims.{Config, IssueInput, Cnf, FinancialClaims, token_ttl-bounds}
unfoldable pub use Claims.{token_ttl, issue_claims}
use orbi_pay_gateway_v.Prelude.{
  ℕ, Bool, true, false, not, ◌||◌, ◌&&◌, ◌==◌, String, Option, none, some, List, [], ◌∷◌,
  if◌then◌else◌, Result, ok, err, throw_if, ◌>>◌, ◌>>=◌, any, filter, map, includes, unique,
}
use orbi_pay_gateway_v.Prelude.Text.{trim, truthy, is_empty}
use orbi_pay_gateway_v.Environments.{Environment, env_eq}
use orbi_pay_gateway_v.Consents as Consents
use orbi_pay_gateway_v.Consents.Data.{Receipt, active, status_eq}

-- What the exchange uses of a verified identity.
pub record Identity : Type 0 where
  pub subject : String
  pub issuer : String
  pub session_id : Option String

pub record ExchangeInput : Type 0 where
  pub subject_token : String
  pub subject_token_type : String
  pub requested_token_type : Option String
  pub audience : String
  pub scopes : List String
  pub consent_id : String
  pub service_code : String
  pub key_id : String
  pub fingerprint : String
  pub environment : Environment
  pub granted_scopes : List String
  pub cnf_jkt : Option String

pub data Error : Type 0 where
  subject_token_type_unsupported requested_token_type_unsupported audience_invalid scope_not_granted
        identity_invalid consent_receipt_not_found consent_required consent_client_mismatch
        consent_environment_mismatch consent_subject_mismatch consent_scope_mismatch :
      Error

abbrev pub access_token_type : String
access_token_type = "urn:ietf:params:oauth:token-type:access_token"

-- `[...new Set(scopes.map(trim).filter(Boolean))]`
pub requested : List String → List String
requested scopes = unique (filter (λ scope. not (is_empty scope)) (map trim scopes))

abbrev pub no_scopes : List String → Bool
no_scopes [] = true
no_scopes (_ ∷ _) = false

pub check_request : Config → ExchangeInput → Result Error (List String)
unfolding requested
check_request config input =
    let scopes = requested input.scopes in
    throw_if (not (input.subject_token_type == access_token_type)) subject_token_type_unsupported
    >> throw_if
        (elim (truthy input.requested_token_type) [
          | none ↦ false
          | some t ↦ not (t == access_token_type)
        ])
        requested_token_type_unsupported
    >> throw_if (not (input.audience == config.audience)) audience_invalid
    >> throw_if
        (no_scopes scopes || any (λ scope. not (includes scope input.granted_scopes)) scopes)
        scope_not_granted
    >> ok scopes

abbrev pub is_external : Option String → String → Bool
is_external none subject = false
is_external (some external) subject = external == subject

pub check_consent : ExchangeInput → List String → String → Receipt → Result Error Receipt
check_consent input scopes subject consent =
    throw_if (not (status_eq consent.status active)) consent_required
    >> throw_if (not (consent.service_code == input.service_code)) consent_client_mismatch
    >> throw_if (not (env_eq consent.environment input.environment)) consent_environment_mismatch
    >> throw_if
        (not (consent.subject_id == subject)
          && not (is_external consent.external_subject_id subject))
        consent_subject_mismatch
    >> throw_if (any (λ scope. not (includes scope consent.scopes)) scopes) consent_scope_mismatch
    >> ok consent

abbrev pub get_consent : ℕ → String → Consents.Store → Result Error Receipt
get_consent now consent_id s = elim (Consents.get now consent_id s) [
  | err _ ↦ err consent_receipt_not_found
  | ok consent ↦ ok consent
]

pub issue_input : ExchangeInput → List String → Identity → Receipt → IssueInput
issue_input input scopes identity consent = record {
  subject = identity.subject;
  service_code = input.service_code;
  key_id = input.key_id;
  fingerprint = input.fingerprint;
  environment = input.environment;
  scopes = scopes;
  consent_id = consent.consent_id;
  identity_issuer = identity.issuer;
  identity_session_id = identity.session_id;
  cnf_jkt = input.cnf_jkt;
  audience = some input.audience;
  ttl_seconds = none;
}

module _ (config : Config) (verify : String → Option Identity) where
  pub exchange : ℕ → ℕ → String → ExchangeInput → Consents.Store → Result Error FinancialClaims
  exchange now_ms now random input s = check_request config input >>= λ scopes.
      elim (verify input.subject_token) [
        | none ↦ err identity_invalid
        | some identity ↦ get_consent now_ms input.consent_id s >>= λ found.
            check_consent input scopes identity.subject found >>= λ consent.
            ok (issue_claims config now random (issue_input input scopes identity consent))
      ]
