-- ===== src/TokenExchange/Tests.antt =====
-- An exchange on a concrete store.
use orbi_pay_gateway_v.Prelude.{
  ◌≡◌, ◌≢◌, ◌<◌, ◌≤◌, ◌+◌, refl, true, String, Option, none, some, [], ◌∷◌, ok, any, filter,
  includes, unique, unique_from, add,
}
use orbi_pay_gateway_v.Prelude.Dict
use orbi_pay_gateway_v.Prelude.Text.{truthy, trim, trim_start, trim_end, is_space}
use orbi_pay_gateway_v.Environments.{sandbox}
use orbi_pay_gateway_v.Consents as Consents
use orbi_pay_gateway_v.Consents.Data.{Receipt}
use orbi_pay_gateway_v.Consents.History.{here}
use orbi_pay_gateway_v.Consents.Tests.{receipt, agreed, agreed-Reach, reason}
use orbi_pay_gateway_v.TokenExchange.{
  Config, Identity, ExchangeInput, FinancialClaims, exchange, check_request, check_consent,
  requested, issue_input, issue_claims, token_ttl, access_token_type,
}
use orbi_pay_gateway_v.TokenExchange.Grants.{IsSubject, exchange_grants, exchange_revoked}

abbrev config : Config
config = record { audience = "core"; ttl_seconds = 300 }

abbrev asha : Identity
asha = record { subject = "asha"; issuer = "https://id.example"; session_id = none }

abbrev verify : String → Option Identity
verify token = some asha

abbrev request : ExchangeInput
request = record {
  subject_token = "jwt";
  subject_token_type = access_token_type;
  requested_token_type = none;
  audience = "core";
  scopes = " balance:read" ∷ [];
  consent_id = "consent_1";
  service_code = "shop";
  key_id = "k1";
  fingerprint = "0123456789";
  environment = sandbox;
  granted_scopes = "payments:create" ∷ "balance:read" ∷ [];
  cnf_jkt = none;
}

abbrev claims : FinancialClaims
claims = record {
  aud = "core";
  sub = "asha";
  azp = "shop";
  service_code = "shop";
  key_id = "k1";
  fingerprint = "0123456789";
  environment = sandbox;
  scopes = "balance:read" ∷ [];
  consent_id = "consent_1";
  identity_issuer = "https://id.example";
  identity_session_id = none;
  cnf = none;
  iat = 2;
  exp = 302;
  jti = "fat_x";
}

exchange_grants_example :
    (identity : Identity) × (verify "jwt" ≡ some identity)
    × (claims.sub ≡ identity.subject)
    × (r : Receipt) × (Dict.get "consent_1" agreed ≡ some r)
    × (r.revoked_at ≡ none)
    × (2000 < r.expires_at)
    × (r.service_code ≡ "shop")
    × (r.environment ≡ sandbox)
    × IsSubject identity.subject r
    × ((scope : String)
        → includes scope claims.scopes ≡ true
        → (includes scope request.granted_scopes ≡ true) × (includes scope r.scopes ≡ true))
    × (claims.iat + 60 ≤ claims.exp)
    × (claims.exp ≤ claims.iat + 600)
unfolding exchange check_request check_consent requested issue_input issue_claims token_ttl
    Consents.get Dict.get truthy trim trim_start trim_end is_space unique unique_from add includes
    any filter
exchange_grants_example = exchange_grants config verify 2000 2 "x" request agreed claims refl

exchange_revoked_example :
    exchange config verify 4000 4 "x" request (Consents.revoke 3000 "consent_1" reason agreed).0
    ≢ ok claims
unfolding Dict.get
exchange_revoked_example =
    exchange_revoked config verify 3000 4000 4 "x" request reason agreed
      (Consents.revoke 3000 "consent_1" reason agreed).0 receipt claims agreed-Reach refl here
