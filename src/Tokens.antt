-- ===== src/Tokens.antt =====
-- security/serviceAccessToken.ts, and the texts of security/financialAccessToken.ts: a prefix, the
-- claims as base64url JSON, a dot and the signature of the claims. `hmac` is the base64url HMAC-SHA256
-- under the configured secret, `encode` writes claims as base64url JSON and `decode` reads them by their
-- schema. Times are seconds.
pub mod Data
pub mod Texts
pub mod Signatures
pub mod Revocations
mod Tests
use Prim.Native.String as Str
use Prim.Native.String.{[], ◌∷◌}
use Prim.Native.Char.{code}
use orbi_pay_gateway_v.Prelude.{
  ℕ, zero, suc, ◌+◌, min, max, Bool, true, false, not, ◌==◌, leb, nat_eq, String, Option, none,
  some, List, [], ◌∷◌, map, filter, unique, includes, add, if◌then◌else◌, Result, ok, err, ◌>>=◌,
  ◌>>◌, throw_if,
}
use orbi_pay_gateway_v.Prelude.Text.{trim, is_empty, truthy}
use orbi_pay_gateway_v.Environments.{Environment}
use orbi_pay_gateway_v.TokenExchange.Claims as Financial
use orbi_pay_gateway_v.TokenExchange.Claims.{FinancialClaims, issue_claims}
use orbi_pay_gateway_v.Tokens.Data.{
  ServiceClaims, ServiceInput, Decoded, not_json, not_claims, read, Issued, Introspection, active,
  inactive,
}

pub data Error : Type 0 where
  secret_required token_invalid schema_refused audience_invalid token_expired token_revoked : Error

-- `startsWith(prefix)` and `slice(prefix.length)`.
unfoldable pub strip_prefix : String → String → Option String
strip_prefix [] s = some s
strip_prefix (p ∷ ps) [] = none
strip_prefix (p ∷ ps) (c ∷ s) =
    let rest = strip_prefix ps s in if nat_eq (code p) (code c) then rest else none

-- The texts before and after the last dot.
unfoldable pub split_last : String → Option (String × String)
split_last [] = none
split_last (c ∷ s) = elim (split_last s) [
  | some (a, b) ↦ some (c ∷ a, b)
  | none ↦ if nat_eq (code c) 46 then some ("", s) else none
]

abbrev pub prefix : String
prefix = "orbi_at_"

abbrev pub financial_prefix : String
financial_prefix = "orbi_ft_"

pub is_service_access_token : String → Bool
is_service_access_token value = elim (strip_prefix prefix (trim value)) [
  | none ↦ false
  | some body ↦ true
]

-- `input.ttlSeconds || config…`, between 60 and 3600.
unfoldable pub service_ttl : ℕ → Option ℕ → ℕ
service_ttl configured none = max 60 (min configured 3600)
service_ttl configured (some zero) = max 60 (min configured 3600)
service_ttl configured (some (suc n)) = max 60 (min (suc n) 3600)

unfoldable pub service_claims : ℕ → ℕ → String → ServiceInput → ServiceClaims
unfolding service_ttl
service_claims configured now uuid input = record {
  sub = input.service_code;
  service_code = input.service_code;
  key_id = input.key_id;
  fingerprint = input.fingerprint;
  environment = input.environment;
  scopes = unique (filter (λ scope. not (scope == "")) (map trim input.scopes));
  cnf_jkt = truthy input.cnf_jkt;
  iat = now;
  exp = now + service_ttl configured input.ttl_seconds;
  jti = Str.◌++◌ "sat_" uuid;
}

-- The identifiers of revoked tokens, of both kinds.
pub remember_revoked : List String → List String → List String
remember_revoked [] revoked = revoked
remember_revoked (jti ∷ jtis) revoked =
    remember_revoked jtis (if trim jti == "" then revoked else add (trim jti) revoked)

module _ (secret : String) (hmac : String → String) where
  unfoldable pub sign : String → Result Error String
  sign payload = if is_empty secret then err secret_required else ok (hmac payload)

  -- The payload of a token whose signature is right.
  unfoldable pub checked_payload : String → String → Result Error String
  unfolding sign
  checked_payload start token = elim (strip_prefix start (trim token)) [
    | none ↦ err token_invalid
    | some body ↦ elim (split_last body) [
      | none ↦ err token_invalid
      | some parts ↦ do
        throw_if (is_empty parts.0) token_invalid
        expected ← sign parts.0
        throw_if (not (parts.1 == expected)) token_invalid
        ok parts.0
    ]
  ]

  -- A payload that is read by the schema of its claims.
  unfoldable pub decoded :
      {Claims : Type 0} → (String → Decoded Claims) → String → Result Error Claims
  decoded decode payload = elim (decode payload) [
    | not_json ↦ err token_invalid
    | not_claims ↦ err schema_refused
    | read claims ↦ ok claims
  ]

  unfoldable pub token_text : String → String → Result Error String
  unfolding sign
  token_text start payload = do
    signature ← sign payload
    ok (Str.◌++◌ start (Str.◌++◌ payload (Str.◌++◌ "." signature)))

  module _ (encode : ServiceClaims → String) (decode : String → Decoded ServiceClaims) where
    unfoldable pub issue_service_access_token :
        ℕ → ℕ → String → ServiceInput → Result Error (Issued ServiceClaims)
    unfolding service_claims token_text
    issue_service_access_token configured now uuid input = do
      let claims : ServiceClaims = service_claims configured now uuid input
      access_token ← token_text prefix (encode claims)
      ok (record {
        access_token = access_token;
        claims = claims;
        expires_in = service_ttl configured input.ttl_seconds;
      })

    unfoldable pub read_service_access_token_claims : ℕ → String → Result Error ServiceClaims
    unfolding checked_payload decoded
    read_service_access_token_claims now token = do
      payload ← checked_payload prefix token
      claims ← decoded decode payload
      throw_if (leb claims.exp now) token_expired
      ok claims

    unfoldable pub verify_service_access_token :
        List String → ℕ → String → Result Error ServiceClaims
    unfolding read_service_access_token_claims
    verify_service_access_token revoked now token = do
      claims ← read_service_access_token_claims now token
      throw_if (includes claims.jti revoked) token_revoked
      ok claims

    pub introspect_service_access_token : List String → ℕ → String → Introspection ServiceClaims
    unfolding verify_service_access_token
    introspect_service_access_token revoked now token =
        elim (verify_service_access_token revoked now token) [
          | err e ↦ inactive
          | ok claims ↦ active claims
        ]

    unfoldable pub revoke_service_access_token :
        ℕ → String → List String → Result Error (List String × ServiceClaims)
    unfolding verify_service_access_token
    revoke_service_access_token now token revoked = do
      claims ← verify_service_access_token revoked now token
      ok (add claims.jti revoked, claims)

  module _ (encode : FinancialClaims → String) (decode : String → Decoded FinancialClaims) where
    pub issue_financial_access_token :
        Financial.Config → ℕ → String → Financial.IssueInput → Result Error (Issued FinancialClaims)
    unfolding token_text
    issue_financial_access_token config now uuid input = do
      let claims : FinancialClaims = issue_claims config now uuid input
      access_token ← token_text financial_prefix (encode claims)
      ok (record {
        access_token = access_token;
        claims = claims;
        expires_in = Financial.token_ttl config input.ttl_seconds;
      })

    pub verify_financial_access_token :
        Financial.Config → List String → ℕ → String → Result Error FinancialClaims
    unfolding checked_payload decoded
    verify_financial_access_token config revoked now token = do
      payload ← checked_payload financial_prefix token
      claims ← decoded decode payload
      throw_if (not (claims.aud == config.audience)) audience_invalid
      throw_if (leb claims.exp now) token_expired
      throw_if (includes claims.jti revoked) token_revoked
      ok claims

-- `recordRevocation` of services/serviceAccessTokenRevocationStore.ts in memory mode.
pub record_revocation : String → List String → List String
unfolding remember_revoked
record_revocation jti revoked = remember_revoked (jti ∷ []) revoked
