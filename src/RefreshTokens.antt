-- ===== src/RefreshTokens.antt =====
-- services/refreshTokenStore.ts, mode `memory`: refresh tokens that rotate, in families that are
-- revoked together. `hash` is the hexadecimal SHA-256 of Node's crypto; the time, the random part of
-- a new token and the identifier of a new family are arguments. The store is initialized.
pub mod Data
pub mod History
pub mod Single
pub mod Family
mod Tests
use Prim.Native.String as Str
use orbi_pay_gateway_v.Prelude.{
  ℕ, ◌+◌, ◌*◌, Bool, true, false, not, ◌||◌, ◌&&◌, ◌==◌, leb, String, Option, none, some, List, [],
  ◌∷◌, ◌++◌, if◌then◌else◌, includes, add,
}
use orbi_pay_gateway_v.Prelude.Dict
use orbi_pay_gateway_v.Prelude.Dict.{Dict}
use orbi_pay_gateway_v.Prelude.Text.{truthy}
use orbi_pay_gateway_v.Environments.{Environment, env_eq}
use Data.{
  Context, IssueInput, Claims, RotationResult, rotated, reuse_detected, invalid, SubjectFilter,
}

pub record MemoryToken : Type 0 where
  pub context : Context
  pub open context use *
  pub hash : String
  pub expires_at : ℕ
  pub consumed : Bool
  pub revoked : Bool

pub record Store : Type 0 where
  pub tokens : Dict MemoryToken
  pub family_claims : Dict (List Claims)
  pub revoked_families : List String

pub empty : Store
empty = record { tokens = []; family_claims = []; revoked_families = [] }

pub new_token : String → String
new_token random = Str.◌++◌ "orbi_rt_" random

pub family_context : String → IssueInput → Context
family_context family_uuid input = record {
  family_id = Str.◌++◌ "rtf_" family_uuid;
  service_code = input.service_code;
  environment = input.environment;
  subject_id = input.subject_id;
  consent_id = input.consent_id;
  scopes = input.scopes;
  identity_issuer = input.identity_issuer;
}

abbrev pub claims_of : String → Store → List Claims
claims_of family s = elim (Dict.get family s.family_claims) [ none ↦ [] | some cs ↦ cs ]

pub revoke_family : String → Store → Store
revoke_family family s = record s { revoked_families = add family s.revoked_families }

pub is_unusable : ℕ → String → MemoryToken → Bool
is_unusable now service_code token =
    not (token.service_code == service_code) || leb token.expires_at now || token.revoked

module _ (hash : String → String) where
  pub issue : ℕ → ℕ → String → String → IssueInput → Store → Store × (String × Context)
  issue ttl_seconds now random family_uuid input s =
      let token = new_token random in
      let context = family_context family_uuid input in
      let entry : MemoryToken = record {
        context = context;
        hash = hash token;
        expires_at = now + ttl_seconds * 1000;
        consumed = false;
        revoked = false;
      } in
      (record s { tokens = Dict.set (hash token) entry s.tokens }, (token, context))

  -- The token is spent, and a copy of it is stored under the new hash.
  pub replace : String → String → MemoryToken → Store → Store
  replace old_hash rotated_token token s =
      let spent : MemoryToken = record token { consumed = true } in
      let next : MemoryToken = record spent { hash = hash rotated_token; consumed = false } in
      record s { tokens = Dict.set (hash rotated_token) next (Dict.set old_hash spent s.tokens) }

  pub rotate_token : ℕ → String → String → String → MemoryToken → Store → Store × RotationResult
  rotate_token now random old_hash service_code token s =
      if is_unusable now service_code token
      then (s, invalid)
      else if includes token.family_id s.revoked_families
      then (s, invalid)
      else if token.consumed
      then (
        revoke_family token.family_id s,
        reuse_detected token.context (claims_of token.family_id s),
      )
      else (replace old_hash (new_token random) token s, rotated (new_token random) token.context)

  pub rotate : ℕ → String → String → String → Store → Store × RotationResult
  rotate now random refresh_token service_code s = elim (Dict.get (hash refresh_token) s.tokens) [
    | none ↦ (s, invalid)
    | some token ↦ rotate_token now random (hash refresh_token) service_code token s
  ]

  pub revoke_token : String → String → Store → Store × Bool
  revoke_token refresh_token service_code s = elim (Dict.get (hash refresh_token) s.tokens) [
    | none ↦ (s, false)
    | some token ↦
        if token.service_code == service_code
        then (revoke_family token.family_id s, true)
        else (s, false)
  ]

pub record_access_token : String → Claims → Store → Store
record_access_token family claims s = record s {
  family_claims = Dict.set family (claims_of family s ++ claims ∷ []) s.family_claims;
}

pub revoke_if : (MemoryToken → Bool) → MemoryToken → Store → Store
revoke_if p t s = if p t then revoke_family t.family_id s else s

-- The loops over all tokens that revoke the families of those that match.
pub revoke_matching : (MemoryToken → Bool) → List MemoryToken → Store → Store
revoke_matching p [] s = s
revoke_matching p (t ∷ ts) s = revoke_matching p ts (revoke_if p t s)

pub revoke_by_consent : String → Store → Store
revoke_by_consent consent_id s =
    revoke_matching (λ t. t.consent_id == consent_id) (Dict.values s.tokens) s

pub revoke_by_service : String → Store → Store
revoke_by_service service_code s =
    revoke_matching (λ t. t.service_code == service_code) (Dict.values s.tokens) s

-- Not skipped by the loop of `revokeBySubject`.
pub is_of_subject : SubjectFilter → MemoryToken → Bool
is_of_subject f t =
    t.subject_id == f.subject_id
    && elim (truthy f.service_code) [ none ↦ true | some c ↦ t.service_code == c ]
    && elim f.environment [ none ↦ true | some e ↦ env_eq t.environment e ]

pub matching_claims : (MemoryToken → Bool) → List MemoryToken → Store → List Claims
matching_claims p [] s = []
matching_claims p (t ∷ ts) s =
    if p t then claims_of t.family_id s ++ matching_claims p ts s else matching_claims p ts s

pub revoke_by_subject : SubjectFilter → Store → Store × List Claims
revoke_by_subject f s =
    let tokens = Dict.values s.tokens in
    (revoke_matching (is_of_subject f) tokens s, matching_claims (is_of_subject f) tokens s)
