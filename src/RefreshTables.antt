-- ===== src/RefreshTables.antt =====
-- services/refreshTokenStore.ts, mode `postgres`: the families and the tokens as two tables. A refusal
-- or a violated key rolls the transaction back. `hash`, the time and the random parts are arguments,
-- as in the memory mode; the receipts that families refer to are there.
pub mod History
pub mod Rotation
mod Tests
use Prim.Native.String as Str
use orbi_pay_gateway_v.Prelude.{
  ℕ, ◌+◌, ◌*◌, Bool, true, false, not, ◌||◌, ◌&&◌, ◌==◌, leb, String, Option, none, some, List, [],
  ◌∷◌, ◌++◌, if◌then◌else◌, Result, ok, err, any, find, map, includes,
}
use orbi_pay_gateway_v.Prelude.Text.{truthy}
use orbi_pay_gateway_v.Environments.{Environment, env_eq}
use orbi_pay_gateway_v.Sql.{update_where, returning}
use orbi_pay_gateway_v.RefreshTokens.Data.{
  Context, IssueInput, Claims, RotationResult, rotated, reuse_detected, invalid, SubjectFilter,
}

pub record Family : Type 0 where
  pub context : Context
  pub open context use *
  pub access_token_claims : List Claims
  pub absolute_expires_at : ℕ
  pub revoked_at : Option ℕ
  pub revoke_reason : Option String
  pub updated_at : ℕ

pub record TokenRow : Type 0 where
  pub token_hash : String
  pub family_id : String
  pub expires_at : ℕ
  pub consumed_at : Option ℕ
  pub revoked_at : Option ℕ

pub record Tables : Type 0 where
  pub families : List Family
  pub tokens : List TokenRow

pub record Lifetimes : Type 0 where
  pub ttl_seconds : ℕ
  pub absolute_ttl_seconds : ℕ

pub data Error : Type 0 where
  unique_violation : Error

abbrev pub has_hash : String → TokenRow → Bool
has_hash h t = t.token_hash == h

abbrev pub is_family : String → Family → Bool
is_family id f = f.family_id == id

abbrev pub is_set : Option ℕ → Bool
is_set none = false
is_set (some _) = true

-- `COALESCE(revoked_at, now())`
abbrev pub coalesce : Option ℕ → ℕ → Option ℕ
coalesce none now = some now
coalesce (some t) now = some t

abbrev pub end_family : ℕ → String → Family → Family
end_family now reason f = record f {
  revoked_at = coalesce f.revoked_at now;
  revoke_reason = some reason;
  updated_at = now;
}

abbrev pub end_token : ℕ → TokenRow → TokenRow
end_token now t = record t { revoked_at = coalesce t.revoked_at now }

-- Both updates of a revocation; for no family the second changes nothing.
pub revoke_families : ℕ → String → (Family → Bool) → Tables → Tables
revoke_families now reason p s =
    let ids = map (λ (f : Family). f.family_id) (returning p (end_family now reason) s.families) in
    record {
      families = update_where p (end_family now reason) s.families;
      tokens = update_where (λ t. includes t.family_id ids) (end_token now) s.tokens;
    }

pub token_row : Lifetimes → ℕ → String → String → TokenRow
token_row lifetimes now h family_id = record {
  token_hash = h;
  family_id = family_id;
  expires_at = now + lifetimes.ttl_seconds * 1000;
  consumed_at = none;
  revoked_at = none;
}

pub insert_token : Lifetimes → ℕ → String → String → Tables → Result Error Tables
unfolding token_row
insert_token lifetimes now h family_id s =
    if any (has_hash h) s.tokens
    then err unique_violation
    else ok (record s { tokens = token_row lifetimes now h family_id ∷ s.tokens })

-- The join of a token with its family.
pub select_token : String → Tables → Option (TokenRow × Family)
select_token h s = elim (find (has_hash h) s.tokens) [
  | none ↦ none
  | some t ↦ elim (find (is_family t.family_id) s.families) [ none ↦ none | some f ↦ some (t, f) ]
]

abbrev pub is_unusable : ℕ → String → TokenRow → Family → Bool
is_unusable now service_code t f =
    not (f.service_code == service_code)
    || is_set t.revoked_at
    || leb t.expires_at now
    || leb f.absolute_expires_at now

abbrev pub consume : ℕ → TokenRow → TokenRow
consume now t = record t { consumed_at = some now }

abbrev pub touch : ℕ → Family → Family
touch now f = record f { updated_at = now }

pub new_context : String → IssueInput → Context
new_context family_uuid input = record {
  family_id = Str.◌++◌ "rtf_" family_uuid;
  service_code = input.service_code;
  environment = input.environment;
  subject_id = input.subject_id;
  consent_id = input.consent_id;
  scopes = input.scopes;
  identity_issuer = input.identity_issuer;
}

abbrev pub new_family : Lifetimes → ℕ → Context → Family
new_family lifetimes now context = record {
  context = context;
  access_token_claims = [];
  absolute_expires_at = now + lifetimes.absolute_ttl_seconds * 1000;
  revoked_at = none;
  revoke_reason = none;
  updated_at = now;
}

module _ (hash : String → String) (lifetimes : Lifetimes) where
  pub issue : ℕ → String → String → IssueInput → Tables → Result Error (Tables × (String × Context))
  unfolding new_context
  issue now random family_uuid input s =
      let token = Str.◌++◌ "orbi_rt_" random in
      let context = new_context family_uuid input in
      if any (is_family context.family_id) s.families
      then err unique_violation
      else elim (insert_token lifetimes now (hash token) context.family_id
          (record s { families = new_family lifetimes now context ∷ s.families })) [
            | err e ↦ err e
            | ok t ↦ ok (t, (token, context))
          ]

  -- The token is used and a new one of its family inserted.
  pub replace : ℕ → String → String → Family → Tables → Result Error (Tables × RotationResult)
  replace now h random f s =
      let token = Str.◌++◌ "orbi_rt_" random in
      elim (insert_token lifetimes now (hash token) f.family_id
        (record s { tokens = update_where (has_hash h) (consume now) s.tokens })) [
          | err e ↦ err e
          | ok t ↦ ok (
            record t { families = update_where (is_family f.family_id) (touch now) t.families },
            rotated token f.context,
          )
        ]

  pub rotate_row :
      ℕ
      → String
      → String
      → String
      → TokenRow
      → Family
      → Tables
      → Result Error (Tables × RotationResult)
  rotate_row now random h service_code t f s =
      if is_unusable now service_code t f
      then ok (s, invalid)
      else if is_set f.revoked_at
      then ok (s, invalid)
      else if is_set t.consumed_at
      then ok (
        revoke_families now "refresh_token_reuse" (is_family f.family_id) s,
        reuse_detected f.context f.access_token_claims,
      )
      else replace now h random f s

  pub rotate : ℕ → String → String → String → Tables → Result Error (Tables × RotationResult)
  rotate now random refresh_token service_code s = elim (select_token (hash refresh_token) s) [
    | none ↦ ok (s, invalid)
    | some (t, f) ↦ rotate_row now random (hash refresh_token) service_code t f s
  ]

  pub revoke_token : ℕ → String → String → String → Tables → Tables × Bool
  revoke_token now reason refresh_token service_code s =
      elim (select_token (hash refresh_token) s) [
        | none ↦ (s, false)
        | some (t, f) ↦
            if f.service_code == service_code
            then (revoke_families now reason (is_family f.family_id) s, true)
            else (s, false)
      ]

pub record_access_token : ℕ → String → Claims → Tables → Tables
record_access_token now family_id claims s = record s {
  families =
      update_where (λ f. is_family family_id f && not (is_set f.revoked_at))
        (λ f. record f {
          access_token_claims = f.access_token_claims ++ claims ∷ [];
          updated_at = now;
        })
        s.families;
}

pub revoke_by_consent : ℕ → String → String → Tables → Tables
revoke_by_consent now reason consent_id =
    revoke_families now reason (λ f. f.consent_id == consent_id)

pub revoke_by_service : ℕ → String → String → Tables → Tables
revoke_by_service now reason service_code =
    revoke_families now reason (λ f. f.service_code == service_code)

pub is_of_subject : SubjectFilter → Family → Bool
is_of_subject filter f =
    f.subject_id == filter.subject_id
    && elim (truthy filter.service_code) [ none ↦ true | some c ↦ f.service_code == c ]
    && elim filter.environment [ none ↦ true | some e ↦ env_eq f.environment e ]

pub all_claims : List Family → List Claims
all_claims [] = []
all_claims (f ∷ fs) = f.access_token_claims ++ all_claims fs

pub revoke_by_subject : ℕ → String → SubjectFilter → Tables → Tables × List Claims
revoke_by_subject now reason filter s = (
  revoke_families now reason (is_of_subject filter) s,
  all_claims (returning (is_of_subject filter) (end_family now reason) s.families),
)
