-- ===== src/OAuth.antt =====
-- services/oauthAuthorizationStore.ts: authorization requests and authorization codes, two tables.
-- `hash` is the hexadecimal SHA-256 and `challenge_of` the base64url SHA-256 of Node's crypto; `now`
-- is the time of the call, for the database and for the process.
pub mod Data
pub mod Transitions
pub mod Codes
mod Tests
use Prim.Native.String as Str
use orbi_pay_gateway_v.Prelude.{
  ℕ, ◌+◌, ◌*◌, Bool, true, false, not, ◌||◌, ◌&&◌, ◌==◌, ltb, leb, String, Option, none, some, List,
  [], ◌∷◌, if◌then◌else◌, Result, ok, err, any, find, filter,
}
use orbi_pay_gateway_v.Prelude.Text.{truthy}
use orbi_pay_gateway_v.Sql.{update_where, returning, single}
use Data.{
  Vault, AuthorizationRecord, AuthorizationRow, Status, pending_identity, pending_consent, approved,
  denied, is_status, CodeRow, AuthorizationCode, Error, unique_violation, state_invalid,
  request_invalid, subject_required, code_invalid, client_mismatch, pkce_verifier_invalid, Decision,
  status_of,
}

module _ (vault : Vault) (hash : String → String) where
  open vault use {Sealed, encrypt, decrypt}

  pub new_row : AuthorizationRecord → AuthorizationRow vault
  new_row input = record {
    request_id = input.request_id;
    upstream_state_hash = hash input.upstream_state;
    service_code = input.service_code;
    environment = input.environment;
    redirect_uri = input.redirect_uri;
    requested_scopes = input.requested_scopes;
    client_state = input.client_state;
    code_challenge = input.code_challenge;
    nonce = input.nonce;
    upstream_verifier = encrypt input.upstream_verifier;
    approval_token = encrypt input.approval_token;
    approval_token_hash = hash input.approval_token;
    subject_id = none;
    status = pending_identity;
    expires_at = input.expires_at;
  }

  -- The primary key and the unique column.
  pub conflicts : AuthorizationRow vault → AuthorizationRow vault → Bool
  conflicts row r =
      r.request_id == row.request_id || r.upstream_state_hash == row.upstream_state_hash

  pub create :
      AuthorizationRecord
      → List (AuthorizationRow vault)
      → Result Error (List (AuthorizationRow vault))
  unfolding new_row conflicts
  create input rows =
      let row = new_row input in
      if any (conflicts row) rows then err unique_violation else ok (row ∷ rows)

  pub from_row : AuthorizationRow vault → AuthorizationRecord
  from_row r = record {
    request_id = r.request_id;
    upstream_state = "";
    service_code = r.service_code;
    environment = r.environment;
    redirect_uri = r.redirect_uri;
    requested_scopes = r.requested_scopes;
    client_state = r.client_state;
    code_challenge = r.code_challenge;
    nonce = r.nonce;
    upstream_verifier = decrypt r.upstream_verifier;
    approval_token = decrypt r.approval_token;
    subject_id = truthy r.subject_id;
    status = r.status;
    expires_at = r.expires_at;
  }

  pub is_open : Status → ℕ → AuthorizationRow vault → Bool
  is_open status now r = is_status r.status status && ltb now r.expires_at

  abbrev pub answer : Error → List (AuthorizationRow vault) → Result Error AuthorizationRecord
  answer e rows = elim (single e rows) [ err x ↦ err x | ok r ↦ ok (from_row r) ]

  pub awaits_identity : String → ℕ → AuthorizationRow vault → Bool
  awaits_identity upstream_state now r =
      r.upstream_state_hash == hash upstream_state && is_open pending_identity now r

  abbrev identified : String → AuthorizationRow vault → AuthorizationRow vault
  identified subject_id r = record r { subject_id = some subject_id; status = pending_consent }

  pub complete_identity :
      ℕ
      → String
      → String
      → List (AuthorizationRow vault)
      → List (AuthorizationRow vault) × Result Error AuthorizationRecord
  complete_identity now upstream_state subject_id rows = (
    update_where (awaits_identity upstream_state now) (identified subject_id) rows,
    answer state_invalid
        (returning (awaits_identity upstream_state now) (identified subject_id) rows),
  )

  pub awaits_consent : String → String → ℕ → AuthorizationRow vault → Bool
  awaits_consent request_id approval_token now r =
      r.request_id == request_id
      && r.approval_token_hash == hash approval_token
      && is_open pending_consent now r

  pub get_for_consent :
      ℕ → String → String → List (AuthorizationRow vault) → Result Error AuthorizationRecord
  get_for_consent now request_id approval_token rows =
      answer request_invalid (filter (awaits_consent request_id approval_token now) rows)

  pub awaits_subject : String → ℕ → AuthorizationRow vault → Bool
  awaits_subject request_id now r = r.request_id == request_id && is_open pending_consent now r

  abbrev with_subject : String → AuthorizationRow vault → AuthorizationRow vault
  with_subject subject_id r = record r { subject_id = some subject_id }

  pub replace_pending_subject :
      ℕ
      → String
      → String
      → List (AuthorizationRow vault)
      → List (AuthorizationRow vault) × Result Error AuthorizationRecord
  replace_pending_subject now request_id subject_id rows = (
    update_where (awaits_subject request_id now) (with_subject subject_id) rows,
    answer request_invalid
        (returning (awaits_subject request_id now) (with_subject subject_id) rows),
  )

  abbrev decided : Decision → AuthorizationRow vault → AuthorizationRow vault
  decided decision r = record r { status = status_of decision }

  pub decide :
      ℕ
      → String
      → String
      → Decision
      → List (AuthorizationRow vault)
      → List (AuthorizationRow vault) × Result Error AuthorizationRecord
  decide now request_id approval_token decision rows = (
    update_where (awaits_consent request_id approval_token now) (decided decision) rows,
    answer request_invalid
        (returning (awaits_consent request_id approval_token now) (decided decision) rows),
  )

abbrev pub is_spent : ℕ → CodeRow → Bool
is_spent now row = elim row.consumed_at [ none ↦ leb row.expires_at now | some _ ↦ true ]

abbrev pub code_of : CodeRow → AuthorizationCode
code_of row = record {
  service_code = row.service_code;
  environment = row.environment;
  redirect_uri = row.redirect_uri;
  scopes = row.scopes;
  subject_id = row.subject_id;
  consent_id = row.consent_id;
  code_challenge = row.code_challenge;
}

-- The checks on the locked row, in their order.
pub check_code :
    (String → String) → ℕ → String → String → String → Option CodeRow → Result Error CodeRow
check_code challenge_of now service_code redirect_uri verifier none = err code_invalid
check_code challenge_of now service_code redirect_uri verifier (some row) =
    if is_spent now row
    then err code_invalid
    else if not (row.service_code == service_code) || not (row.redirect_uri == redirect_uri)
    then err client_mismatch
    else if row.code_challenge == challenge_of verifier
    then ok row
    else err pkce_verifier_invalid

module _ (hash : String → String) where
  pub issue_code :
      ℕ
      → String
      → AuthorizationRecord
      → String
      → ℕ
      → List CodeRow
      → Result Error (List CodeRow × String)
  issue_code now random r consent_id ttl_seconds codes = elim (truthy r.subject_id) [
    | none ↦ err subject_required
    | some subject_id ↦
        let code = Str.◌++◌ "orbi_ac_" random in
        let row : CodeRow = record {
          code_hash = hash code;
          service_code = r.service_code;
          environment = r.environment;
          redirect_uri = r.redirect_uri;
          scopes = r.requested_scopes;
          subject_id = subject_id;
          consent_id = consent_id;
          code_challenge = r.code_challenge;
          expires_at = now + ttl_seconds * 1000;
          consumed_at = none;
        } in
        if any (λ c. c.code_hash == hash code) codes
        then err unique_violation
        else ok (row ∷ codes, code)
  ]

  -- A refusal rolls the transaction back.
  pub consume_code :
      (String → String)
      → ℕ
      → String
      → String
      → String
      → String
      → List CodeRow
      → List CodeRow × Result Error AuthorizationCode
  consume_code challenge_of now code service_code redirect_uri verifier codes =
      elim (check_code challenge_of now service_code redirect_uri verifier
        (find (λ c. c.code_hash == hash code) codes)) [
          | err e ↦ (codes, err e)
          | ok row ↦ (
            update_where (λ c. c.code_hash == hash code) (λ c. record c { consumed_at = some now })
                codes,
            ok (code_of row),
          )
        ]
