-- ===== src/TokenExchange/Grants.antt =====
-- services/financialTokenExchange.ts: what a token is granted for.
use mathlib.Core.Path.{subst}
use orbi_pay_gateway_v.Prelude.{
  ℕ, ◌+◌, ◌≤◌, ◌<◌, ◌≡◌, ◌≢◌, sym, ap, ◌∙◌, ◌⊎◌, inl, inr, Bool, true, false, not, ◌||◌, ◌&&◌, ◌==◌,
  String, Option, none, some, List, [], ok, ◌>>=◌, >>=-eq-ok, throw_if-ok, ok-eq, any, includes,
  unique, includes-unique, includes-In, arith, eq_iff, Option-cases, eq-cases, any-false-In,
}
use orbi_pay_gateway_v.Prelude.Dict
use orbi_pay_gateway_v.Environments.{env_eq, env_eq_iff}
use orbi_pay_gateway_v.Consents as Consents
use orbi_pay_gateway_v.Consents.Data.{Receipt, Revocation, active, status_eq}
use orbi_pay_gateway_v.Consents.History.{Reach, get-missing, get-found, revoke_final}
use orbi_pay_gateway_v.TokenExchange.{
  Config, FinancialClaims, token_ttl-bounds, issue_claims, Identity, ExchangeInput, Error,
  check_request, check_consent, get_consent, issue_input, is_external, exchange,
}

check_request_granted :
    (config : Config) (input : ExchangeInput) (scopes : List String)
    → check_request config input ≡ ok scopes
    → any (λ scope. not (includes scope input.granted_scopes)) scopes ≡ false
unfolding check_request
check_request_granted config input scopes e = ground arith

not-false : (b : Bool) → not b ≡ false → b ≡ true
not-false b h = ground arith

either : (a b : Bool) → (not a && not b) ≡ false → (a || b) ≡ true
either a b h = ground arith

check_consent_parts :
    (input : ExchangeInput) (scopes : List String) (subject : String) (r x : Receipt)
    → check_consent input scopes subject r ≡ ok x
    → (r ≡ x)
      × (status_eq r.status active ≡ true)
      × (r.service_code ≡ input.service_code)
      × (r.environment ≡ input.environment)
      × (((r.subject_id == subject) || is_external r.external_subject_id subject) ≡ true)
      × (any (λ scope. not (includes scope r.scopes)) scopes ≡ false)
unfolding check_consent
check_consent_parts input scopes subject r x e =
    let (a, e1) = throw_if-ok (not (status_eq r.status active)) Error.consent_required _ e in
    let (b, e2) =
      throw_if-ok (not (r.service_code == input.service_code)) Error.consent_client_mismatch _ e1 in
    let (c, e3) =
      throw_if-ok (not (env_eq r.environment input.environment)) Error.consent_environment_mismatch
        _ e2 in
    let (d, e4) =
      throw_if-ok (not (r.subject_id == subject) && not (is_external r.external_subject_id subject))
        Error.consent_subject_mismatch _ e3 in
    let (f, e5) =
      throw_if-ok (any (λ scope. not (includes scope r.scopes)) scopes) Error.consent_scope_mismatch
        _ e4 in
    (
      ok-eq e5,
      not-false _ a,
      (eq_iff r.service_code input.service_code).0 (not-false _ b),
      (env_eq_iff r.environment input.environment).0 (not-false _ c),
      either _ _ d,
      f,
    )

-- The subject of the token, by its own id or by the service's.
abbrev pub IsSubject : String → Receipt → Type 0
IsSubject subject r = (r.subject_id ≡ subject) ⊎ (r.external_subject_id ≡ some subject)

is_subject :
    (subject : String) (r : Receipt)
    → ((r.subject_id == subject) || is_external r.external_subject_id subject) ≡ true
    → IsSubject subject r
is_subject subject r h = elim (eq-cases r.subject_id subject) [
  | inl (p, _) ↦ inl p
  | inr (_, q) ↦ elim (Option-cases r.external_subject_id) [
    | inl none_given ↦ absurd (ground arith)
    | inr (external, given) ↦ inr (given ∙ ap some ((eq_iff external subject).0 (ground arith)))
  ]
]

get_consent_found :
    (now : ℕ) (consent_id : String) (s : Consents.Store) {x : Receipt}
    → get_consent now consent_id s ≡ ok x
    → (r : Receipt) × (Dict.get consent_id s ≡ some r) × (x ≡ Consents.parse_receipt now r)
get_consent_found now consent_id s {x} e = elim (Option-cases (Dict.get consent_id s)) [
  | inl missing ↦ absurd (cc (rw (get-missing now consent_id s missing, get_consent) at e))
  | inr (r, found) ↦
      (r, found, sym (ok-eq (rw (get-found now consent_id s found, get_consent) at e)))
]

get_consent-ok :
    (now : ℕ) (consent_id : String) (s : Consents.Store) {r : Receipt}
    → Consents.get now consent_id s ≡ ok r
    → get_consent now consent_id s ≡ ok r
get_consent-ok now consent_id s e = rw (e, get_consent)

derive_active :
    (now : ℕ) (r : Receipt)
    → status_eq (Consents.derive_status now r) active ≡ true
    → (r.revoked_at ≡ none) × (now < r.expires_at)
derive_active now r h = (ground arith, ground arith)

granted :
    (scopes granted_scopes : List String) (scope : String)
    → any (λ scope. not (includes scope granted_scopes)) scopes ≡ false
    → includes scope (unique scopes) ≡ true
    → includes scope granted_scopes ≡ true
granted scopes granted_scopes scope h i = not-false _ (
    any-false-In (λ scope. not (includes scope granted_scopes)) scopes scope h
      (includes-In scope scopes (sym (includes-unique scope scopes) ∙ i)))

module _ (config : Config) (verify : String → Option Identity) where
  exchange_parts :
      (now_ms now : ℕ) (random : String) (input : ExchangeInput) (s : Consents.Store)
      {claims : FinancialClaims}
      → exchange config verify now_ms now random input s ≡ ok claims
      → (scopes : List String) × (check_request config input ≡ ok scopes)
        × (identity : Identity) × (verify input.subject_token ≡ some identity)
        × (r : Receipt) × (get_consent now_ms input.consent_id s ≡ ok r)
        × (check_consent input scopes identity.subject r ≡ ok r)
        × (issue_claims config now random (issue_input input scopes identity r) ≡ claims)
  unfolding exchange
  exchange_parts now_ms now random input s {claims} e =
      let (scopes, a, e1) = >>=-eq-ok (check_request config input) _ e in
      elim (Option-cases (verify input.subject_token)) [
        | inl missing ↦ absurd (cc (rw (missing) at e1))
        | inr (identity, known) ↦ granted_to scopes a identity known (rw (known) at e1)
      ]
    where
      granted_to :
          (scopes : List String)
          → check_request config input ≡ ok scopes
          → (identity : Identity) → verify input.subject_token ≡ some identity
          → (get_consent now_ms input.consent_id s >>= λ found.
              check_consent input scopes identity.subject found >>= λ consent.
              ok (issue_claims config now random (issue_input input scopes identity consent)))
            ≡ ok claims
          → (scopes : List String) × (check_request config input ≡ ok scopes)
            × (identity : Identity) × (verify input.subject_token ≡ some identity)
            × (r : Receipt) × (get_consent now_ms input.consent_id s ≡ ok r)
            × (check_consent input scopes identity.subject r ≡ ok r)
            × (issue_claims config now random (issue_input input scopes identity r) ≡ claims)
      granted_to scopes a identity known e =
          let (r, c, e2) = >>=-eq-ok (get_consent now_ms input.consent_id s) _ e in
          let (x, d, e3) = >>=-eq-ok (check_consent input scopes identity.subject r) _ e2 in
          let same = (check_consent_parts input scopes identity.subject r x d).0 in
          (
            scopes,
            a,
            identity,
            known,
            r,
            c,
            d ∙ ap ok (sym same),
            ap (λ y. issue_claims config now random (issue_input input scopes identity y)) same
                ∙ ok-eq e3,
          )

  -- If a token is granted, its subject was verified, and the receipt named in the request is stored,
  -- is not revoked, has not run out, and is of the service, the environment and the subject. Every
  -- scope of the token was granted to the service and agreed to in the receipt. The token lives
  -- between 60 and 600 seconds.
  pub exchange_grants :
      (now_ms now : ℕ) (random : String) (input : ExchangeInput) (s : Consents.Store)
      (claims : FinancialClaims)
      → exchange config verify now_ms now random input s ≡ ok claims
      → (identity : Identity) × (verify input.subject_token ≡ some identity)
        × (claims.sub ≡ identity.subject)
        × (r : Receipt) × (Dict.get input.consent_id s ≡ some r)
        × (r.revoked_at ≡ none)
        × (now_ms < r.expires_at)
        × (r.service_code ≡ input.service_code)
        × (r.environment ≡ input.environment)
        × IsSubject identity.subject r
        × ((scope : String)
            → includes scope claims.scopes ≡ true
            → (includes scope input.granted_scopes ≡ true) × (includes scope r.scopes ≡ true))
        × (claims.iat + 60 ≤ claims.exp)
        × (claims.exp ≤ claims.iat + 600)
  unfolding issue_claims issue_input
  exchange_grants now_ms now random input s claims e =
      let (scopes, a, identity, known, x, c, d, issued) =
        exchange_parts now_ms now random input s e in
      let (r, found, parsed) = get_consent_found now_ms input.consent_id s c in
      let checked = subst (λ y. check_consent input scopes identity.subject y ≡ ok y) parsed d in
      let (_, standing, service, environment, subject, agreed) =
        check_consent_parts input scopes identity.subject (Consents.parse_receipt now_ms r) _
          checked in
      let (kept, fresh) = derive_active now_ms r standing in
      let (least, most) = token_ttl-bounds config none in
      (
        identity,
        known,
        sym (ap (λ (y : FinancialClaims). y.sub) issued),
        r,
        found,
        kept,
        fresh,
        service,
        environment,
        is_subject identity.subject r subject,
        λ scope i.
            let j = ap (λ (y : FinancialClaims). includes scope y.scopes) issued ∙ i in
            (
              granted scopes input.granted_scopes scope
                  (check_request_granted config input scopes a) j,
              granted scopes r.scopes scope agreed j,
            ),
        subst (λ (y : FinancialClaims). y.iat + 60 ≤ y.exp) issued (omega arith),
        subst (λ (y : FinancialClaims). y.exp ≤ y.iat + 600) issued (omega arith),
      )

  -- A revocation ends the exchange: once a receipt that the store holds was asked to be revoked, no
  -- request that names it gets a token at any later time, whatever calls of the consent store came
  -- before, on the empty store, and follow, in which the identifiers of new receipts are not in use.
  pub exchange_revoked :
      (now_ms later_ms later : ℕ) (random : String) (input : ExchangeInput) (reason : Revocation)
      (s u : Consents.Store) (r : Receipt) (claims : FinancialClaims)
      → Reach [] s
      → Dict.get input.consent_id s ≡ some r
      → Reach (Consents.revoke now_ms input.consent_id reason s).0 u
      → exchange config verify later_ms later random input u ≢ ok claims
  exchange_revoked now_ms later_ms later random input reason s u r claims start found reach e =
      let (scopes, _, identity, _, x, c, d, _) = exchange_parts later_ms later random input u e in
      let (y, read, ended) =
        revoke_final now_ms later_ms input.consent_id reason s u r start found reach in
      let same = ok-eq (sym c ∙ get_consent-ok later_ms input.consent_id u read) in
      let active_now = (check_consent_parts input scopes identity.subject x x d).1 in
      absurd (
        cc (
          sym active_now
          ∙ ap (λ (z : Receipt). status_eq z.status active) same
          ∙ ap (λ z. status_eq z active) ended))
