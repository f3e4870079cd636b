-- ===== src/ServiceConsents/Guard.antt =====
-- services/serviceConsentGuard.ts: what a call that passed the guard may rely on.
use orbi_pay_gateway_v.Prelude.{
  ℕ, ◌<◌, ◌≡◌, ◌↔◌, true, false, not, String, Option, none, some, List, [], ◌∷◌, ok, throw_if, ◌>>◌,
  includes, In, arith, eq_refl, eq_iff, Option-cases, some-eq, sym, ◌∙◌, ◌⊎◌, inl, inr,
}
use orbi_pay_gateway_v.Prelude.Dict
use orbi_pay_gateway_v.Prelude.Text.{is_empty, slug}
use orbi_pay_gateway_v.Environments.{Environment}
use orbi_pay_gateway_v.Consents as Consents
use orbi_pay_gateway_v.Consents.Data.{Receipt, Question, revoked, status_eq}
use orbi_pay_gateway_v.Consents.Answers.{InEnvironment, has_active_consent_iff}
use orbi_pay_gateway_v.ServiceConsents.{
  Error, assert_service_scope_granted, assert_active_consent, assert_scoped_consent,
}

abbrev question : String → String → String → Option Environment → Question
question service scope subject_id environment = record {
  service_code = service;
  subject_id = subject_id;
  scopes = scope ∷ [];
  environment = environment;
}

only :
    (scope : String) (scopes : List String)
    → includes scope scopes ≡ true
    → (other : String) → includes other (scope ∷ []) ≡ true
    → includes other scopes ≡ true
unfolding includes
only scope scopes has other asked = ground (arith, eq_iff scope other)

module _ (portal : String → Option (List String)) where
  guard-configured :
      (now : ℕ) (service scope subject_id : String) (environment : Option Environment)
      (s : Consents.Store) {granted : List String}
      → portal service ≡ some granted
      → assert_scoped_consent portal now service scope subject_id environment s ≡ (
          throw_if (not (includes scope granted)) Error.pay_service_scope_not_granted
          >> throw_if (is_empty subject_id) Error.consent_subject_required
          >> throw_if
              (not
                (Consents.has_active_consent now (question service scope subject_id environment) s))
              Error.consent_required)
  unfolding assert_scoped_consent assert_service_scope_granted assert_active_consent
  guard-configured now service scope subject_id environment s e =
      rw (e, assert_scoped_consent, assert_service_scope_granted, assert_active_consent)

  guard_free :
      (now : ℕ) (service scope subject_id : String) (environment : Option Environment)
      (s : Consents.Store)
      → portal service ≡ none
      → assert_scoped_consent portal now service scope subject_id environment s ≡ ok tt
  unfolding assert_scoped_consent assert_service_scope_granted assert_active_consent
  guard_free now service scope subject_id environment s e =
      rw (e, assert_scoped_consent, assert_service_scope_granted, assert_active_consent)

  guard_tests :
      (now : ℕ) (service scope subject_id : String) (environment : Option Environment)
      (s : Consents.Store) (granted : List String)
      → portal service ≡ some granted
      → (assert_scoped_consent portal now service scope subject_id environment s ≡ ok tt) ↔ (
          (includes scope granted ≡ true)
          × (is_empty subject_id ≡ false)
          × (Consents.has_active_consent now (question service scope subject_id environment) s
              ≡ true))
  guard_tests now service scope subject_id environment s granted e =
      rw (guard-configured now service scope subject_id environment s e)
        (λ h. ground arith, λ h. ground arith)

  -- The guard lets a call of a service pass, whose code names one, exactly if the portal does not know
  -- the service, or the scope is one of those it granted to the service, the call names a subject, and
  -- a stored consent receipt of this service and this subject, and of the environment if one is asked
  -- for, was not revoked, has not run out, and has the scope.
  pub assert_scoped_consent_iff :
      (now : ℕ) (service scope subject_id : String) (environment : Option Environment)
      (s : Consents.Store)
      → is_empty (slug service) ≡ false
      → (assert_scoped_consent portal now service scope subject_id environment s ≡ ok tt) ↔ (
          (portal service ≡ none)
          ⊎ ((granted : List String) × (portal service ≡ some granted)
              × (includes scope granted ≡ true)
              × (is_empty subject_id ≡ false)
              × (r : Receipt) × In r (Dict.values s)
              × (r.service_code ≡ slug service)
              × (r.subject_id ≡ subject_id)
              × (r.revoked_at ≡ none)
              × (status_eq r.status revoked ≡ false)
              × (now < r.expires_at)
              × InEnvironment environment r.environment
              × (includes scope r.scopes ≡ true)))
  unfolding includes
  assert_scoped_consent_iff now service scope subject_id environment s named =
      let q = question service scope subject_id environment in
      elim (Option-cases (portal service)) [
        | inl free ↦
            (λ h. inl free, λ h. guard_free now service scope subject_id environment s free)
        | inr (granted, known) ↦
            let (tests, passes) =
              guard_tests now service scope subject_id environment s granted known in
            (
              λ h.
                  let (scoped, someone, held) = tests h in
                  let (r, i, (a, b, c, d, e, f, covers)) =
                    (has_active_consent_iff now q s named someone).0 held in
                  inr (
                    granted,
                    known,
                    scoped,
                    someone,
                    r,
                    i,
                    a,
                    b,
                    c,
                    d,
                    e,
                    f,
                    covers scope (ground (arith, eq_refl scope)),
                  ),
              λ h. elim h [
                | inl free ↦ guard_free now service scope subject_id environment s free
                | inr (others, known', scoped, someone, r, i, a, b, c, d, e, f, has) ↦
                    let same = some-eq (sym known' ∙ known) in
                    passes (
                      rw same at scoped,
                      someone,
                      (has_active_consent_iff now q s named someone).1
                          (r, i, (a, b, c, d, e, f, only scope r.scopes has)),
                    )
              ],
            )
      ]
