-- ===== src/DeveloperPortal/Keys/Issued.antt =====
-- services/developerPortalStore.ts: who gets an API key, and what it opens.
use mathlib.Core.Path.{subst}
use orbi_pay_gateway_v.Prelude.{
  ℕ, ◌≡◌, refl, Bool, true, false, ◌&&◌, ◌==◌, String, Option, none, some, List, [], ◌∷◌, ◌++◌, ok,
  err, ok-eq, >>=-eq-ok, >>-eq-ok, any, any-false-In, find, find-some, replace_first, includes,
  arith, Bool-cases, inl, inr, eq_refl,
}
use orbi_pay_gateway_v.Environments.{Environment, live}
use orbi_pay_gateway_v.DeveloperPortal.{
  live_environment_not_enabled, live_domain_verification_required, Call, has_code, has_env,
  service_slug, get_mutable_service, store_service, add_event,
}
use orbi_pay_gateway_v.DeveloperPortal.Domains.{assert_live_credential_eligibility}
use orbi_pay_gateway_v.DeveloperPortal.Domains.Eligibility.{
  verified_domains_of, IsVerified, Uses, stable_found, not_enabled, not_verified, eligible,
}
use orbi_pay_gateway_v.DeveloperPortal.Soundness.Effects.{found-find}
use orbi_pay_gateway_v.DeveloperPortal.Keys.{
  ResolvedKey, is_usable, is_unexpired, is_current_in, cut_over, with_keys, fingerprint, new_key,
  api_key_secret, issue_api_key, resolve_among, resolve_api_key,
}
use orbi_pay_gateway_v.DeveloperPortal.Data.{
  is_active, Credential, CredentialState, Service, IssueRequest, State,
}

-- A credential has the fingerprint.
abbrev pub has_fingerprint : String → Credential → Bool
has_fingerprint fp k = k.fingerprint == fp

abbrev pub is_known : String → Service → Bool
is_known fp x = any (has_fingerprint fp) x.keys

module _ (hash : String → String) (hostname_of : String → Option String) where
  -- Let a live API key be asked for a service that is found, under a code whose slug is its own slug. It
  -- is refused if the live environment is not enabled for the service. It is refused if it is enabled
  -- but one of the service's browser origins, redirect addresses or webhook addresses parses to a host
  -- name that, compared in small letters, is not listed among the verified domains in the service's
  -- metadata.
  -- It is issued, with its secret, if it is enabled and all these host names are listed there. How a
  -- domain came to be listed is not part of this.
  pub issue_api_key-live :
      (call : Call) (code : String) (request : IssueRequest) (s : State) {x : Service}
      → get_mutable_service code s ≡ ok x
      → service_slug (service_slug code) ≡ service_slug code
      → request.environment ≡ live
      → (has_env live x.environments ≡ false
          → issue_api_key hash hostname_of call code request s ≡ err live_environment_not_enabled)
        × (has_env live x.environments ≡ true
            → (domain : String) → Uses hostname_of x domain
            → includes domain (verified_domains_of x) ≡ false
            → issue_api_key hash hostname_of call code request s
              ≡ err live_domain_verification_required)
        × (has_env live x.environments ≡ true
            → IsVerified hostname_of x
            → (t : State) × (y : Service) × (k : Credential) × (issue_api_key hash hostname_of call
                  code request s
                ≡ ok (t, y, k, api_key_secret call live)))
  unfolding issue_api_key
  issue_api_key-live call code request s {x} found stable is_live =
      let again = stable_found hostname_of code s stable found in
      (
        λ h. rw (found, is_live, not_enabled hostname_of x.service_code s again h) refl,
        λ h domain required unverified.
            rw
              (
                found,
                is_live,
                not_verified hostname_of x.service_code domain s again again h required unverified,
              )
              refl,
        λ h verified.
            rw (found, is_live, eligible hostname_of x.service_code s again again h verified)
              (_, _, _, refl),
      )

-- The search of `resolveApiKey` in the keys of one service.
abbrev fits : ℕ → String → Credential → Bool
fits now fp k = is_usable now k && k.fingerprint == fp

unknown-find :
    (now : ℕ) (fp : String) (ks : List Credential)
    → any (has_fingerprint fp) ks ≡ false
    → find (fits now fp) ks ≡ none
unfolding any find
unknown-find now fp [] h = refl
unknown-find now fp (k ∷ ks) h = ground (arith, unknown-find now fp ks)

issued-find :
    (now : ℕ) (fp : String) (e : Environment) (ks : List Credential) (new : Credential)
    → any (has_fingerprint fp) ks ≡ false
    → fits now fp new ≡ true
    → find (fits now fp) (cut_over e ks ++ new ∷ []) ≡ some new
unfolding any find cut_over
issued-find now fp e [] new h k = rw k refl
issued-find now fp e (l ∷ ks) new h k =
    let rest = issued-find now fp e ks new (ground arith) k in
    elim (Bool-cases (is_current_in e l)) [
      | inl c ↦ rw c (ground (arith, rest))
      | inr c ↦ rw c (ground (arith, rest))
    ]

module _ (hash : String → String) where
  shown : Service → Credential → ResolvedKey
  shown x k = record {
    service = x;
    key_id = k.id;
    environment = k.environment;
    fingerprint = k.fingerprint;
    issued_at = k.issued_at;
    expires_at = k.expires_at;
  }

  -- The services before the one that was changed do not know the fingerprint.
  resolve_among-replace_first :
      (now : ℕ) (fp : String) (p : Service → Bool) (x y : Service) (k : Credential)
      (xs : List Service)
      → find p xs ≡ some x
      → any (is_known fp) xs ≡ false
      → is_active y.status ≡ true
      → find (fits now fp) y.keys ≡ some k
      → resolve_among hash now fp (replace_first p y xs) ≡ some (shown y k)
  unfolding resolve_among find replace_first any shown
  resolve_among-replace_first now fp p x y k [] e h active found = absurd (cc)
  resolve_among-replace_first now fp p x y k (z ∷ xs) e h active found = elim (Bool-cases (p z)) [
    | inl c ↦ rw (c, active, found) refl
    | inr c ↦
        let rest =
          resolve_among-replace_first now fp p x y k xs (rw c at e) (ground arith) active found in
        let none_there = unknown-find now fp z.keys (ground arith) in
        elim (Bool-cases (is_active z.status)) [
          | inl a ↦ rw (c, a, none_there) rest
          | inr a ↦ rw (c, a) rest
        ]
  ]

  issued-resolve :
      (call : Call) (e : Environment) (until : Option ℕ) (now : ℕ) (x : Service) (xs : List Service)
      → find (has_code x.service_code) xs ≡ some x
      → is_active x.status ≡ true
      → is_unexpired now (new_key hash call e until) ≡ true
      → any (is_known (fingerprint hash (api_key_secret call e))) xs ≡ false
      → (let y =
            with_keys call CredentialState.active
              (cut_over e x.keys ++ new_key hash call e until ∷ [])
              x in
          resolve_among hash now
            (fingerprint hash (api_key_secret call e))
            (replace_first (has_code x.service_code) y xs)
          ≡ some (shown y (new_key hash call e until)))
  unfolding with_keys new_key
  issued-resolve call e until now x xs found active unexpired unknown =
      let fp = fingerprint hash (api_key_secret call e) in
      resolve_among-replace_first now fp (has_code x.service_code) x _ (new_key hash call e until)
        xs found unknown active
        (issued-find now fp e x.keys (new_key hash call e until)
          (any-false-In (is_known fp) xs x unknown (find-some _ xs found).1)
          (rw (eq_refl fp, unexpired) refl))

  -- A secret that resolves to a service and a key.
  abbrev pub Opens : ℕ → State → Service → Credential → String → Environment → Type 0
  Opens now t y k secret e =
      (r : ResolvedKey) × (resolve_api_key hash now secret t ≡ some r)
      × (r.service ≡ y)
      × (r.key_id ≡ k.id)
      × (r.environment ≡ e)

  -- The secret of an API key that was just issued to a service that is active resolves to this
  -- service, this key and the environment asked for, as long as the key has not run out, if no key in
  -- the store had its fingerprint before.
  pub issue_api_key-resolve :
      (hostname_of : String → Option String) (call : Call) (code : String) (request : IssueRequest)
      (s : State) (now : ℕ) {t : State} {y : Service} {k : Credential} {secret : String}
      → issue_api_key hash hostname_of call code request s ≡ ok (t, y, k, secret)
      → is_active y.status ≡ true
      → is_unexpired now k ≡ true
      → any (is_known (fingerprint hash secret)) s.services ≡ false
      → Opens now t y k secret request.environment
  unfolding issue_api_key resolve_api_key store_service add_event with_keys new_key shown
  issue_api_key-resolve hostname_of call code request s now {t} {y} {k} {secret} e active unexpired
        unknown =
      let (x, found, after) = >>=-eq-ok (get_mutable_service code s) _ e in
      let (_, rest) =
        >>-eq-ok
          (assert_live_credential_eligibility hostname_of x.service_code request.environment s) _
          after in
      subst
        (λ (p : State × Service × Credential × String).
          is_active (p.1).status ≡ true
          → is_unexpired now p.2 ≡ true
          → any (is_known (fingerprint hash p.3)) s.services ≡ false
          → Opens now p.0 p.1 p.2 p.3 request.environment)
        (ok-eq rest)
        (λ is_on lasts new. (
          _,
          issued-resolve call request.environment request.expires_at now x s.services
              (found-find code s x found) is_on lasts new,
          refl,
          refl,
          refl,
        ))
        active unexpired unknown
