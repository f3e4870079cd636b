-- ===== src/DeveloperPortal/Domains/Eligibility.antt =====
-- services/developerPortalStore.ts: which services get live credentials.

use orbi_pay_gateway_v.Prelude.{
  ◌≡◌, refl, sym, ap, ◌∙◌, true, false, not, String, Option, List, [], ◌∷◌, map, ok, err, ok-eq,
  find, filter, unique, includes, inl, inr, Bool-cases, Option-cases, arith, find-some, eq_iff,
  eq_refl, ◌==◌, In, ◌↔◌, ◌++◌, some, includes-unique,
}
use orbi_pay_gateway_v.Prelude.Text.{to_lower, truthy}
use orbi_pay_gateway_v.Environments.{live}
use orbi_pay_gateway_v.DeveloperPortal.{
  live_environment_not_enabled, live_domain_verification_required, list_or_empty, has_env, has_code,
  service_slug, get_mutable_service,
}
use orbi_pay_gateway_v.DeveloperPortal.Domains.{
  domain_verification, is_nonempty, live_hostnames, hostnames, domain_status,
  live_domain_verification_status, assert_live_credential_eligibility,
}
use orbi_pay_gateway_v.DeveloperPortal.Data.{Service, State}

-- The domains that were verified for a service, in small letters.
abbrev pub verified_domains_of : Service → List String
verified_domains_of x =
    unique (map to_lower (list_or_empty (domain_verification x).verified_domains))

module _ (hostname_of : String → Option String) where
  -- One of the addresses parses to a host name that is the domain in small letters.
  abbrev pub Addresses : List String → String → Type 0
  Addresses urls domain =
      (url : String) × (host : String) × In url urls
      × (truthy (hostname_of url) ≡ some host)
      × (to_lower host ≡ domain)

  -- A browser origin, a redirect address or a webhook address of the service is of the domain.
  abbrev pub Uses : Service → String → Type 0
  Uses x domain = Addresses (x.browser_origins ++ x.redirect_urls ++ x.webhook_urls) domain

  -- Every domain that the service uses is listed as verified in its metadata.
  abbrev pub IsVerified : Service → Type 0
  IsVerified x = (domain : String) → Uses x domain → includes domain (verified_domains_of x) ≡ true

  hostnames-Addresses :
      (urls : List String) (domain : String)
      → includes domain (hostnames hostname_of urls) ≡ true
      → Addresses urls domain
  unfolding hostnames includes
  hostnames-Addresses [] domain h = absurd (cc h)
  hostnames-Addresses (u ∷ urls) domain h = elim (Option-cases (truthy (hostname_of u))) [
    | inl e ↦
        let (url, host, i, found, named) =
          hostnames-Addresses urls domain (rw (e, hostnames) at h) in
        (url, host, inr i, found, named)
    | inr (host, e) ↦ elim (Bool-cases (to_lower host == domain)) [
      | inl q ↦ (u, host, inl refl, e, (eq_iff (to_lower host) domain).0 q)
      | inr q ↦
          let rest = rw (e, hostnames, q) at h in
          let (url, other, i, found, named) = hostnames-Addresses urls domain rest in
          (url, other, inr i, found, named)
    ]
  ]

  Addresses-hostnames :
      (urls : List String) (domain : String)
      → Addresses urls domain
      → includes domain (hostnames hostname_of urls) ≡ true
  unfolding hostnames includes
  Addresses-hostnames [] domain (url, host, i, found, named) = absurd i
  Addresses-hostnames (u ∷ urls) domain (url, host, inl e, found, named) =
      let here = ap (λ t. truthy (hostname_of t)) e ∙ found in
      rw (here, hostnames) (ground (arith, eq_iff (to_lower host) domain))
  Addresses-hostnames (u ∷ urls) domain (url, host, inr i, found, named) =
      let rest = Addresses-hostnames urls domain (url, host, i, found, named) in
      elim (Option-cases (truthy (hostname_of u))) [
        | inl e ↦ rw (e, hostnames) rest
        | inr (h, e) ↦ rw (e, hostnames) (ground (arith, rest))
      ]

  -- The host names that are required are those that the service uses.
  live_hostnames-Uses :
      (x : Service) (domain : String)
      → (includes domain (live_hostnames hostname_of x) ≡ true) ↔ Uses x domain
  unfolding live_hostnames
  live_hostnames-Uses x domain =
      let urls = x.browser_origins ++ x.redirect_urls ++ x.webhook_urls in
      let same = includes-unique domain (hostnames hostname_of urls) in
      (
        λ h. hostnames-Addresses urls domain (sym same ∙ h),
        λ u. same ∙ Addresses-hostnames urls domain u,
      )

  nothing_missing :
      (verified required : List String)
      → ((d : String) → includes d required ≡ true → includes d verified ≡ true)
      → is_nonempty (filter (λ d. not (includes d verified)) required) ≡ false
  unfolding filter includes
  nothing_missing verified [] h = refl
  nothing_missing verified (d ∷ ds) h =
      rw (h d (ground (arith, eq_refl d))) (nothing_missing verified ds (λ e i. h e (ground arith)))

  some_missing :
      (verified required : List String) (d : String)
      → includes d required ≡ true
      → includes d verified ≡ false
      → is_nonempty (filter (λ e. not (includes e verified)) required) ≡ true
  unfolding filter includes
  some_missing verified [] d i h = absurd (cc)
  some_missing verified (e ∷ es) d i h = elim (Bool-cases (includes e verified)) [
    | inr k ↦ rw k refl
    | inl k ↦ rw k (
        some_missing verified es d
          (elim (Bool-cases (e == d)) [
            | inl q ↦ absurd (cc (h, k, ap (λ c. includes c verified) ((eq_iff e d).0 q)))
            | inr q ↦ ground arith
          ])
          h)
  ]

  same_slug :
      (c d : String) (s : State)
      → service_slug c ≡ service_slug d
      → get_mutable_service c s ≡ get_mutable_service d s
  unfolding get_mutable_service
  same_slug c d s e = rw (e, get_mutable_service) refl

  pub stable_found :
      (code : String) (s : State) {x : Service}
      → service_slug (service_slug code) ≡ service_slug code
      → get_mutable_service code s ≡ ok x
      → get_mutable_service x.service_code s ≡ ok x
  unfolding get_mutable_service
  stable_found code s {x} stable found =
      elim (Option-cases (find (has_code (service_slug code)) s.services)) [
        | inl n ↦ absurd (cc (rw (n, get_mutable_service) at found))
        | inr (y, h) ↦
            let named =
              (eq_iff y.service_code (service_slug code)).0 (find-some _ s.services h).0 in
            let same = ok-eq (rw (h, get_mutable_service) at found) in
            let coded = ap (λ (z : Service). z.service_code) (sym same) ∙ named in
            same_slug x.service_code code s (ap service_slug coded ∙ stable) ∙ found
      ]

  -- The three answers of the check.
  pub not_enabled :
      (code : String) (s : State) {x : Service}
      → get_mutable_service code s ≡ ok x
      → has_env live x.environments ≡ false
      → assert_live_credential_eligibility hostname_of code live s
        ≡ err live_environment_not_enabled
  unfolding assert_live_credential_eligibility
  not_enabled code s found h = rw (found, h) refl

  pub not_verified :
      (code domain : String) (s : State) {x : Service}
      → get_mutable_service code s ≡ ok x
      → get_mutable_service x.service_code s ≡ ok x
      → has_env live x.environments ≡ true
      → Uses x domain
      → includes domain (verified_domains_of x) ≡ false
      → assert_live_credential_eligibility hostname_of code live s
        ≡ err live_domain_verification_required
  unfolding assert_live_credential_eligibility live_domain_verification_status domain_status
  not_verified code domain s {x} found again h required unverified =
      rw
        (
          found,
          h,
          again,
          some_missing (verified_domains_of x) (live_hostnames hostname_of x) domain
              ((live_hostnames-Uses x domain).1 required) unverified,
        )
        refl

  pub eligible :
      (code : String) (s : State) {x : Service}
      → get_mutable_service code s ≡ ok x
      → get_mutable_service x.service_code s ≡ ok x
      → has_env live x.environments ≡ true
      → IsVerified x
      → assert_live_credential_eligibility hostname_of code live s ≡ ok tt
  unfolding assert_live_credential_eligibility live_domain_verification_status domain_status
  eligible code s {x} found again h verified =
      rw
        (
          found,
          h,
          again,
          nothing_missing (verified_domains_of x) (live_hostnames hostname_of x)
              (λ d i. verified d ((live_hostnames-Uses x d).0 i)),
        )
        refl
