-- ===== src/DeveloperPortal/Ownership/Outcomes.antt =====
-- services/developerPortalStore.ts: an automatic verification that ends without an error.
use mathlib.Core.Path.{subst}
use orbi_pay_gateway_v.Prelude.{
  ◌≡◌, refl, ap, ◌⊎◌, inl, inr, String, Option, List, [], ◌∷◌, map, unique, ok, ok-eq, >>=-eq-ok,
  >>-eq-ok,
}
use orbi_pay_gateway_v.Prelude.Text.{to_lower}
use orbi_pay_gateway_v.DeveloperPortal.{Call, list_or_empty, get_mutable_service, add_event}
use orbi_pay_gateway_v.DeveloperPortal.Domains.{
  Challenge, domain_verification, normalize_domains, live_hostnames, check_domains,
}
use orbi_pay_gateway_v.DeveloperPortal.Domains.Outcomes.{with_verification-Change}
use orbi_pay_gateway_v.DeveloperPortal.Ownership.{
  Progress, AutomaticAnswer, list_or, record_pending, record_verified, record_progress, verify_all,
  domain_verification_instructions, verify_service_domains_automatically,
}
use orbi_pay_gateway_v.DeveloperPortal.Soundness.{Effect}
use orbi_pay_gateway_v.DeveloperPortal.Soundness.Effects.{store_service-Effect}
use orbi_pay_gateway_v.DeveloperPortal.Data.{DomainVerification, Service, State}

List-cases : {A : Type 0} (xs : List A) → (xs ≡ []) ⊎ ((y : A) × (ys : List A) × (xs ≡ y ∷ ys))
List-cases [] = inl refl
List-cases (x ∷ xs) = inr (x, xs, refl)

module _ (hmac : String → String) (hostname_of : String → Option String)
    (proves : Challenge → Option String) where
  record_progress-Effect :
      (call : Call) (code by : String) (v : DomainVerification) (verified : List String)
      (p : Progress) (x : Service) (s : State)
      → get_mutable_service code s ≡ ok x
      → Effect s (record_progress hmac hostname_of proves call by v verified p x s).0
  unfolding record_progress record_pending record_verified add_event
  record_progress-Effect call code by v verified p x s found = elim (List-cases p.verified_now) [
    | inl h ↦ rw h (store_service-Effect code s x _ found (with_verification-Change call _ x) refl)
    | inr (d, ds, h) ↦
        rw h (store_service-Effect code s x _ found (with_verification-Change call _ x) refl)
  ]

  pub verify_service_domains_automatically-Effect :
      (call : Call) (code : String) (domains : Option (List String)) (by : String) (s : State)
      {t : State} {a : AutomaticAnswer}
      → verify_service_domains_automatically hmac hostname_of proves call code domains by s
        ≡ ok (t, a)
      → Effect s t
  unfolding verify_service_domains_automatically
  verify_service_domains_automatically-Effect call code domains by s e =
      let (x, found, e1) = >>=-eq-ok (get_mutable_service code s) _ e in
      let requested =
        normalize_domains (list_or (list_or_empty domains) (live_hostnames hostname_of x)) in
      let v = domain_verification x in
      let verified = unique (map to_lower (list_or_empty v.verified_domains)) in
      let p =
        verify_all hmac hostname_of proves call.now v verified x requested
          (record { challenges = v.challenges; verified_now = []; pending = [] }) in
      let stored = record_progress hmac hostname_of proves call by v verified p x s in
      let (_, e2) = >>-eq-ok (check_domains hostname_of requested x) _ e1 in
      let (given, _, rest) =
        >>=-eq-ok (domain_verification_instructions hmac hostname_of x.service_code stored.0) _
          e2 in
      subst (Effect s) (ap (λ q. q.0) (ok-eq rest))
        (record_progress-Effect call code by v verified p x s found)
