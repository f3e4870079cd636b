-- ===== src/DeveloperPortal/Domains/Outcomes.antt =====
-- services/developerPortalStore.ts: a verification of domains that ends without an error.
use orbi_pay_gateway_v.Prelude.{◌≡◌, refl, sym, ap, String, Option, ok, ok-eq, >>=-eq-ok, >>-eq-ok}
use orbi_pay_gateway_v.DeveloperPortal.{Call, get_mutable_service, store_service, add_event}
use orbi_pay_gateway_v.DeveloperPortal.Domains.{
  VerifyInput, normalize_domains, with_verification, check_domains, verify_service_domains,
}
use orbi_pay_gateway_v.DeveloperPortal.Soundness.{Change, Effect}
use orbi_pay_gateway_v.DeveloperPortal.Soundness.Effects.{store_service-Effect, scopes-Change}
use orbi_pay_gateway_v.DeveloperPortal.Data.{DomainVerification, Service, State}

pub with_verification-Change :
    (call : Call) (v : DomainVerification) (x : Service) → Change x (with_verification call v x)
unfolding with_verification
with_verification-Change call v x = scopes-Change x _ refl refl refl (λ w. w)

pub verify_service_domains-Effect :
    (hostname_of : String → Option String) (call : Call) (code : String) (input : VerifyInput)
    (s : State) {t : State} {y : Service}
    → verify_service_domains hostname_of call code input s ≡ ok (t, y)
    → Effect s t
unfolding verify_service_domains add_event store_service
verify_service_domains-Effect hostname_of call code input s e =
    let (x, found, after) = >>=-eq-ok (get_mutable_service code s) _ e in
    let (_, rest) =
      >>-eq-ok (check_domains hostname_of (normalize_domains input.domains) x) _ after in
    store_service-Effect code s x _ found (with_verification-Change call _ x)
      (sym (ap (λ p. (p.0).services) (ok-eq rest)))
