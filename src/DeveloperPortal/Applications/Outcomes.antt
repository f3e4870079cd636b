-- ===== src/DeveloperPortal/Applications/Outcomes.antt =====
-- services/developerPortalStore.ts: each call on applications that ends without an error.
use mathlib.Core.Path.{subst}
use orbi_pay_gateway_v.Prelude.{
  ℕ, ◌≡◌, refl, sym, ap, Bool, true, false, not, String, Option, List, [], ok, ok-eq, >>=-eq-ok,
  throw_if-ok, arith, filter, includes, unique, Option-cases, inl, inr, if◌then◌else◌,
}
use orbi_pay_gateway_v.DeveloperPortal.{Call, Actor, get_mutable_service, add_event}
use orbi_pay_gateway_v.DeveloperPortal.Applications.{
  Approval, Rejection, submit_application, new_service, find_application, approved_code,
  create_service, approve_application, reject_application,
}
use orbi_pay_gateway_v.DeveloperPortal.Applications.Codes.{next_service_code_free}
use orbi_pay_gateway_v.DeveloperPortal.Soundness.{IsSound, Effect, untouched, created}
use orbi_pay_gateway_v.DeveloperPortal.Data.{
  is_pending, ApplicationInput, Application, Service, State,
}

separate_scopes :
    (granted : Bool) (requested : List String) (scope : String)
    → includes scope (if granted then unique requested else []) ≡ true
    → includes scope (if granted then [] else unique requested) ≡ false
unfolding includes
separate_scopes true requested scope h = refl
separate_scopes false requested scope h = absurd (cc)

new_service-IsSound :
    (now : ℕ) (code : String) (approval : Approval) (a : Application)
    → IsSound (new_service now code approval a)
unfolding new_service
new_service-IsSound now code approval a = record {
  one_key = λ e. unfold filter in omega arith;
  one_secret = λ e. unfold filter in omega arith;
  key_ids = tt;
  scopes = separate_scopes approval.grant_requested_scopes a.requested_scopes;
}

pub submit_application-Effect :
    (call : Call) (input : ApplicationInput) (actor : Option Actor) (s : State)
    → Effect s (submit_application call input actor s).0
unfolding submit_application add_event
submit_application-Effect call input actor s = untouched refl

create_service-Effect :
    (call : Call) (approval : Approval) (a : Application) (s : State)
    → Effect s (create_service call approval a s).0
unfolding create_service add_event new_service
create_service-Effect call approval a s =
    created _ refl (next_service_code_free _ s.services)
      (unfold new_service in new_service-IsSound call.now _ approval a)

pub approve_application-Effect :
    (call : Call) (id : String) (approval : Approval) (s : State) {t : State} {x : Service}
    → approve_application call id approval s ≡ ok (t, x)
    → Effect s t
unfolding approve_application
approve_application-Effect call id approval s {t} {x} e =
    let (a, _, rest) = >>=-eq-ok (find_application id s) _ e in
    elim (Option-cases (approved_code a)) [
      | inl n ↦
          subst (Effect s) (ap (λ p. p.0) (ok-eq (rw n at rest)))
            (create_service-Effect call approval a s)
      | inr (code, h) ↦
          let (y, _, last) = >>=-eq-ok (get_mutable_service code s) _ (rw h at rest) in
          untouched (sym (ap (λ p. (p.0).services) (ok-eq last)))
    ]

pub reject_application-Effect :
    (call : Call) (id : String) (rejection : Rejection) (s : State) {t : State} {a : Application}
    → reject_application call id rejection s ≡ ok (t, a)
    → Effect s t
unfolding reject_application add_event
reject_application-Effect call id rejection s e =
    let (a, _, after) = >>=-eq-ok (find_application id s) _ e in
    let (_, rest) = throw_if-ok (not (is_pending a.status)) _ _ after in
    untouched (sym (ap (λ p. (p.0).services) (ok-eq rest)))
