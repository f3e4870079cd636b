-- ===== src/DeveloperPortal/Scopes/Outcomes.antt =====
-- services/developerPortalStore.ts: each call on scopes, status and allowlists that ends without an
-- error.
use orbi_pay_gateway_v.Prelude.{
  ◌≡◌, refl, sym, ap, ◌∙◌, Bool, true, false, not, ◌&&◌, String, List, [], ◌∷◌, ◌++◌, ok, ok-eq,
  >>=-eq-ok, throw_if-ok, arith, any, filter, includes, includes-unique, includes-append,
  includes-In, any-false-In, eq_iff, Bool-cases, inl, inr, ◌==◌,
}
use orbi_pay_gateway_v.DeveloperPortal.{
  Call, has_env, get_mutable_service, store_service, add_event,
}
use orbi_pay_gateway_v.DeveloperPortal.Scopes.{
  with_pending, submit_scope_request, with_decision, find_scope_request, decide_scope_request,
  with_status, update_service_status, with_allowlists, apply_allowlist_update,
}
use orbi_pay_gateway_v.DeveloperPortal.Soundness.{HasSeparateScopes, Effect}
use orbi_pay_gateway_v.DeveloperPortal.Soundness.Effects.{store_service-Effect, scopes-Change}
use orbi_pay_gateway_v.DeveloperPortal.Data.{
  is_pending, is_closed, Service, ScopeRequestInput, ScopeRequest, ScopeDecision, StatusUpdate,
  AllowlistInput, AllowlistUpdate, State,
}

includes-filter :
    (p : String → Bool) (a : String) (xs : List String)
    → includes a (filter p xs) ≡ (includes a xs && p a)
unfolding includes filter
includes-filter p a [] = refl
includes-filter p a (x ∷ xs) = elim (Bool-cases (x == a)) [
  | inl h ↦ let same = ap p ((eq_iff x a).0 h) in ground (arith, includes-filter p a xs)
  | inr h ↦ ground (arith, includes-filter p a xs)
]

-- What none of the scopes asked for is in a list, no member of the list is among them.
not_asked :
    (requested held : List String) (scope : String)
    → any (λ a. includes a held) requested ≡ false
    → includes scope held ≡ true
    → includes scope requested ≡ false
not_asked requested held scope none_held h = elim (Bool-cases (includes scope requested)) [
  | inl i ↦ absurd (
      cc (
        h,
        any-false-In (λ a. includes a held) requested scope none_held
            (includes-In scope requested i),
      ))
  | inr i ↦ i
]

with_pending-HasSeparateScopes :
    (call : Call) (requested : List String) (x : Service)
    → any (λ a. includes a x.scopes_granted) requested ≡ false
    → HasSeparateScopes x
    → HasSeparateScopes (with_pending call requested x)
unfolding with_pending
with_pending-HasSeparateScopes call requested x fresh v scope h =
    includes-unique scope (x.scopes_pending ++ requested)
    ∙ includes-append scope x.scopes_pending requested
    ∙ ground (arith, v scope h, not_asked requested x.scopes_granted scope fresh h)

with_decision-HasSeparateScopes :
    (call : Call) (approves : Bool) (scopes : List String) (x : Service)
    → HasSeparateScopes x
    → HasSeparateScopes (with_decision call approves scopes x)
unfolding with_decision
with_decision-HasSeparateScopes call true scopes x v scope h =
    let either =
      sym (includes-append scope x.scopes_granted scopes)
      ∙ sym (includes-unique scope (x.scopes_granted ++ scopes))
      ∙ h in
    includes-filter (λ a. not (includes a scopes)) scope x.scopes_pending ∙ ground (arith, v scope)
with_decision-HasSeparateScopes call false scopes x v scope h =
    includes-filter (λ a. not (includes a scopes)) scope x.scopes_pending
    ∙ ground (arith, v scope h)

pub submit_scope_request-Effect :
    (call : Call) (code : String) (request : ScopeRequestInput) (s : State) {t : State}
    {r : ScopeRequest}
    → submit_scope_request call code request s ≡ ok (t, r)
    → Effect s t
unfolding submit_scope_request add_event store_service with_pending
submit_scope_request-Effect call code request s e =
    let (x, found, e1) = >>=-eq-ok (get_mutable_service code s) _ e in
    let (_, e2) = throw_if-ok (not (has_env request.environment x.environments)) _ _ e1 in
    let (_, e3) = throw_if-ok (is_closed x.status) _ _ e2 in
    let (fresh, e4) =
      throw_if-ok (any (λ scope. includes scope x.scopes_granted) request.requested_scopes) _ _
        e3 in
    let (_, rest) =
      throw_if-ok (any (λ scope. includes scope x.scopes_pending) request.requested_scopes) _ _
        e4 in
    store_service-Effect code s x _ found
      (scopes-Change x (with_pending call request.requested_scopes x) refl refl refl
        (with_pending-HasSeparateScopes call request.requested_scopes x fresh))
      (sym (ap (λ p. (p.0).services) (ok-eq rest)))

pub decide_scope_request-Effect :
    (call : Call) (id : String) (d : ScopeDecision) (s : State) {t : State} {y : Service}
    {r : ScopeRequest}
    → decide_scope_request call id d s ≡ ok (t, y, r)
    → Effect s t
unfolding decide_scope_request add_event store_service with_decision
decide_scope_request-Effect call id d s e =
    let (r, _, e1) = >>=-eq-ok (find_scope_request id s) _ e in
    let (_, e2) = throw_if-ok (not (is_pending r.status)) _ _ e1 in
    let (x, found, e3) = >>=-eq-ok (get_mutable_service r.service_code s) _ e2 in
    let (_, e4) = throw_if-ok (not (has_env r.environment x.environments)) _ _ e3 in
    let (_, rest) = throw_if-ok (is_closed x.status) _ _ e4 in
    store_service-Effect r.service_code s x _ found
      (scopes-Change x (with_decision call d.approves r.requested_scopes x) refl refl refl
        (with_decision-HasSeparateScopes call d.approves r.requested_scopes x))
      (sym (ap (λ p. (p.0).services) (ok-eq rest)))

pub update_service_status-Effect :
    (call : Call) (code : String) (input : StatusUpdate) (s : State) {t : State} {y : Service}
    → update_service_status call code input s ≡ ok (t, y)
    → Effect s t
unfolding update_service_status add_event store_service with_status
update_service_status-Effect call code input s e =
    let (x, found, rest) = >>=-eq-ok (get_mutable_service code s) _ e in
    store_service-Effect code s x _ found
      (scopes-Change x (with_status call input.status x) refl refl refl (λ v. v))
      (sym (ap (λ p. (p.0).services) (ok-eq rest)))

pub apply_allowlist_update-Effect :
    (call : Call) (code : String) (update : AllowlistInput) (s : State) {t : State} {y : Service}
    {u : AllowlistUpdate}
    → apply_allowlist_update call code update s ≡ ok (t, y, u)
    → Effect s t
unfolding apply_allowlist_update add_event store_service with_allowlists
apply_allowlist_update-Effect call code update s e =
    let (x, found, rest) = >>=-eq-ok (get_mutable_service code s) _ e in
    store_service-Effect code s x _ found
      (scopes-Change x (with_allowlists call update x) refl refl refl (λ v. v))
      (sym (ap (λ p. (p.0).services) (ok-eq rest)))
