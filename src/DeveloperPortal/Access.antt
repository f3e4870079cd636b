-- ===== src/DeveloperPortal/Access.antt =====
-- services/developerPortalStore.ts: what is read of the services, and their allowlists.
use orbi_pay_gateway_v.Prelude.{
  Bool, true, false, String, Option, none, some, List, [], ◌∷◌, map, Result, ok, ◌>>=◌, any, find,
  filter, includes,
}
use orbi_pay_gateway_v.Prelude.Text.{truthy}
use orbi_pay_gateway_v.Prelude.Json.{Json}
use orbi_pay_gateway_v.Environments.{Environment}
use orbi_pay_gateway_v.DeveloperPortal.{
  Error, Call, OwnerFilter, service_slug, service_belongs_to, has_code, get_mutable_service,
  public_service, add_event, same_text,
}
use orbi_pay_gateway_v.DeveloperPortal.Data.{Service, ScopeRequest, EventType, Event, State}

pub list_services : Option OwnerFilter → State → List Service
list_services owner s = map public_service (filter (service_belongs_to owner) s.services)

pub list_scope_requests : Option OwnerFilter → State → List ScopeRequest
list_scope_requests none s = s.scope_requests
list_scope_requests (some f) s =
    let codes =
      map (λ (x : Service). x.service_code) (filter (service_belongs_to (some f)) s.services) in
    filter (λ (r : ScopeRequest). includes r.service_code codes) s.scope_requests

pub get_service : String → State → Result Error Service
get_service code s = get_mutable_service code s >>= λ x. ok (public_service x)

pub portal_user_can_access_service : String → Option OwnerFilter → State → Result Error Bool
portal_user_can_access_service code owner s =
    get_mutable_service code s >>= λ x. ok (service_belongs_to owner x)

abbrev is_listed : String → List String → Bool → Bool
is_listed value [] when_empty = when_empty
is_listed value (x ∷ xs) when_empty = includes value (x ∷ xs)

-- A list of the service, if there is a service, against a value; an absent value passes.
pub is_allowed : (Service → List String) → Bool → String → Option String → State → Bool
is_allowed list_of when_empty code value s = elim (truthy value) [
  | none ↦ true
  | some v ↦ elim (find (has_code (service_slug code)) s.services) [
    | none ↦ when_empty
    | some x ↦ is_listed v (list_of x) when_empty
  ]
]

pub is_return_url_allowed : String → Option String → State → Bool
unfolding is_allowed
is_return_url_allowed = is_allowed (λ (x : Service). x.redirect_urls) true

pub is_webhook_url_allowed : String → Option String → State → Bool
unfolding is_allowed
is_webhook_url_allowed = is_allowed (λ (x : Service). x.webhook_urls) true

pub is_browser_origin_allowed : String → Option String → State → Bool
unfolding is_allowed
is_browser_origin_allowed = is_allowed (λ (x : Service). x.browser_origins) false

pub is_any_browser_origin_allowed : Option String → State → Bool
is_any_browser_origin_allowed value s = elim (truthy value) [
  | none ↦ true
  | some v ↦ any (λ (x : Service). includes v x.browser_origins) s.services
]

pub list_events : Option String → State → List Event
list_events code s = elim (truthy code) [
  | none ↦ s.events
  | some c ↦ filter (λ (e : Event). same_text e.service_code (service_slug c)) s.events
]

unfoldable pub record_operational_event :
    Call → EventType → Option String → Option Environment → Json → State → State
unfolding add_event
record_operational_event = add_event
