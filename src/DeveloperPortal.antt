-- ===== src/DeveloperPortal.antt =====
-- services/developerPortalStore.ts in memory mode: the services of developers, their applications,
-- scopes, domains and credentials. A call reads the clock once, and takes the UUIDs and the random
-- text that it draws; event handlers run apart from the call.
pub mod Data
mod Tests
pub mod Applications
pub mod Scopes
pub mod Domains
pub mod Ownership
pub mod Keys
pub mod WebhookSecrets
pub mod Access
pub mod Soundness
pub mod History
use Prim.Native.String as Str
use Prim.Native.String.{[], ◌∷◌}
use Prim.Native.Char.{code}
use orbi_pay_gateway_v.Prelude.{
  ℕ, zero, suc, ◌-◌, Bool, true, false, not, ◌&&◌, ◌||◌, ◌==◌, leb, String, Option, none, some,
  List, [], ◌∷◌, ◌++◌, map, if◌then◌else◌, Result, ok, err, any, find, filter, replace_first,
  unique, includes,
}
use orbi_pay_gateway_v.Prelude.Dict
use orbi_pay_gateway_v.Prelude.Dict.{Dict}
use orbi_pay_gateway_v.Prelude.Text.{is_empty, slug, to_lower, trim, truthy}
use orbi_pay_gateway_v.Prelude.Json.{Json, text, text_or_empty, maybe_text}
use orbi_pay_gateway_v.Environments.{Environment, sandbox, live, env_eq}
use orbi_pay_gateway_v.DeveloperPortal.Data.{
  ServiceStatus, Metadata, DomainVerification, Application, Credential, Service, ScopeRequest,
  ReviewStatus, EventType, Event, State,
}

pub data Error : Type 0 where
  application_not_found application_already_decided service_not_found live_environment_not_enabled
        live_domain_verification_required scope_environment_not_enabled
        not_eligible_for_scope_request not_eligible_for_scope_decision scope_already_granted
        scope_already_pending scope_request_not_found scope_request_already_decided
        domain_verification_empty domain_not_on_allowlist api_key_rotation_not_found
        webhook_secret_rotation_not_found api_key_not_found webhook_secret_not_found
        webhook_secret_not_available webhook_secret_unreadable :
      Error

-- What one call takes from outside: its time, two UUIDs and a random text.
pub record Call : Type 0 where
  pub now : ℕ
  pub uuid : String
  pub event_uuid : String
  pub random : String

pub record OwnerFilter : Type 0 where
  pub service_codes : Option (List String)
  pub owner_email : Option String

pub record Actor : Type 0 where
  pub user_id : Option String
  pub email : Option String

abbrev pub empty_state : State
empty_state = record {
  applications = [];
  services = [];
  scope_requests = [];
  allowlist_updates = [];
  key_rotations = [];
  webhook_secret_rotations = [];
  events = [];
}

-- `slice(0, n)` of a text whose characters are all ASCII.
unfoldable pub take_chars : ℕ → String → String
take_chars zero s = []
take_chars (suc n) [] = []
take_chars (suc n) (c ∷ s) = c ∷ take_chars n s

abbrev pub text_or : String → String → String
text_or [] other = other
text_or (c ∷ s) other = c ∷ s

unfoldable pub service_slug : String → String
unfolding slug take_chars
service_slug s = text_or (take_chars 48 (slug s)) "service"

abbrev pub env_text : Environment → String
env_text sandbox = "sandbox"
env_text live = "live"

unfoldable pub normalize_owner_email : Option String → Option String
unfolding to_lower trim
normalize_owner_email none = none
normalize_owner_email (some email) = truthy (some (to_lower (trim email)))

-- `normalizeOwnerEmail(metadata.submittedByPortalEmail)`.
abbrev submitted_email : Metadata → Option String
submitted_email metadata = elim (Dict.get "submittedByPortalEmail" metadata.entries) [
  | none ↦ none
  | some email ↦ normalize_owner_email (some (text_or_empty email))
]

abbrev pub same_text : Option String → String → Bool
same_text none t = false
same_text (some s) t = s == t

abbrev or_else : Option String → Option String → Option String
or_else first other = elim (truthy first) [ none ↦ other | some t ↦ some t ]

abbrev pub list_or_empty : Option (List String) → List String
list_or_empty none = []
list_or_empty (some xs) = xs

-- An owner's filter against a service code, an owner's email and the email in the metadata.
unfoldable pub is_owned_by : OwnerFilter → Option String → Option String → Metadata → Bool
is_owned_by filter_ service_code owner metadata =
    let codes = unique (map service_slug (list_or_empty filter_.service_codes)) in
    let listed : Bool = elim (truthy service_code) [ none ↦ false | some c ↦ includes c codes ] in
    elim (normalize_owner_email filter_.owner_email) [
      | none ↦ listed
      | some email ↦
          listed
          || same_text (normalize_owner_email owner) email
          || same_text (submitted_email metadata) email
    ]

unfoldable pub service_belongs_to : Option OwnerFilter → Service → Bool
unfolding is_owned_by
service_belongs_to none x = true
service_belongs_to (some f) x =
    is_owned_by f (some x.service_code) (or_else x.owner_email (some x.contact_email)) x.metadata

unfoldable pub application_belongs_to : Option OwnerFilter → Application → Bool
unfolding is_owned_by
application_belongs_to none x = true
application_belongs_to (some f) x =
    is_owned_by f x.service_code (or_else x.owner_email (some x.contact_email)) x.own_metadata

abbrev pub has_code : String → Service → Bool
has_code c x = x.service_code == c

-- The search of `getMutableService`.
unfoldable pub get_mutable_service : String → State → Result Error Service
unfolding service_slug
get_mutable_service c s = elim (find (has_code (service_slug c)) s.services) [
  | none ↦ err service_not_found
  | some x ↦ ok x
]

-- The service that was found, changed in place.
unfoldable pub store_service : Service → State → State
store_service x s = record s { services = replace_first (has_code x.service_code) x s.services }

-- Without the sealed webhook secrets.
pub public_service : Service → Service
public_service x = record x {
  webhook_secrets =
      map (λ (w : Credential). record w { encrypted_secret = none }) x.webhook_secrets;
}

unfoldable pub add_event :
    Call → EventType → Option String → Option Environment → Json → State → State
add_event call event_type service_code environment data_fields s =
    let event : Event = record {
      event_id = Str.◌++◌ "dev_evt_" call.event_uuid;
      event_type = event_type;
      service_code = service_code;
      environment = environment;
      occurred_at = call.now;
      data_fields = data_fields;
    } in
    record s { events = event ∷ s.events }

abbrev pub has_env : Environment → List Environment → Bool
has_env e envs = any (env_eq e) envs

-- `environments.includes('live') ? 'live' : environments[0]`.
pub event_environment : List Environment → Option Environment
event_environment [] = none
event_environment (e ∷ envs) = some (if has_env live (e ∷ envs) then live else e)
