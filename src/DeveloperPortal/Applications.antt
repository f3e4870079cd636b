-- ===== src/DeveloperPortal/Applications.antt =====
-- services/developerPortalStore.ts: applications, and the services that they become.
pub mod Codes
pub mod Outcomes
use Prim.Native.String as Str
use orbi_pay_gateway_v.Prelude.{
  ℕ, zero, suc, ◌+◌, Bool, true, false, not, ◌&&◌, ◌==◌, String, Option, none, some, List, [], ◌∷◌,
  ◌++◌, map, length, if◌then◌else◌, Result, ok, err, ◌>>=◌, ◌>>◌, throw_if, any, find, filter,
  replace_first, unique,
}
use orbi_pay_gateway_v.Prelude.Dict
use orbi_pay_gateway_v.Prelude.Dict.{Dict}
use orbi_pay_gateway_v.Prelude.Text.{trim, truthy}
use orbi_pay_gateway_v.Prelude.Json.{Json, text, decimal, to_object, texts, maybe_text}
use orbi_pay_gateway_v.Environments.{Environment}
use orbi_pay_gateway_v.DeveloperPortal.{
  Error, application_not_found, application_already_decided, Call, Actor, OwnerFilter, text_or,
  env_text, normalize_owner_email, application_belongs_to, has_code, has_env, get_mutable_service,
  public_service, add_event, event_environment, service_slug,
}
use orbi_pay_gateway_v.DeveloperPortal.Data.{
  BusinessType, merchant, marketplace, organization, saccos, agent_network, platform, internal,
  ReviewStatus, approved, rejected, is_pending, ServiceStatus, draft, CredentialState, not_issued,
  Metadata, ApplicationInput, Application, Service, State, application_submitted, service_approved,
  application_rejected,
}

pub record Approval : Type 0 where
  pub service_code : Option String
  pub starts_active : Bool
  pub grant_requested_scopes : Bool

pub record Rejection : Type 0 where
  pub decided_by : Option String
  pub reason : String

-- `DeveloperBusinessTypeSchema` as text.
abbrev business_text : BusinessType → String
business_text merchant = "merchant"
business_text marketplace = "marketplace"
business_text organization = "organization"
business_text saccos = "saccos"
business_text agent_network = "agent_network"
business_text platform = "platform"
business_text internal = "internal"

review_text : ReviewStatus → String
review_text ReviewStatus.pending_review = "pending_review"
review_text approved = "approved"
review_text rejected = "rejected"

-- An entry that is spread into metadata; an undefined value takes the place of what stood there.
unfoldable pub put : String → Option String → Dict Json → Dict Json
put k (some v) m = Dict.set k (text v) m
put k none m = filter (λ entry. not (entry.0 == k)) m

abbrev metadata_or_empty : Option Metadata → Metadata
metadata_or_empty none = record { domain_verification = none; entries = [] }
metadata_or_empty (some m) = m

-- The metadata of an application, with the user of the portal who sent it.
unfoldable pub application_metadata : Option Metadata → Option Actor → Metadata
unfolding put
application_metadata own none = metadata_or_empty own
application_metadata own (some actor) =
    let base = metadata_or_empty own in
    let with_email : Dict Json = elim (truthy actor.email) [
      | none ↦ base.entries
      | some email ↦ put "submittedByPortalEmail" (normalize_owner_email (some email)) base.entries
    ] in
    record base {
      entries = elim (truthy actor.user_id) [
        | none ↦ with_email
        | some user_id ↦ put "submittedByPortalUserId" (some user_id) with_email
      ];
    }

abbrev actor_email : Option Actor → Option String
actor_email none = none
actor_email (some a) = a.email

abbrev actor_user : Option Actor → Option String
actor_user none = none
actor_user (some a) = a.user_id

unfoldable pub new_application : Call → ApplicationInput → Option Actor → Application
unfolding application_metadata
new_application call input actor = record {
  input = input;
  own_metadata = application_metadata input.metadata actor;
  application_id = Str.◌++◌ "dev_app_" call.uuid;
  status = ReviewStatus.pending_review;
  service_code = none;
  owner_portal_user_id = actor_user actor;
  owner_email = elim (normalize_owner_email (actor_email actor)) [
    | none ↦ normalize_owner_email (some input.contact_email)
    | some email ↦ some email
  ];
  submitted_at = call.now;
  decided_at = none;
  decided_by = none;
  decision_reason = none;
  updated_at = call.now;
}

unfoldable pub submit_application :
    Call → ApplicationInput → Option Actor → State → State × Application
submit_application call input actor s =
    let new = new_application call input actor in
    let stored : State = record s { applications = new ∷ s.applications } in
    (
      add_event call application_submitted none none
          (to_object (
            ("applicationId", some (text new.application_id))
            ∷ ("displayName", some (text new.display_name))
            ∷ ("businessType", some (text (business_text new.business_type)))
            ∷ ("requestedEnvironments", some (texts (map env_text new.requested_environments)))
            ∷ ("requestedScopes", some (texts new.requested_scopes))
            ∷ []))
          stored,
      new,
    )

pub list_applications : String → Option OwnerFilter → State → List Application
unfolding review_text
list_applications status owner s =
    let normalized = trim status in
    let listed =
      if normalized == ""
      then s.applications
      else filter (λ (a : Application). review_text a.status == normalized) s.applications in
    filter (application_belongs_to owner) listed

-- The candidate codes in turn, until one is not in use.
unfoldable pub search_code : String → List Service → ℕ → ℕ → String → String
search_code base services zero index candidate = candidate
search_code base services (suc fuel) index candidate =
    let next =
      search_code base services fuel (index + 1) (Str.◌++◌ base (Str.◌++◌ "-" (decimal index))) in
    if any (has_code candidate) services then next else candidate

unfoldable pub next_service_code : String → List Service → String
unfolding search_code
next_service_code seed services =
    let base = service_slug seed in search_code base services (length services) 2 base

unique_envs_from : List Environment → List Environment → List Environment
unique_envs_from seen [] = seen
unique_envs_from seen (e ∷ envs) =
    unique_envs_from (if has_env e seen then seen else seen ++ e ∷ []) envs

-- `unique` on environments.
unfoldable pub unique_envs : List Environment → List Environment
unfolding unique_envs_from
unique_envs envs = unique_envs_from [] envs

-- The owner, spread into the metadata of the service.
unfoldable pub service_metadata : Application → Metadata
unfolding put
service_metadata a =
    let with_email : Dict Json = elim (truthy a.owner_email) [
      | none ↦ a.own_metadata.entries
      | some email ↦ put "ownerEmail" (some email) a.own_metadata.entries
    ] in
    record a.own_metadata {
      entries = elim (truthy a.owner_portal_user_id) [
        | none ↦ with_email
        | some user_id ↦ put "ownerPortalUserId" (some user_id) with_email
      ];
    }

unfoldable pub new_service : ℕ → String → Approval → Application → Service
unfolding service_metadata unique_envs
new_service now service_code approval a = record {
  service_code = service_code;
  display_name = a.display_name;
  status = if approval.starts_active then ServiceStatus.active else draft;
  environments = unique_envs a.requested_environments;
  scopes_granted = if approval.grant_requested_scopes then unique a.requested_scopes else [];
  scopes_pending = if approval.grant_requested_scopes then [] else unique a.requested_scopes;
  browser_origins = unique a.browser_origins;
  redirect_urls = unique a.redirect_urls;
  webhook_urls = unique a.webhook_urls;
  key_status = not_issued;
  webhook_secret_status = not_issued;
  keys = [];
  webhook_secrets = [];
  created_at = now;
  updated_at = now;
  legal_name = a.legal_name;
  business_type = a.business_type;
  country_code = a.country_code;
  contact_email = a.contact_email;
  contact_phone = a.contact_phone;
  external_developer_id = a.external_developer_id;
  owner_portal_user_id = a.owner_portal_user_id;
  owner_email = a.owner_email;
  metadata = service_metadata a;
}

abbrev pub has_application_id : String → Application → Bool
has_application_id id a = a.application_id == id

unfoldable pub find_application : String → State → Result Error Application
find_application id s = elim (find (has_application_id id) s.applications) [
  | none ↦ err application_not_found
  | some a ↦ ok a
]

-- The code of the service that an approved application already has.
abbrev approved_code : Application → Option String
approved_code a = elim a.status [ approved ↦ truthy a.service_code | _ ↦ none ]

unfoldable pub create_service : Call → Approval → Application → State → State × Service
unfolding next_service_code new_service
create_service call approval a s =
    let code =
      next_service_code
        (elim (truthy approval.service_code) [ none ↦ a.display_name | some seed ↦ seed ])
        s.services in
    let new = new_service call.now code approval a in
    let decided : Application = record a {
      status = ReviewStatus.approved;
      service_code = some code;
      updated_at = call.now;
    } in
    let stored : State = record s {
      applications = replace_first (has_application_id a.application_id) decided s.applications;
      services = new ∷ s.services;
    } in
    (
      add_event call service_approved (some code) (event_environment new.environments)
          (to_object (
            ("applicationId", some (text a.application_id))
            ∷ (
              "scopesGranted",
              some (texts (if approval.grant_requested_scopes then new.scopes_granted else [])),
            )
            ∷ ("scopesPending", some (texts new.scopes_pending))
            ∷ []))
          stored,
      new,
    )

-- An application that was approved before answers its service; a rejected one can be approved.
unfoldable pub approve_application :
    Call → String → Approval → State → Result Error (State × Service)
unfolding find_application create_service
approve_application call id approval s = do
  a ← find_application id s
  elim (approved_code a) [
    | none ↦ ok (create_service call approval a s)
    | some code ↦ get_mutable_service code s >>= λ x. ok (s, public_service x)
  ]

pub reject_application : Call → String → Rejection → State → Result Error (State × Application)
unfolding find_application
reject_application call id rejection s = do
  a ← find_application id s
  throw_if (not (is_pending a.status)) application_already_decided
  let decided : Application = record a {
    status = ReviewStatus.rejected;
    decided_at = some call.now;
    decided_by = rejection.decided_by;
    decision_reason = some rejection.reason;
    updated_at = call.now;
  }
  let stored : State = record s {
    applications = replace_first (has_application_id a.application_id) decided s.applications;
  }
  ok (
    add_event call application_rejected
        (elim (truthy a.service_code) [ none ↦ some a.application_id | some code ↦ some code ])
        (event_environment a.requested_environments)
        (to_object (
          ("applicationId", some (text id))
          ∷ ("decidedBy", maybe_text rejection.decided_by)
          ∷ ("reason", some (text rejection.reason))
          ∷ []))
        stored,
    decided,
  )
