-- ===== src/DeveloperPortal/Scopes.antt =====
-- services/developerPortalStore.ts: requests for scopes, the status of a service and its allowlists.
pub mod Outcomes
use Prim.Native.String as Str
use orbi_pay_gateway_v.Prelude.{
  Bool, true, false, not, ◌==◌, String, Option, none, some, List, [], ◌∷◌, ◌++◌, if◌then◌else◌,
  Result, ok, err, ◌>>=◌, ◌>>◌, throw_if, any, find, filter, replace_first, unique, includes,
}
use orbi_pay_gateway_v.Prelude.Json.{Json, Fields, end, object, text, to_object, texts}
use orbi_pay_gateway_v.DeveloperPortal.{
  Error, scope_environment_not_enabled, not_eligible_for_scope_request,
  not_eligible_for_scope_decision, scope_already_granted, scope_already_pending,
  scope_request_not_found, scope_request_already_decided, Call, list_or_empty, has_env,
  get_mutable_service, store_service, public_service, add_event, event_environment,
}
use orbi_pay_gateway_v.DeveloperPortal.Data.{
  ReviewStatus, approved, rejected, is_pending, ServiceStatus, draft, suspended, archived,
  is_closed, Service, ScopeRequestInput, ScopeRequest, ScopeDecision, StatusUpdate, AllowlistInput,
  AllowlistUpdate, State, EventType, service_status_updated, service_suspended,
  scope_request_submitted, scope_request_approved, scope_request_rejected, allowlist_updated,
}

abbrev pub has_request_id : String → ScopeRequest → Bool
has_request_id id r = r.request_id == id

-- The service with the scopes asked for among the pending ones.
pub with_pending : Call → List String → Service → Service
with_pending call scopes x = record x {
  scopes_pending = unique (x.scopes_pending ++ scopes);
  updated_at = call.now;
}

pub submit_scope_request :
    Call → String → ScopeRequestInput → State → Result Error (State × ScopeRequest)
unfolding with_pending
submit_scope_request call code request s = do
  x ← get_mutable_service code s
  throw_if (not (has_env request.environment x.environments)) scope_environment_not_enabled
  throw_if (is_closed x.status) not_eligible_for_scope_request
  throw_if (any (λ scope. includes scope x.scopes_granted) request.requested_scopes)
      scope_already_granted
  throw_if (any (λ scope. includes scope x.scopes_pending) request.requested_scopes)
      scope_already_pending
  let new : ScopeRequest = record {
    input = request;
    request_id = Str.◌++◌ "scope_req_" call.uuid;
    service_code = x.service_code;
    status = ReviewStatus.pending_review;
    submitted_at = call.now;
    decided_at = none;
    decided_by = none;
    decision_reason = none;
  }
  let changed : State = store_service (with_pending call request.requested_scopes x) s
  let stored : State = record changed { scope_requests = new ∷ changed.scope_requests }
  ok (
    add_event call scope_request_submitted (some x.service_code) (some request.environment)
        (to_object (
          ("requestId", some (text new.request_id))
          ∷ ("requestedScopes", some (texts request.requested_scopes))
          ∷ []))
        stored,
    new,
  )

-- The service after a decision on the scopes.
pub with_decision : Call → Bool → List String → Service → Service
with_decision call approves scopes x = record x {
  scopes_granted = if approves then unique (x.scopes_granted ++ scopes) else x.scopes_granted;
  scopes_pending = filter (λ scope. not (includes scope scopes)) x.scopes_pending;
  updated_at = call.now;
}

pub find_scope_request : String → State → Result Error ScopeRequest
find_scope_request id s = elim (find (has_request_id id) s.scope_requests) [
  | none ↦ err scope_request_not_found
  | some r ↦ ok r
]

pub decide_scope_request :
    Call → String → ScopeDecision → State → Result Error (State × Service × ScopeRequest)
unfolding with_decision find_scope_request
decide_scope_request call id decision s = do
  r ← find_scope_request id s
  throw_if (not (is_pending r.status)) scope_request_already_decided
  x ← get_mutable_service r.service_code s
  throw_if (not (has_env r.environment x.environments)) scope_environment_not_enabled
  throw_if (is_closed x.status) not_eligible_for_scope_decision
  let decided : ScopeRequest = record r {
    status = if decision.approves then approved else ReviewStatus.rejected;
    decided_at = some call.now;
    decided_by = some decision.decided_by;
    decision_reason = some decision.reason;
  }
  let granted : Service = with_decision call decision.approves r.requested_scopes x
  let changed : State = store_service granted s
  let stored : State = record changed {
    scope_requests = replace_first (has_request_id r.request_id) decided changed.scope_requests;
  }
  ok (
    add_event call (if decision.approves then scope_request_approved else scope_request_rejected)
        (some x.service_code) (some r.environment)
        (to_object (
          ("requestId", some (text r.request_id))
          ∷ ("requestedScopes", some (texts r.requested_scopes))
          ∷ ("decidedBy", some (text decision.decided_by))
          ∷ []))
        stored,
    granted,
    decided,
  )

status_text : ServiceStatus → String
status_text draft = "draft"
status_text ServiceStatus.pending_review = "pending_review"
status_text ServiceStatus.active = "active"
status_text suspended = "suspended"
status_text ServiceStatus.rejected = "rejected"
status_text archived = "archived"

-- `metadata || {}`.
abbrev pub object_or_empty : Option Json → Json
object_or_empty none = object end
object_or_empty (some m) = m

abbrev status_event : ServiceStatus → EventType
status_event suspended = service_suspended
status_event _ = service_status_updated

pub with_status : Call → ServiceStatus → Service → Service
with_status call status x = record x { status = status; updated_at = call.now }

pub update_service_status : Call → String → StatusUpdate → State → Result Error (State × Service)
unfolding status_text with_status
update_service_status call code input s = do
  x ← get_mutable_service code s
  let changed : Service = with_status call input.status x
  ok (
    add_event call (status_event input.status) (some x.service_code)
        (event_environment x.environments)
        (to_object (
          ("previousStatus", some (text (status_text x.status)))
          ∷ ("status", some (text (status_text input.status)))
          ∷ ("reason", some (text input.reason))
          ∷ ("decidedBy", some (text input.decided_by))
          ∷ ("metadata", some (object_or_empty input.metadata))
          ∷ []))
        (store_service changed s),
    public_service changed,
  )

pub with_allowlists : Call → AllowlistInput → Service → Service
with_allowlists call update x = record x {
  browser_origins = unique (x.browser_origins ++ list_or_empty update.browser_origins);
  redirect_urls = unique (x.redirect_urls ++ list_or_empty update.redirect_urls);
  webhook_urls = unique (x.webhook_urls ++ list_or_empty update.webhook_urls);
  updated_at = call.now;
}

pub apply_allowlist_update :
    Call → String → AllowlistInput → State → Result Error (State × Service × AllowlistUpdate)
unfolding with_allowlists
apply_allowlist_update call code update s = do
  x ← get_mutable_service code s
  let changed : Service = with_allowlists call update x
  let new : AllowlistUpdate = record {
    input = update;
    update_id = Str.◌++◌ "allowlist_" call.uuid;
    service_code = x.service_code;
    applied_at = call.now;
  }
  let with_service : State = store_service changed s
  let stored : State = record with_service {
    allowlist_updates = new ∷ with_service.allowlist_updates;
  }
  ok (
    add_event call allowlist_updated (some x.service_code) (some update.environment)
        (to_object (
          ("updateId", some (text new.update_id))
          ∷ ("browserOrigins", some (texts (list_or_empty update.browser_origins)))
          ∷ ("redirectUrls", some (texts (list_or_empty update.redirect_urls)))
          ∷ ("webhookUrls", some (texts (list_or_empty update.webhook_urls)))
          ∷ []))
        stored,
    changed,
    new,
  )
