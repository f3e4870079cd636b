-- ===== src/Consents.antt =====
-- services/consentReceiptStore.ts in its memory mode: the receipts of what subjects agreed to. `now` is
-- the time of the call in milliseconds and `random` the UUID of a new receipt.
pub mod Data
pub mod Answers
pub mod History
pub mod Tests
use Prim.Native.String as Str
use orbi_pay_gateway_v.Prelude.{
  ℕ, ◌+◌, ◌*◌, Bool, true, false, not, ◌||◌, ◌&&◌, ◌==◌, ltb, leb, String, Option, none, some, List,
  [], ◌∷◌, if◌then◌else◌, Result, ok, err, any, all, find, filter, map, includes, unique,
  sort_descending,
}
use orbi_pay_gateway_v.Prelude.Dict
use orbi_pay_gateway_v.Prelude.Dict.{Dict}
use orbi_pay_gateway_v.Prelude.Text.{trim, truthy, is_empty, slug}
use orbi_pay_gateway_v.Prelude.Json.{Json, object, set_field, fields_of}
use orbi_pay_gateway_v.Environments.{Environment, env_eq}
use Data.{
  Receipt, ReceiptCreate, Revocation, Filters, Question, ConsentEvidence, ConsentStatus, active,
  revoked, expired, status_eq, Evaluation, EvaluationStatus, is_active, is_expiring_soon,
  is_revoked, is_expired, is_missing, RenewalReason, consent_expiring_soon, consent_revoked,
  consent_expired, consent_missing,
}

pub data Error : Type 0 where
  consent_receipt_not_found : Error

abbrev pub Store : Type 0
Store = Dict Receipt

abbrev pub derive_status : ℕ → Receipt → ConsentStatus
derive_status now receipt = elim receipt.revoked_at [
  | some _ ↦ revoked
  | none ↦
      if status_eq receipt.status revoked
      then revoked
      else if leb receipt.expires_at now
      then expired
      else active
]

-- The schema accepts what the store wrote, so that reading a receipt only derives its status.
abbrev pub parse_receipt : ℕ → Receipt → Receipt
parse_receipt now receipt = record receipt { status = derive_status now receipt }

abbrev pub has_evidence : String → String → Receipt → Bool
has_evidence service_code evidence_hash item =
    item.service_code == service_code && item.evidence.evidence_hash == evidence_hash

pub new_receipt : ℕ → String → ReceiptCreate → Receipt
new_receipt now random input = record {
  service_code = slug input.service_code;
  environment = input.environment;
  subject_type = input.subject_type;
  subject_id = input.subject_id;
  external_subject_id = input.external_subject_id;
  scopes = unique input.scopes;
  purpose = input.purpose;
  expires_at = input.expires_at;
  context = input.context;
  evidence = input.evidence;
  metadata = input.metadata;
  consent_id = Str.◌++◌ "consent_" random;
  status = active;
  created_at = now;
  updated_at = now;
  revoked_at = none;
  revoked_by = none;
  revocation_reason = none;
}

pub create : ℕ → String → ReceiptCreate → Store → Store × Receipt
create now random input s =
    let receipt = new_receipt now random input in
    elim (find (has_evidence receipt.service_code receipt.evidence.evidence_hash) (Dict.values s)) [
      | some existing ↦ (s, parse_receipt now existing)
      | none ↦ (Dict.set receipt.consent_id receipt s, receipt)
    ]

-- `filter && value !== filter` fails: an empty filter does not count.
abbrev pub passes : String → String → Bool
passes filter value = is_empty filter || value == filter

abbrev pub service_filter : Option String → String
service_filter f = elim (truthy f) [ none ↦ "" | some code ↦ slug code ]

abbrev pub text_filter : Option String → String
text_filter f = elim f [ none ↦ "" | some t ↦ t ]

abbrev pub passes_status : Option ConsentStatus → ConsentStatus → Bool
passes_status none status = true
passes_status (some f) status = status_eq status f

abbrev pub is_selected : Filters → Receipt → Bool
is_selected filters receipt =
    passes (service_filter filters.service_code) receipt.service_code
    && passes (text_filter filters.subject_id) receipt.subject_id
    && passes_status filters.status receipt.status

pub filter_receipts : ℕ → List Receipt → Filters → List Receipt
filter_receipts now receipts filters =
    sort_descending (λ r. r.created_at)
      (filter (is_selected filters) (map (parse_receipt now) receipts))

pub list_receipts : ℕ → Filters → Store → List Receipt
unfolding filter_receipts
list_receipts now filters s = filter_receipts now (Dict.values s) filters

unfoldable pub get : ℕ → String → Store → Result Error Receipt
get now consent_id s = elim (Dict.get consent_id s) [
  | none ↦ err consent_receipt_not_found
  | some receipt ↦ ok (parse_receipt now receipt)
]

pub find_by_evidence_hash : ℕ → String → String → Store → Option Receipt
find_by_evidence_hash now service_code evidence_hash s =
    let normalized = trim evidence_hash in
    if is_empty normalized
    then none
    else elim (find (has_evidence (slug service_code) normalized) (Dict.values s)) [
      | none ↦ none
      | some receipt ↦ some (parse_receipt now receipt)
    ]

abbrev pub revoked_receipt : ℕ → Revocation → Receipt → Receipt
revoked_receipt now input existing = record existing {
  status = revoked;
  revoked_at = some now;
  revoked_by = some input.revoked_by;
  revocation_reason = some input.reason;
  updated_at = now;
  metadata = some (
      object (
        set_field "revocationMetadata" (object (fields_of input.metadata))
          (fields_of existing.metadata)));
}

pub revoke : ℕ → String → Revocation → Store → Store × Result Error Receipt
revoke now consent_id input s = elim (get now consent_id s) [
  | err e ↦ (s, err e)
  | ok existing ↦ if status_eq existing.status revoked then (s, ok existing) else (
    Dict.set existing.consent_id (revoked_receipt now input existing) s,
    ok (revoked_receipt now input existing),
  )
]

-- The receipt is of the environment, if one is asked for, and covers the scopes.
abbrev pub covers : List String → Option Environment → Receipt → Bool
covers required none receipt = all (λ scope. includes scope receipt.scopes) required
covers required (some environment) receipt =
    env_eq receipt.environment environment && all (λ scope. includes scope receipt.scopes) required

abbrev pub filters_of : Question → Option ConsentStatus → Filters
filters_of q status = record {
  service_code = some q.service_code;
  subject_id = some q.subject_id;
  status = status;
}

pub has_active_consent : ℕ → Question → Store → Bool
has_active_consent now q s =
    any (covers (unique q.scopes) q.environment) (list_receipts now (filters_of q (some active)) s)

abbrev pub denied_evaluation : EvaluationStatus → RenewalReason → List String → Receipt → Evaluation
denied_evaluation status reason scopes receipt = record {
  status = status;
  allowed = false;
  renewal_required = true;
  renewal_reason = some reason;
  consent_id = some receipt.consent_id;
  expires_at = some receipt.expires_at;
  scopes = scopes;
  receipt = some receipt;
}

abbrev pub active_evaluation : ℕ → ℕ → List String → Receipt → Evaluation
active_evaluation now renewal_window_days scopes receipt =
    let expiring_soon = leb receipt.expires_at (now + renewal_window_days * 86400000) in
    record {
      status = if expiring_soon then is_expiring_soon else is_active;
      allowed = true;
      renewal_required = expiring_soon;
      renewal_reason = if expiring_soon then some consent_expiring_soon else none;
      consent_id = some receipt.consent_id;
      expires_at = some receipt.expires_at;
      scopes = scopes;
      receipt = some receipt;
    }

abbrev pub missing_evaluation : List String → Evaluation
missing_evaluation scopes = record {
  status = is_missing;
  allowed = false;
  renewal_required = true;
  renewal_reason = some consent_missing;
  consent_id = none;
  expires_at = none;
  scopes = scopes;
  receipt = none;
}

abbrev pub has_status : ConsentStatus → Receipt → Bool
has_status status receipt = status_eq receipt.status status

-- `now` is the time of the evaluation, `read_at` that of the process.
pub candidates : ℕ → ℕ → Question → Store → List Receipt
candidates read_at now q s =
    sort_descending (λ r. r.expires_at)
      (filter (covers (unique q.scopes) q.environment)
        (map (parse_receipt now) (list_receipts read_at (filters_of q none) s)))

-- The window is `Math.max(0, renewalWindowDays ?? 30)`.
pub evaluate_consent : ℕ → ℕ → ℕ → Question → Store → Evaluation
evaluate_consent read_at now renewal_window_days q s =
    let receipts = candidates read_at now q s in
    let scopes = unique q.scopes in
    elim (find (has_status active) receipts) [
      | some receipt ↦ active_evaluation now renewal_window_days scopes receipt
      | none ↦ elim (find (has_status revoked) receipts) [
        | some receipt ↦ denied_evaluation is_revoked consent_revoked scopes receipt
        | none ↦ elim (find (has_status expired) receipts) [
          | some receipt ↦ denied_evaluation is_expired consent_expired scopes receipt
          | none ↦ missing_evaluation scopes
        ]
      ]
    ]
