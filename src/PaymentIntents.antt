-- ===== src/PaymentIntents.antt =====
-- services/paymentIntentStore.ts: the in-memory store of payment intents, the class
-- `PaymentIntentStore`. An operation that may throw returns the store and the result; time, the
-- random identifier and the configured base URL are arguments of the call.
pub mod Data
pub mod Invariant
pub mod History
pub mod Replay
mod Tests
use Prim.Native.String as Str
use orbi_pay_gateway_v.Prelude.{
  ℕ, Bool, true, false, not, ◌&&◌, ◌==◌, leb, String, Option, none, some, List, [], if◌then◌else◌,
  Result, ok, err, filter,
}
use orbi_pay_gateway_v.Prelude.Dict
use orbi_pay_gateway_v.Prelude.Dict.{Dict}
use orbi_pay_gateway_v.Prelude.Text.{is_empty, trim, to_upper, truthy, remove_char, drop_last}
use orbi_pay_gateway_v.Prelude.Json.{Json, text, text_or_empty}
use orbi_pay_gateway_v.PaymentIntents.Data.{
  Operation, IntentStatus, requires_confirmation, submitted_to_core, ProviderStatus,
  ProviderResponse, CoreSubmission, CoreResult, WebhookDelivery, CoreEvent, Intent, CreateInput,
}
use mathlib.Core.Option as Opt

pub data Error : Type 0 where
  payment_intent_not_found payment_intent_idempotency_mismatch : Error

-- What a call takes from outside the store.
pub record Runtime : Type 0 where
  pub public_base_url : String
  pub uuid : String
  pub now : ℕ

pub record Store : Type 0 where
  pub intents : Dict Intent
  pub service_reference_index : Dict String
  pub service_idempotency_index : Dict String

pub empty : Store
empty = record { intents = []; service_reference_index = []; service_idempotency_index = [] }

-- `${service.code}:${reference}`
pub index_key : String → String → String
index_key service_code name = Str.◌++◌ service_code (Str.◌++◌ ":" name)

unfoldable pub get : Store → String → String → Result Error Intent
get s service_code intent_id = elim (Dict.get intent_id s.intents) [
  | none ↦ err payment_intent_not_found
  | some intent ↦
      if intent.service_code == service_code then ok intent else err payment_intent_not_found
]

pub get_by_id : Store → String → Result Error Intent
get_by_id s intent_id = elim (Dict.get intent_id s.intents) [
  | none ↦ err payment_intent_not_found
  | some intent ↦ ok intent
]

abbrev pub fingerprint_text : Option Json → String
fingerprint_text none = ""
fingerprint_text (some v) = text_or_empty v

-- The fingerprint that an intent was made under, empty if there is none.
pub stored_fingerprint : Intent → String
stored_fingerprint intent = fingerprint_text (Dict.get "idempotencyFingerprint" intent.metadata)

-- The test of a retry: both fingerprints are there and differ.
pub mismatches : Option String → String → Bool
mismatches given stored = elim (truthy given) [
  | none ↦ false
  | some g ↦ not (is_empty stored) && not (g == stored)
]

abbrev set_text : String → Option String → Dict Json → Dict Json
set_text name none m = m
set_text name (some v) m = Dict.set name (text v) m

abbrev or_empty : Option (Dict Json) → Dict Json
or_empty none = []
or_empty (some m) = m

pub intent_id : Runtime → String
intent_id r = Str.◌++◌ "pi_" (remove_char b'-' r.uuid)

-- The intent that `create` stores; `key` is the trimmed idempotency key.
pub new_intent : Runtime → Option String → CreateInput → Intent
new_intent r key input = record {
  id = intent_id r;
  service_code = input.service_code;
  operation = input.operation;
  payment_category = input.payment_category;
  payment_rail = input.payment_rail;
  provider_code = input.provider_code;
  reference = input.reference;
  amount = input.amount;
  currency = to_upper input.currency;
  status = requires_confirmation;
  description = input.description;
  customer = input.customer;
  wallet_id = input.wallet_id;
  account_number = input.account_number;
  metadata =
      set_text "idempotencyFingerprint" (truthy input.idempotency_fingerprint)
        (set_text "idempotencyKey" key (or_empty input.metadata));
  checkout_url = Str.◌++◌ (drop_last b'/' r.public_base_url) (Str.◌++◌ "/checkout/" (intent_id r));
  return_url = input.return_url;
  provider_response = none;
  core_submission = none;
  core_result = none;
  webhook_delivery = none;
  created_at = r.now;
  updated_at = r.now;
}

abbrev index_if : Option String → String → String → Dict String → Dict String
index_if none service_code id m = m
index_if (some key) service_code id m = Dict.set (index_key service_code key) id m

pub insert : Runtime → Option String → CreateInput → Store → Store
insert r key input s = record {
  intents = Dict.set (intent_id r) (new_intent r key input) s.intents;
  service_reference_index =
      Dict.set (index_key input.service_code input.reference) (intent_id r)
        s.service_reference_index;
  service_idempotency_index =
      index_if key input.service_code (intent_id r) s.service_idempotency_index;
}

-- The part of `create` behind the idempotency key: by the reference, or a new intent.
pub create_by_reference :
    Runtime → Option String → CreateInput → Store → Store × Result Error Intent
create_by_reference r key input s =
    elim (truthy
      (Dict.get (index_key input.service_code input.reference) s.service_reference_index)) [
        | some id ↦ (s, get s input.service_code id)
        | none ↦ (insert r key input s, ok (new_intent r key input))
      ]

-- A retry under a known key: the intent of the first call, unless its payload differs.
pub replay : Option String → Result Error Intent → Result Error Intent
replay given (ok existing) =
    if mismatches given (stored_fingerprint existing)
    then err payment_intent_idempotency_mismatch
    else ok existing
replay given (err e) = err e

pub trimmed_key : CreateInput → Option String
trimmed_key input = truthy (Opt.map trim input.idempotency_key)

pub create_with_key : Runtime → Option String → CreateInput → Store → Store × Result Error Intent
create_with_key r none input s = create_by_reference r none input s
create_with_key r (some key) input s =
    elim (truthy (Dict.get (index_key input.service_code key) s.service_idempotency_index)) [
      | some id ↦ (s, replay input.idempotency_fingerprint (get s input.service_code id))
      | none ↦ create_by_reference r (some key) input s
    ]

pub create : Runtime → CreateInput → Store → Store × Result Error Intent
create r input s = create_with_key r (trimmed_key input) input s

-- `update`: the caller's copy of the intent, patched, replaces what is stored under its id.
unfoldable pub update : ℕ → Intent → Store → Store × Intent
update now patched s =
    let updated : Intent = record patched { updated_at = now } in
    (record s { intents = Dict.set patched.id updated s.intents }, updated)

pub mark_processing : ℕ → Intent → Store → Store × Intent
mark_processing now intent = update now (record intent { status = IntentStatus.processing })

pub mark_submitted_to_core : ℕ → Intent → Json → Store → Store × Intent
mark_submitted_to_core now intent response = update now (record intent {
  status = submitted_to_core;
  core_submission = some (record { submitted = true; response = some response; error = none });
})

pub mark_core_submission_failed : ℕ → Intent → String → Store → Store × Intent
mark_core_submission_failed now intent error = update now (record intent {
  status = IntentStatus.failed;
  core_submission = some (record { submitted = false; response = none; error = some error });
})

abbrev from_provider : ProviderStatus → IntentStatus
from_provider ProviderStatus.pending = IntentStatus.pending
from_provider ProviderStatus.processing = IntentStatus.processing
from_provider ProviderStatus.completed = IntentStatus.completed
from_provider ProviderStatus.failed = IntentStatus.failed

pub apply_provider_response : ℕ → Intent → ProviderResponse → Store → Store × Intent
apply_provider_response now intent response =
    update now
      (record intent { provider_response = some response; status = from_provider response.status })

unfoldable pub apply_webhook_delivery : ℕ → Intent → Option WebhookDelivery → Store → Store × Intent
apply_webhook_delivery now intent delivery =
    update now (record intent { webhook_delivery = delivery })

unfoldable pub apply_core_event : ℕ → Intent → CoreEvent → Store → Store × Intent
apply_core_event now intent event = update now (record intent {
  status = event.status;
  core_result = some (record {
    status = event.status;
    message = event.message;
    transaction_id = event.transaction_id;
    challenge = event.challenge;
    raw = event.raw;
  });
})
