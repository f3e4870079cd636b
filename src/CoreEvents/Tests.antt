-- ===== src/CoreEvents/Tests.antt =====
-- Two events of one concrete intent.
use orbi_pay_gateway_v.Prelude.{
  ℕ, ◌≡◌, ◌≢◌, refl, sym, ap, ◌∙◌, false, String, Option, none, some, [], ◌∷◌, inl, inr, eq-cases,
}
use orbi_pay_gateway_v.Prelude.Dict
use orbi_pay_gateway_v.PaymentIntents
use orbi_pay_gateway_v.PaymentIntents.Data.{Intent, CoreEvent, CoreResult, IntentStatus, Operation}
use orbi_pay_gateway_v.CoreEvents.{World, ServiceDelivery, Draw, begin, finish, handle}
use orbi_pay_gateway_v.CoreEvents.Ordering.{Shows, handle-Shows, interleaved_event_lost}

abbrev intent : IntentStatus → Option CoreResult → ℕ → Intent
intent status core_result updated_at = record {
  id = "pi_1";
  service_code = "shop";
  operation = Operation.collection;
  payment_category = none;
  payment_rail = none;
  provider_code = none;
  reference = "order-1";
  amount = 500;
  currency = "TZS";
  status = status;
  description = none;
  customer = none;
  wallet_id = none;
  account_number = none;
  metadata = [];
  checkout_url = "https://pay.example/checkout/pi_1";
  return_url = none;
  provider_response = none;
  core_submission = none;
  core_result = core_result;
  webhook_delivery = none;
  created_at = 1000;
  updated_at = updated_at;
}

abbrev result : IntentStatus → CoreResult
result status = record {
  status = status;
  message = none;
  transaction_id = none;
  challenge = none;
  raw = none;
}

abbrev event : IntentStatus → CoreEvent
event status = record {
  intent_id = "pi_1";
  service_code = "shop";
  status = status;
  message = none;
  transaction_id = none;
  challenge = none;
  raw = none;
}

abbrev world : Intent → World
world i = record {
  intents = record {
    intents = ("pi_1", i) ∷ [];
    service_reference_index = [];
    service_idempotency_index = [];
  };
  deliveries = [];
}

abbrev unsent : ServiceDelivery
unsent = record {
  attempted = false;
  delivered = false;
  event_id = none;
  event_type = none;
  payload = none;
  callback_url = none;
  status_code = none;
  error = none;
}

abbrev draw : ℕ → Draw
draw now = record { now = now; event_uuid = "e"; delivery_uuid = "d" }

abbrev fresh : Intent
fresh = intent IntentStatus.pending none 1000

abbrev taken : IntentStatus → ℕ → Intent
taken status now = intent status (some (result status)) now

keyed :
    (i : Intent)
    → i.id ≡ "pi_1"
    → (id : String) (j : Intent) → Dict.get id (world i).intents.intents ≡ some j
    → j.id ≡ id
unfolding Dict.get
keyed i same id j e = elim (eq-cases "pi_1" id) [
  | inl (p, q) ↦ ap (λ (x : Intent). x.id) (sym (some-eq (rw (q) at e))) ∙ same ∙ p
  | inr (_, q) ↦ absurd (cc (rw (q) at e))
]
  where
    some-eq : {a b : Intent} → some a ≡ some b → a ≡ b
    some-eq h = cc

handle-Shows_example :
    Shows
      (finish
        (draw 3000)
        "shop"
        (taken IntentStatus.completed 2000)
        unsent
        (world (taken IntentStatus.completed 2000))).0
      "pi_1"
      (event IntentStatus.completed)
    × ((id : String)
        → id ≢ "pi_1"
        → Dict.get id
            (finish
              (draw 3000)
              "shop"
              (taken IntentStatus.completed 2000)
              unsent
              (world (taken IntentStatus.completed 2000))).0.intents.intents
          ≡ Dict.get id (world fresh).intents.intents)
unfolding handle begin PaymentIntents.get PaymentIntents.apply_core_event PaymentIntents.update
    Dict.get Dict.set
handle-Shows_example =
    handle-Shows 2000 (draw 3000) "shop" (event IntentStatus.completed) unsent (world fresh)
      (finish (draw 3000) "shop" (taken IntentStatus.completed 2000) unsent
        (world (taken IntentStatus.completed 2000))).0
      (finish (draw 3000) "shop" (taken IntentStatus.completed 2000) unsent
        (world (taken IntentStatus.completed 2000))).1
      (keyed fresh refl) refl

abbrev later : World
later =
    (finish (draw 4000) "shop" (taken IntentStatus.completed 3000) unsent
      (world (taken IntentStatus.completed 3000))).0

interleaved_event_lost_example :
    Shows later "pi_1" (event IntentStatus.completed)
    × Shows
        (finish (draw 5000) "shop" (taken IntentStatus.processing 2000) unsent later).0
        "pi_1"
        (event IntentStatus.processing)
    × (IntentStatus.processing ≢ IntentStatus.completed
        → ¬ Shows
            (finish (draw 5000) "shop" (taken IntentStatus.processing 2000) unsent later).0
            "pi_1"
            (event IntentStatus.completed))
unfolding handle begin PaymentIntents.get PaymentIntents.apply_core_event PaymentIntents.update
    Dict.get Dict.set
interleaved_event_lost_example =
    interleaved_event_lost 2000 3000 (draw 5000) (draw 4000) "shop" (event IntentStatus.processing)
      (event IntentStatus.completed) unsent unsent (world fresh)
      (world (taken IntentStatus.processing 2000)) later (taken IntentStatus.processing 2000)
      (finish (draw 4000) "shop" (taken IntentStatus.completed 3000) unsent
        (world (taken IntentStatus.completed 3000))).1
      (keyed fresh refl) refl refl refl
