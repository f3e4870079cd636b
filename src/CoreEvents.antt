-- ===== src/CoreEvents.antt =====
-- server.ts: the handler of Core's payment events, in its two parts around the wait for the webhook.
-- The service that the event names is resolved by the registry; its code is an argument, and the
-- outcome of the webhook is an argument of the second part.
pub mod Ordering
mod Tests
use orbi_pay_gateway_v.Prelude.{
  ℕ, Bool, true, String, Option, none, some, Result, ok, err, if◌then◌else◌, [], true, false,
}
use orbi_pay_gateway_v.Prelude.Dict.{Dict}
use orbi_pay_gateway_v.Prelude.Json.{Json}
use orbi_pay_gateway_v.Prelude.Text.{truthy}
use orbi_pay_gateway_v.PaymentIntents
use orbi_pay_gateway_v.PaymentIntents.{apply_core_event, apply_webhook_delivery}
use orbi_pay_gateway_v.PaymentIntents.Data.{Intent, CoreEvent, WebhookDelivery}
use orbi_pay_gateway_v.WebhookDeliveries
use orbi_pay_gateway_v.WebhookDeliveries.{DeliveryRecord, DeliveryStatus, record_delivery}

pub record World : Type 0 where
  pub intents : PaymentIntents.Store
  pub deliveries : WebhookDeliveries.Store

-- What `deliverServiceWebhook` answers.
pub record ServiceDelivery : Type 0 where
  pub attempted : Bool
  pub delivered : Bool
  pub event_id : Option String
  pub event_type : Option String
  pub payload : Option (Dict Json)
  pub callback_url : Option String
  pub status_code : Option ℕ
  pub error : Option String

-- What a call takes from outside: the time, and the identifiers that it draws.
pub record Draw : Type 0 where
  pub now : ℕ
  pub event_uuid : String
  pub delivery_uuid : String

-- Up to the wait: the intent of the service, with the event applied.
pub begin : ℕ → String → CoreEvent → World → Result PaymentIntents.Error (World × Intent)
begin now service_code event w = elim (PaymentIntents.get w.intents service_code event.intent_id) [
  | err e ↦ err e
  | ok intent ↦
      let (intents, updated) = apply_core_event now intent event w.intents in
      ok (record w { intents = intents }, updated)
]

abbrev or_else : Option String → String → String
or_else o fallback = elim (truthy o) [ none ↦ fallback | some s ↦ s ]

pub delivery_record : Draw → String → Intent → ServiceDelivery → DeliveryRecord
delivery_record draw service_code intent d = record {
  delivery_id = "";
  event_id = or_else d.event_id draw.event_uuid;
  service_code = service_code;
  intent_id = some intent.id;
  resource_id = none;
  event_type = or_else d.event_type "payment_intent.updated";
  payload = d.payload;
  callback_url = d.callback_url;
  status = if d.delivered then DeliveryStatus.delivered else DeliveryStatus.failed;
  attempt = 1;
  status_code = d.status_code;
  error = d.error;
  replay_of = none;
  replay_reason = none;
  replay_requested_by = none;
  replay_request_id = none;
  replay_metadata = none;
  created_at = 0;
  updated_at = 0;
}

abbrev webhook_of : ServiceDelivery → WebhookDelivery
webhook_of d = record {
  attempted = d.attempted;
  delivered = d.delivered;
  status_code = d.status_code;
  error = d.error;
}

-- After the wait: the log of an attempted delivery, and the outcome on the copy from before the wait.
pub finish : Draw → String → Intent → ServiceDelivery → World → World × Intent
unfolding delivery_record
finish draw service_code updated d w =
    let deliveries : WebhookDeliveries.Store =
      if d.attempted
      then (record_delivery draw.now draw.delivery_uuid
          (delivery_record draw service_code updated d) w.deliveries).0
      else w.deliveries in
    let (intents, delivered) =
      apply_webhook_delivery draw.now updated (some (webhook_of d)) w.intents in
    (record { intents = intents; deliveries = deliveries }, delivered)

-- The whole handler, with nothing of the store changed during the wait.
pub handle :
    ℕ
    → Draw
    → String
    → CoreEvent
    → ServiceDelivery
    → World
    → Result PaymentIntents.Error (World × Intent)
handle now draw service_code event d w = elim (begin now service_code event w) [
  | err e ↦ err e
  | ok (w', updated) ↦ ok (finish draw service_code updated d w')
]
