-- ===== src/WebhookDeliveries.antt =====
-- services/webhookDeliveryStore.ts: the log of webhook deliveries, newest first. The file that the
-- class writes after each change is not modelled: the state is the value between two calls. Filters
-- that the class reads as dates come parsed.
pub mod Replays
mod Tests
use Prim.Native.String as Str
use orbi_pay_gateway_v.Prelude.{
  ℕ, ◌+◌, Bool, true, false, not, ◌&&◌, ◌==◌, leb, String, Option, none, some, List, [], ◌∷◌,
  Result, ok, err, filter, find, length,
}
use orbi_pay_gateway_v.Prelude.Dict.{Dict}
use orbi_pay_gateway_v.Prelude.Json.{Json}
use orbi_pay_gateway_v.Prelude.Text.{truthy}

pub data DeliveryStatus : Type 0 where
  pending delivered failed : DeliveryStatus

pub data Error : Type 0 where
  webhook_delivery_not_found : Error

pub record DeliveryRecord : Type 0 where
  pub delivery_id : String
  pub event_id : String
  pub service_code : String
  pub intent_id : Option String
  pub resource_id : Option String
  pub event_type : String
  pub payload : Option (Dict Json)
  pub callback_url : Option String
  pub status : DeliveryStatus
  pub attempt : ℕ
  pub status_code : Option ℕ
  pub error : Option String
  pub replay_of : Option String
  pub replay_reason : Option String
  pub replay_requested_by : Option String
  pub replay_request_id : Option String
  pub replay_metadata : Option (Dict Json)
  pub created_at : ℕ
  pub updated_at : ℕ

abbrev pub Store : Type 0
Store = List DeliveryRecord

-- `record`: the input carries no identifier and no times of its own; they are written here.
pub record_delivery : ℕ → String → DeliveryRecord → Store → Store × DeliveryRecord
record_delivery now uuid input s =
    let made : DeliveryRecord = record input {
      delivery_id = Str.◌++◌ "whdel_" uuid;
      created_at = now;
      updated_at = now;
    } in
    (made ∷ s, made)

pub record Filters : Type 0 where
  pub service_code : Option String
  pub intent_id : Option String
  pub status : Option String
  pub from : Option ℕ
  pub to : Option ℕ

abbrev status_text : DeliveryStatus → String
status_text pending = "pending"
status_text delivered = "delivered"
status_text failed = "failed"

-- `filter && value !== filter` fails: no filter, or the same text.
abbrev pub matches : Option String → Option String → Bool
matches none value = true
matches (some f) none = false
matches (some f) (some v) = v == f

abbrev pub starts_by : Option ℕ → ℕ → Bool
starts_by none t = true
starts_by (some from) t = leb from t

abbrev pub ends_by : Option ℕ → ℕ → Bool
ends_by none t = true
ends_by (some to) t = leb t to

pub is_listed : Filters → DeliveryRecord → Bool
is_listed f r =
    matches (truthy f.service_code) (some r.service_code)
    && matches (truthy f.intent_id) r.intent_id
    && matches (truthy f.status) (some (status_text r.status))
    && (starts_by f.from r.created_at && ends_by f.to r.created_at)

pub list_deliveries : Filters → Store → List DeliveryRecord
list_deliveries f s = filter (is_listed f) s

pub get : String → Store → Result Error DeliveryRecord
get delivery_id s = elim (find (λ r. r.delivery_id == delivery_id) s) [
  | none ↦ err webhook_delivery_not_found
  | some r ↦ ok r
]

abbrev pub is_replay_of : String → DeliveryRecord → Bool
is_replay_of delivery_id r = elim r.replay_of [ none ↦ false | some id ↦ id == delivery_id ]

pub existing_replays : String → Store → ℕ
existing_replays delivery_id s = length (filter (is_replay_of delivery_id) s)

pub next_replay_attempt : String → Store → Result Error (DeliveryRecord × ℕ)
next_replay_attempt delivery_id s = elim (get delivery_id s) [
  | err e ↦ err e
  | ok original ↦ ok (original, existing_replays delivery_id s + 2)
]
