-- ===== src/WebhookDeliveries/Tests.antt =====
-- Replays on a concrete log.
use orbi_pay_gateway_v.Prelude.{
  ℕ, ◌≡◌, ◌<◌, refl, true, String, Option, none, some, [], ◌∷◌, inl, ok, find, filter,
}
use orbi_pay_gateway_v.WebhookDeliveries.{
  DeliveryRecord, DeliveryStatus, Store, is_replay_of, existing_replays, next_replay_attempt, get,
}
use orbi_pay_gateway_v.WebhookDeliveries.Replays.{
  finish_replay, IsNumbered, finish_replay-gt_older, overlapping_replays,
}

abbrev delivery : String → ℕ → Option String → DeliveryRecord
delivery id attempt replay_of = record {
  delivery_id = id;
  event_id = "e1";
  service_code = "shop";
  intent_id = some "pi_1";
  resource_id = none;
  event_type = "payment_intent.updated";
  payload = none;
  callback_url = none;
  status = DeliveryStatus.failed;
  attempt = attempt;
  status_code = some 500;
  error = none;
  replay_of = replay_of;
  replay_reason = none;
  replay_requested_by = none;
  replay_request_id = none;
  replay_metadata = none;
  created_at = 1000;
  updated_at = 1000;
}

abbrev log : Store
log = delivery "whdel_2" 2 (some "whdel_1") ∷ delivery "whdel_1" 1 none ∷ []

abbrev first : DeliveryRecord
first = delivery "whdel_1" 1 none

asked : next_replay_attempt "whdel_1" log ≡ ok (first, 3)
unfolding next_replay_attempt get find existing_replays filter
asked = refl

numbered : IsNumbered "whdel_1" log
unfolding existing_replays filter
numbered = (λ h. refl, (λ h. absurd (cc), tt))

finish_replay-gt_older_example :
    (is_replay_of "whdel_1" (finish_replay 2000 "3" first 3 (delivery "" 0 none) log).1 ≡ true)
    × (2 < (finish_replay 2000 "3" first 3 (delivery "" 0 none) log).1.attempt)
finish_replay-gt_older_example =
    finish_replay-gt_older "whdel_1" "3" 2000 3 first (delivery "" 0 none)
      (delivery "whdel_2" 2 (some "whdel_1")) log asked numbered (inl refl) refl

overlapping_replays_example :
    let one = finish_replay 2000 "3" first 3 (delivery "" 0 none) log in
    let two = finish_replay 2500 "4" first 3 (delivery "" 0 none) one.0 in
    (one.1.attempt ≡ two.1.attempt) × ¬ IsNumbered "whdel_1" two.0
overlapping_replays_example =
    overlapping_replays "whdel_1" "3" "4" 2000 2500 3 3 first first (delivery "" 0 none)
      (delivery "" 0 none) log asked asked
