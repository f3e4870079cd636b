-- ===== src/PaymentIntents/Tests.antt =====
-- Payment intents on concrete stores.
use orbi_pay_gateway_v.Prelude.{◌≡◌, refl, none, some, ok, err, if◌then◌else◌}
use orbi_pay_gateway_v.Prelude.Dict
use orbi_pay_gateway_v.Prelude.Text.{trim, trim_start, trim_end, is_space, truthy, remove_char}
use orbi_pay_gateway_v.PaymentIntents.Data.{Intent, CreateInput, Operation}
use orbi_pay_gateway_v.PaymentIntents.{
  Store, Runtime, empty, create, create_with_key, create_by_reference, insert, new_intent,
  intent_id, index_key, trimmed_key, stored_fingerprint, mismatches,
  payment_intent_idempotency_mismatch,
}
use orbi_pay_gateway_v.PaymentIntents.Invariant.{IsValid, empty-IsValid}
use orbi_pay_gateway_v.PaymentIntents.History.{
  here, next, Step, apply, start_processing, Reach-empty-IsValid,
}
use orbi_pay_gateway_v.PaymentIntents.Replay.{create_retried}

abbrev runtime : Runtime
runtime = record { public_base_url = "https://pay.example/"; uuid = "0-1"; now = 1000 }

abbrev input : CreateInput
input = record {
  service_code = "shop";
  operation = Operation.collection;
  payment_category = none;
  payment_rail = none;
  provider_code = none;
  reference = "order-1";
  amount = 500;
  currency = "tzs";
  description = none;
  customer = none;
  wallet_id = none;
  account_number = none;
  return_url = none;
  idempotency_key = some " k1 ";
  idempotency_fingerprint = some "f1";
  metadata = none;
}

abbrev retry : CreateInput
retry = record input { amount = 700; reference = "order-2"; idempotency_fingerprint = some "f2" }

abbrev made : Intent
made = new_intent runtime (some "k1") input

abbrev stored : Store
stored = insert runtime (some "k1") input empty

creation : create runtime input empty ≡ (stored, ok made)
unfolding create create_with_key create_by_reference trimmed_key trim trim_start trim_end is_space
    truthy index_key empty Dict.get
creation = refl

create_retried_example :
    (j : Intent) × (create runtime retry (apply start_processing 2000 made stored).0 ≡ (
      (apply start_processing 2000 made stored).0,
      if mismatches (some "f2") (stored_fingerprint made)
          then err payment_intent_idempotency_mismatch
          else ok j,
    ))
    × (j.id ≡ made.id)
    × (j.service_code ≡ made.service_code)
    × (j.metadata ≡ made.metadata)
unfolding trimmed_key trim trim_start trim_end is_space truthy index_key empty insert new_intent
    intent_id remove_char Dict.get Dict.set
create_retried_example =
    create_retried runtime runtime input retry empty stored
      (apply start_processing 2000 made stored).0 "k1" made empty-IsValid refl refl refl creation
      (next here (Step.changed start_processing 2000 made (made, refl, refl, refl))) refl refl

Reach-empty-IsValid_example : IsValid (create runtime input empty).0
unfolding intent_id empty Dict.get
Reach-empty-IsValid_example = Reach-empty-IsValid (next here (Step.created runtime input refl))
