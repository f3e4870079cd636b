-- ===== src/PaymentIntents/Data.antt =====
-- The data of a payment intent (types.ts). Times are milliseconds; amounts are carried and never
-- computed with; `unknown` values are JSON.
use orbi_pay_gateway_v.Prelude.{ℕ, Bool, String, Option}
use orbi_pay_gateway_v.Prelude.Dict.{Dict}
use orbi_pay_gateway_v.Prelude.Json.{Json}

pub data Operation : Type 0 where
  collection payout refund paysafe : Operation

pub data Category : Type 0 where
  orbi mobile_money bank card : Category

pub data Rail : Type 0 where
  orbi_wallet mno_tz bank_transfer_tz card_gateway : Rail

pub data IntentStatus : Type 0 where
  requires_confirmation requires_action submitted_to_core processing pending completed failed :
      IntentStatus

pub data ProviderStatus : Type 0 where
  pending processing completed failed : ProviderStatus

pub data ChallengeType : Type 0 where
  otp pin passkey biometric three_ds : ChallengeType

pub data Channel : Type 0 where
  sms email push in_app : Channel

pub record Delivery : Type 0 where
  pub channel : Option Channel
  pub destination_hint : Option String

pub record Challenge : Type 0 where
  pub kind : ChallengeType
  pub challenge_id : String
  pub prompt : String
  pub expires_at : Option String
  pub delivery : Option Delivery
  pub metadata : Option (Dict Json)

pub data CustomerType : Type 0 where
  user guest external_customer : CustomerType

pub record Customer : Type 0 where
  pub kind : Option CustomerType
  pub name : Option String
  pub email : Option String
  pub phone : Option String
  pub user_id : Option String

pub record ProviderResponse : Type 0 where
  pub provider_code : String
  pub reference : String
  pub provider_reference : String
  pub status : ProviderStatus
  pub message : String
  pub raw : Option (Dict Json)

pub record CoreSubmission : Type 0 where
  pub submitted : Bool
  pub response : Option Json
  pub error : Option String

pub record CoreResult : Type 0 where
  pub status : IntentStatus
  pub message : Option String
  pub transaction_id : Option String
  pub challenge : Option Challenge
  pub raw : Option (Dict Json)

pub record WebhookDelivery : Type 0 where
  pub attempted : Bool
  pub delivered : Bool
  pub status_code : Option ℕ
  pub error : Option String

pub record CoreEvent : Type 0 where
  pub intent_id : String
  pub service_code : String
  pub status : IntentStatus
  pub message : Option String
  pub transaction_id : Option String
  pub challenge : Option Challenge
  pub raw : Option (Dict Json)

pub record Intent : Type 0 where
  pub id : String
  pub service_code : String
  pub operation : Operation
  pub payment_category : Option Category
  pub payment_rail : Option Rail
  pub provider_code : Option String
  pub reference : String
  pub amount : ℕ
  pub currency : String
  pub status : IntentStatus
  pub description : Option String
  pub customer : Option Customer
  pub wallet_id : Option String
  pub account_number : Option String
  pub metadata : Dict Json
  pub checkout_url : String
  pub return_url : Option String
  pub provider_response : Option ProviderResponse
  pub core_submission : Option CoreSubmission
  pub core_result : Option CoreResult
  pub webhook_delivery : Option WebhookDelivery
  pub created_at : ℕ
  pub updated_at : ℕ

-- The store reads only the code of the service of its input.
pub record CreateInput : Type 0 where
  pub service_code : String
  pub operation : Operation
  pub payment_category : Option Category
  pub payment_rail : Option Rail
  pub provider_code : Option String
  pub reference : String
  pub amount : ℕ
  pub currency : String
  pub description : Option String
  pub customer : Option Customer
  pub wallet_id : Option String
  pub account_number : Option String
  pub return_url : Option String
  pub idempotency_key : Option String
  pub idempotency_fingerprint : Option String
  pub metadata : Option (Dict Json)
