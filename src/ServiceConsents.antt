-- ===== src/ServiceConsents.antt =====
-- services/serviceScopePolicy.ts and services/serviceConsentGuard.ts: the scope that an operation
-- needs, and the guard that the routes call. `portal` is what the portal store knows of a service: the
-- scopes granted to it, or nothing.
pub mod Guard
mod Tests
use orbi_pay_gateway_v.Prelude.{
  ℕ, ◌≡◌, ◌↔◌, ◌⊎◌, inl, inr, refl, arith, Bool, true, false, not, ◌||◌, ◌==◌, String, Option, none,
  some, List, [], ◌∷◌, if◌then◌else◌, Result, ok, err, throw_if, ◌>>◌, includes,
}
use orbi_pay_gateway_v.Prelude.Text.{trim, is_empty, truthy}
use orbi_pay_gateway_v.Prelude.Dict
use orbi_pay_gateway_v.Prelude.Dict.{Dict}
use orbi_pay_gateway_v.Prelude.Json.{Json, text_or_empty}
use orbi_pay_gateway_v.Environments.{Environment}
use orbi_pay_gateway_v.PaymentIntents.Data.{Operation}
use orbi_pay_gateway_v.Consents as Consents
use orbi_pay_gateway_v.Consents.Data.{Question}

pub data PaySafeAction : Type 0 where
  create_escrow release refund dispute : PaySafeAction

abbrev pub action_of_text : String → Option PaySafeAction
action_of_text t =
    if t == "create_escrow"
    then some create_escrow
    else if t == "release"
    then some release
    else if t == "refund"
    then some refund
    else if t == "dispute"
    then some dispute
    else none

pub pay_safe_action_from_metadata : Option (Dict Json) → Option PaySafeAction
pay_safe_action_from_metadata none = action_of_text ""
pay_safe_action_from_metadata (some metadata) = elim (Dict.get "paySafeAction" metadata) [
  | none ↦ action_of_text ""
  | some v ↦ action_of_text (trim (text_or_empty v))
]

abbrev pub scope_for_pay_safe_action : PaySafeAction → String
scope_for_pay_safe_action create_escrow = "escrow:create"
scope_for_pay_safe_action release = "escrow:release:request"
scope_for_pay_safe_action refund = "escrow:refund:request"
scope_for_pay_safe_action dispute = "escrow:dispute:create"

abbrev or_create : Option PaySafeAction → PaySafeAction
or_create none = create_escrow
or_create (some a) = a

pub scope_for_payment_operation : Operation → Option (Dict Json) → String
unfolding pay_safe_action_from_metadata
scope_for_payment_operation Operation.paysafe metadata =
    scope_for_pay_safe_action (or_create (pay_safe_action_from_metadata metadata))
scope_for_payment_operation Operation.payout metadata = "withdrawal:request"
scope_for_payment_operation Operation.collection metadata = "payments:create"
scope_for_payment_operation Operation.refund metadata = "payments:create"

pub record SubjectFields : Type 0 where
  pub user_id : Option String
  pub customer_id : Option String
  pub email : Option String
  pub phone : Option String
  pub identifier : Option String

abbrev or_else : Option String → String → String
or_else a b = elim (truthy a) [ none ↦ b | some t ↦ t ]

pub subject_id_for_consent : SubjectFields → String
subject_id_for_consent f = trim (
    or_else f.user_id
      (or_else f.customer_id (or_else f.email (or_else f.phone (or_else f.identifier "")))))

pub data Error : Type 0 where
  pay_service_scope_not_granted consent_subject_required consent_required : Error

module _ (portal : String → Option (List String)) where
  pub assert_service_scope_granted : String → String → Result Error (Unit {0})
  assert_service_scope_granted service scope = elim (portal service) [
    | none ↦ ok tt
    | some granted ↦ throw_if (not (includes scope granted)) pay_service_scope_not_granted
  ]

  pub assert_active_consent :
      ℕ
      → String
      → String
      → List String
      → Option Environment
      → Consents.Store
      → Result Error (Unit {0})
  assert_active_consent now service subject_id scopes environment s = elim (portal service) [
    | none ↦ ok tt
    | some _ ↦
        throw_if (is_empty subject_id) consent_subject_required
        >> throw_if
            (not (
              Consents.has_active_consent now
                (record {
                  service_code = service;
                  subject_id = subject_id;
                  scopes = scopes;
                  environment = environment;
                })
                s))
            consent_required
  ]

  pub assert_scoped_consent :
      ℕ → String → String → String → Option Environment → Consents.Store → Result Error (Unit {0})
  unfolding assert_service_scope_granted assert_active_consent
  assert_scoped_consent now service scope subject_id environment s =
      assert_service_scope_granted service scope
      >> assert_active_consent now service subject_id (scope ∷ []) environment s
