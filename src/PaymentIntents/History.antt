-- ===== src/PaymentIntents/History.antt =====
-- Histories of the payment intent store: sequences of its calls.
use orbi_pay_gateway_v.Prelude.{
  ℕ, ◌≡◌, refl, String, Option, none, some, inl, inr, Option-cases, ◌∙◌,
}
use orbi_pay_gateway_v.Prelude.Dict
use orbi_pay_gateway_v.Prelude.Json.{Json}
use orbi_pay_gateway_v.Prelude.Text.{truthy}
use orbi_pay_gateway_v.PaymentIntents.Data.{
  Intent, CreateInput, ProviderResponse, WebhookDelivery, CoreEvent,
}
use orbi_pay_gateway_v.PaymentIntents.{
  Store, Runtime, empty, insert, index_key, intent_id, create, create_with_key, create_by_reference,
  trimmed_key, update, mark_processing, mark_submitted_to_core, mark_core_submission_failed,
  apply_provider_response, apply_webhook_delivery, apply_core_event,
}
use orbi_pay_gateway_v.PaymentIntents.Invariant.{
  IsValid, IsStored, empty-IsValid, create-IsValid, update-IsValid,
}

-- The calls that change a stored intent.
pub data Update : Type 0 where
  start_processing : Update
  submit_to_core : Json → Update
  fail_submission : String → Update
  provider_response : ProviderResponse → Update
  webhook_delivery : Option WebhookDelivery → Update
  core_event : CoreEvent → Update

pub apply : Update → ℕ → Intent → Store → Store × Intent
apply start_processing now intent = mark_processing now intent
apply (submit_to_core response) now intent = mark_submitted_to_core now intent response
apply (fail_submission error) now intent = mark_core_submission_failed now intent error
apply (provider_response response) now intent = apply_provider_response now intent response
apply (webhook_delivery delivery) now intent = apply_webhook_delivery now intent delivery
apply (core_event event) now intent = apply_core_event now intent event

-- One call: a creation whose identifier is not in use, or a change of a caller's copy of a stored
-- intent, which may be older than what is stored.
pub data Step (s : Store) : Store → Type 0 where
  created :
      (r : Runtime) (input : CreateInput)
      → Dict.get (intent_id r) s.intents ≡ none
      → Step s (create r input s).0
  changed :
      (u : Update) (now : ℕ) (intent : Intent) → IsStored s intent → Step s (apply u now intent s).0

pub data Reach (s : Store) : Store → Type 0 where
  here : Reach s s
  next : {t u : Store} → Reach s t → Step t u → Reach s u

-- What a change writes: a copy with the same identifier, service and metadata.
pub apply_cases :
    (u : Update) (now : ℕ) (intent : Intent) (s : Store)
    → (p : Intent) × (apply u now intent s ≡ update now p s)
      × (p.id ≡ intent.id)
      × (p.service_code ≡ intent.service_code)
      × (p.metadata ≡ intent.metadata)
unfolding apply mark_processing mark_submitted_to_core mark_core_submission_failed
    apply_provider_response apply_webhook_delivery apply_core_event
apply_cases start_processing now intent s = (_, refl, refl, refl, refl)
apply_cases (submit_to_core response) now intent s = (_, refl, refl, refl, refl)
apply_cases (fail_submission error) now intent s = (_, refl, refl, refl, refl)
apply_cases (provider_response response) now intent s = (_, refl, refl, refl, refl)
apply_cases (webhook_delivery delivery) now intent s = (_, refl, refl, refl, refl)
apply_cases (core_event event) now intent s = (_, refl, refl, refl, refl)

-- The copy that a change writes is of a stored intent too.
pub apply-IsStored :
    (s : Store) (intent p : Intent)
    → p.id ≡ intent.id
    → p.service_code ≡ intent.service_code
    → p.metadata ≡ intent.metadata
    → IsStored s intent
    → IsStored s p
apply-IsStored s intent p a b c (old, d, e, f) = (old, rw a d, b ∙ e, c ∙ f)

pub Step-IsValid : {s t : Store} → Step s t → IsValid s → IsValid t
Step-IsValid {s} (created r input fresh) v = create-IsValid r input s fresh v
Step-IsValid {s} (changed u now intent stored) v =
    let (p, e, a, b, c) = apply_cases u now intent s in
    rw e (update-IsValid now p s (apply-IsStored s intent p a b c stored) v)

pub Reach-IsValid : {s t : Store} → Reach s t → IsValid s → IsValid t
Reach-IsValid here v = v
Reach-IsValid (next r st) v = Step-IsValid st (Reach-IsValid r v)

-- After any sequence of calls on a new store, in which every creation draws an identifier that is
-- not in use and every change is handed a copy of a stored intent: each intent is stored under its
-- own identifier, and every entry of the reference index and of the idempotency index leads to a
-- stored intent of the service in the entry's key.
pub Reach-empty-IsValid : {t : Store} → Reach empty t → IsValid t
Reach-empty-IsValid r = Reach-IsValid r empty-IsValid

-- A creation inserts one intent or leaves the store as it was; it inserts under an idempotency key
-- only if the key leads nowhere yet.
pub data Created (r : Runtime) (input : CreateInput) (s : Store) : Store → Type 0 where
  kept : Created r input s s
  inserted :
      (key : Option String)
      → ((k : String)
          → key ≡ some k
          → truthy (Dict.get (index_key input.service_code k) s.service_idempotency_index) ≡ none)
      → Created r input s (insert r key input s)

create_by_reference-Created :
    (r : Runtime) (key : Option String) (input : CreateInput) (s : Store)
    → ((k : String)
        → key ≡ some k
        → truthy (Dict.get (index_key input.service_code k) s.service_idempotency_index) ≡ none)
    → Created r input s (create_by_reference r key input s).0
unfolding create_by_reference
create_by_reference-Created r key input s free =
    elim (Option-cases (
      truthy (Dict.get (index_key input.service_code input.reference) s.service_reference_index))) [
        | inl e ↦ rw (e, create_by_reference) (inserted key free)
        | inr (id, e) ↦ rw (e, create_by_reference) kept
      ]

create_with_key-Created :
    (r : Runtime) (key : Option String) (input : CreateInput) (s : Store)
    → Created r input s (create_with_key r key input s).0
unfolding create_with_key
create_with_key-Created r none input s =
    create_by_reference-Created r none input s (λ k e. absurd (cc))
create_with_key-Created r (some key) input s =
    elim (Option-cases
      (truthy (Dict.get (index_key input.service_code key) s.service_idempotency_index))) [
        | inl e ↦
            rw (e, create_with_key) (create_by_reference-Created r (some key) input s (λ k p. cc))
        | inr (id, e) ↦ rw (e, create_with_key) kept
      ]

pub create-Created :
    (r : Runtime) (input : CreateInput) (s : Store) → Created r input s (create r input s).0
unfolding create
create-Created r input s = create_with_key-Created r (trimmed_key input) input s
