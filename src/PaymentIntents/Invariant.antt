-- ===== src/PaymentIntents/Invariant.antt =====
-- services/paymentIntentStore.ts: the well-formedness of the store, call by call.
use text.Mathlib.TextLemmas.{cons-append}
use orbi_pay_gateway_v.Prelude.{
  ℕ, ◌≡◌, refl, sym, ap, ◌∙◌, String, Option, none, some, inl, inr, Option-cases, eq-cases,
}
use orbi_pay_gateway_v.Prelude.Dict
use orbi_pay_gateway_v.Prelude.Dict.{get-set_cases, get-set_self, get-set_other, get-set}
use orbi_pay_gateway_v.Prelude.Text.{truthy, remove_char}
use orbi_pay_gateway_v.PaymentIntents.Data.{Intent, CreateInput}
use orbi_pay_gateway_v.PaymentIntents.{
  Store, Runtime, empty, insert, index_key, intent_id, new_intent, create, create_with_key,
  create_by_reference, trimmed_key, update, index_if,
}

-- An index entry leads to a stored intent of the service and the name in its key.
abbrev pub Leads : Store → String → String → Type 0
Leads s k id =
    (i : Intent) × (name : String) × (Dict.get id s.intents ≡ some i)
    × (k ≡ index_key i.service_code name)
    × (truthy (some id) ≡ some id)

pub record IsValid (s : Store) : Type 0 where
  pub ids : (id : String) (i : Intent) → Dict.get id s.intents ≡ some i → i.id ≡ id
  pub references : (k id : String) → Dict.get k s.service_reference_index ≡ some id → Leads s k id
  pub keys : (k id : String) → Dict.get k s.service_idempotency_index ≡ some id → Leads s k id

pub empty-IsValid : IsValid empty
unfolding empty Dict.get
empty-IsValid = record {
  ids = λ id i e. absurd (cc);
  references = λ k id e. absurd (cc);
  keys = λ k id e. absurd (cc);
}

-- The identifier of a new intent is never the empty text.
pub truthy-intent_id : (r : Runtime) → truthy (some (intent_id r)) ≡ some (intent_id r)
unfolding intent_id truthy
truthy-intent_id r = rw (cons-append _ "i_" (remove_char b'-' r.uuid))

module _ (r : Runtime) (key : Option String) (input : CreateInput) (s : Store)
    (fresh : Dict.get (intent_id r) s.intents ≡ none) where
  insert-Leads : (k id : String) → Leads s k id → Leads (insert r key input s) k id
  unfolding insert
  insert-Leads k id (i, name, e, n, t) = (
    i,
    name,
    get-set_other (intent_id r) id (new_intent r key input) s.intents
          (λ p. absurd (cc (ap (λ x. Dict.get x s.intents) p)))
        ∙ e,
    n,
    t,
  )

  insert-Leads_new :
      (name : String)
      → Leads (insert r key input s) (index_key input.service_code name) (intent_id r)
  unfolding insert new_intent
  insert-Leads_new name = (
    new_intent r key input,
    name,
    get-set_self (intent_id r) (new_intent r key input) s.intents,
    refl,
    truthy-intent_id r,
  )

  insert-Leads_key :
      IsValid s
      → (k id : String)
      → Dict.get k (index_if key input.service_code (intent_id r) s.service_idempotency_index)
        ≡ some id
      → Leads (insert r key input s) k id
  insert-Leads_key v = by_key key (λ name. insert-Leads_new name)
    where
      by_key :
          (o : Option String)
          → ((name : String)
              → Leads (insert r key input s) (index_key input.service_code name) (intent_id r))
          → (k id : String)
          → Dict.get k (index_if o input.service_code (intent_id r) s.service_idempotency_index)
            ≡ some id
          → Leads (insert r key input s) k id
      by_key none new k id e = insert-Leads k id (v.keys k id e)
      by_key (some name) new k id e =
          elim (get-set_cases (index_key input.service_code name) k (intent_id r)
            s.service_idempotency_index e) [
              | inl (p, q) ↦ rw (← p, ← q) (new name)
              | inr (_, q) ↦ insert-Leads k id (v.keys k id q)
            ]

  insert-IsValid : IsValid s → IsValid (insert r key input s)
  unfolding insert
  insert-IsValid v = record {
    ids = λ id i e. elim (get-set_cases (intent_id r) id (new_intent r key input) s.intents e) [
      | inl (p, q) ↦ rw (← q) (unfold new_intent in p)
      | inr (_, q) ↦ v.ids id i q
    ];
    references = λ k id e.
        elim (get-set_cases (index_key input.service_code input.reference) k (intent_id r)
          s.service_reference_index e) [
            | inl (p, q) ↦ rw (← p, ← q) (insert-Leads_new input.reference)
            | inr (_, q) ↦ insert-Leads k id (v.references k id q)
          ];
    keys = insert-Leads_key v;
  }

-- An identifier that is not in use keeps the store well formed, whatever the outcome of the call.
pub create-IsValid :
    (r : Runtime) (input : CreateInput) (s : Store)
    → Dict.get (intent_id r) s.intents ≡ none
    → IsValid s
    → IsValid (create r input s).0
unfolding create create_with_key create_by_reference
create-IsValid r input s fresh v = with_key (trimmed_key input)
  where
    by_reference : (key : Option String) → IsValid (create_by_reference r key input s).0
    by_reference key =
        elim (Option-cases (
          truthy
            (Dict.get (index_key input.service_code input.reference) s.service_reference_index))) [
              | inl e ↦ rw (e, create_by_reference) (insert-IsValid r key input s fresh v)
              | inr (id, e) ↦ rw (e, create_by_reference) v
            ]

    with_key : (key : Option String) → IsValid (create_with_key r key input s).0
    with_key none = by_reference none
    with_key (some key) =
        elim (Option-cases
          (truthy (Dict.get (index_key input.service_code key) s.service_idempotency_index))) [
            | inl e ↦ rw (e, create_with_key) (by_reference (some key))
            | inr (id, e) ↦ rw (e, create_with_key) v
          ]

-- The caller's copy of an intent carries the identifier, the service and the metadata of a stored
-- one.
abbrev pub IsStored : Store → Intent → Type 0
IsStored s intent =
    (old : Intent) × (Dict.get intent.id s.intents ≡ some old)
    × (intent.service_code ≡ old.service_code)
    × (intent.metadata ≡ old.metadata)

module _ (now : ℕ) (patched : Intent) (s : Store) (stored : IsStored s patched) where
  update-Leads : (k id : String) → Leads s k id → Leads (update now patched s).0 k id
  unfolding update
  update-Leads k id (i, name, e, n, t) = elim (eq-cases patched.id id) [
    | inl (p, _) ↦ (
      record patched { updated_at = now },
      name,
      rw (← p) (get-set_self patched.id _ s.intents),
      n
          ∙ ap (λ c. index_key c name)
              (sym (stored.2 ∙ ap (λ (o : Intent). o.service_code) (same p))),
      t,
    )
    | inr (p, _) ↦ (i, name, get-set_other patched.id id _ s.intents p ∙ e, n, t)
  ]
    where
      same : patched.id ≡ id → stored.0 ≡ i
      same p = cc (ap (λ x. Dict.get x s.intents) p)

  pub update-IsValid : IsValid s → IsValid (update now patched s).0
  unfolding update
  update-IsValid v = record {
    ids = λ id i e.
        elim (get-set_cases patched.id id (record patched { updated_at = now }) s.intents e) [
          | inl (p, q) ↦ rw (← q) p
          | inr (_, q) ↦ v.ids id i q
        ];
    references = λ k id e. update-Leads k id (v.references k id e);
    keys = λ k id e. update-Leads k id (v.keys k id e);
  }
