-- ===== src/PaymentIntents/Replay.antt =====
-- Idempotent creation: which intent a call of `create` answers with.
use Prim.Native.String as Str
use mathlib.Core.Path.{subst, subst₂}
use orbi_pay_gateway_v.Prelude.{
  ℕ, ◌≡◌, refl, sym, ap, ◌∙◌, String, Option, none, some, inl, inr, arith, eq_iff, Option-cases,
  eq-cases, if◌then◌else◌, Result, ok, err,
}
use orbi_pay_gateway_v.Prelude.Dict
use orbi_pay_gateway_v.Prelude.Dict.{get-set, get-set_self, get-set_other}
use orbi_pay_gateway_v.Prelude.Json.{Json}
use orbi_pay_gateway_v.Prelude.Text.{truthy}
use orbi_pay_gateway_v.PaymentIntents.Data.{Intent, CreateInput}
use orbi_pay_gateway_v.PaymentIntents.{
  Store, Runtime, Error, payment_intent_idempotency_mismatch, get, insert, index_key, index_if,
  intent_id, new_intent, create, create_with_key, create_by_reference, replay, mismatches,
  stored_fingerprint, fingerprint_text, trimmed_key, update,
}
use orbi_pay_gateway_v.PaymentIntents.Invariant.{
  IsValid, create-IsValid, IsStored, truthy-intent_id,
}
use orbi_pay_gateway_v.PaymentIntents.History.{
  Step, created, changed, Reach, here, next, Reach-IsValid, apply_cases, apply-IsStored, Created,
  kept, inserted, create-Created,
}

pub get-ok :
    (s : Store) (service id : String) {i : Intent}
    → get s service id ≡ ok i
    → (Dict.get id s.intents ≡ some i) × (i.service_code ≡ service)
unfolding get
get-ok s service id {i} e = elim (Option-cases (Dict.get id s.intents)) [
  | inl none_there ↦ absurd (ground arith)
  | inr (j, found) ↦ (ground arith, ground (arith, eq_iff j.service_code service))
]

pub get_found :
    (s : Store) (service id : String) (i : Intent)
    → Dict.get id s.intents ≡ some i
    → i.service_code ≡ service
    → get s service id ≡ ok i
unfolding get
get_found s service id i e p = ground (arith, eq_iff i.service_code service)

-- An idempotency key of a service leads to a stored intent with the identity of `i`.
pub record Remembers (s : Store) (service k : String) (i : Intent) : Type 0 where
  pub id : String
  pub indexed : Dict.get (index_key service k) s.service_idempotency_index ≡ some id
  pub present : truthy (some id) ≡ some id
  pub intent : Intent
  pub stored : Dict.get id s.intents ≡ some intent
  pub same_id : intent.id ≡ i.id
  pub same_service : intent.service_code ≡ service
  pub same_metadata : intent.metadata ≡ i.metadata

module _ (service k : String) (i : Intent) where
  update-Remembers :
      (now : ℕ) (p : Intent) (s : Store)
      → IsStored s p
      → ((id : String) (j : Intent) → Dict.get id s.intents ≡ some j → j.id ≡ id)
      → Remembers s service k i
      → Remembers (update now p s).0 service k i
  unfolding update
  update-Remembers now p s (old, a, b, c) ids m = elim (eq-cases p.id m.id) [
    | inl (e, _) ↦
        let same : old ≡ m.intent = cc (ap (λ x. Dict.get x s.intents) e) in
        record {
          id = m.id;
          indexed = m.indexed;
          present = m.present;
          intent = record p { updated_at = now };
          stored = rw (← e) (get-set_self p.id _ s.intents);
          same_id = e ∙ sym (ids m.id m.intent m.stored) ∙ m.same_id;
          same_service = b ∙ ap (λ (o : Intent). o.service_code) same ∙ m.same_service;
          same_metadata = c ∙ ap (λ (o : Intent). o.metadata) same ∙ m.same_metadata;
        }
    | inr (e, _) ↦ record {
      id = m.id;
      indexed = m.indexed;
      present = m.present;
      intent = m.intent;
      stored = get-set_other p.id m.id _ s.intents e ∙ m.stored;
      same_id = m.same_id;
      same_service = m.same_service;
      same_metadata = m.same_metadata;
    }
  ]

  index_if-Remembers :
      (key : Option String) (svc new id : String) (d : Dict.Dict String)
      → ((name : String) → key ≡ some name → truthy (Dict.get (index_key svc name) d) ≡ none)
      → Dict.get (index_key service k) d ≡ some id
      → truthy (some id) ≡ some id
      → Dict.get (index_key service k) (index_if key svc new d) ≡ some id
  index_if-Remembers none svc new id d free e t = e
  index_if-Remembers (some name) svc new id d free e t =
      elim (eq-cases (index_key svc name) (index_key service k)) [
        | inl (p, _) ↦ absurd (clash (free name refl) p)
        | inr (p, _) ↦ get-set_other _ _ new d p ∙ e
      ]
    where
      clash :
          truthy (Dict.get (index_key svc name) d) ≡ none
          → index_key svc name ≡ index_key service k
          → ⊥
      clash f p = cc (ap (λ x. truthy (Dict.get x d)) p, ap truthy e)

  insert-Remembers :
      (r : Runtime) (key : Option String) (input : CreateInput) (s : Store)
      → Dict.get (intent_id r) s.intents ≡ none
      → ((name : String)
          → key ≡ some name
          → truthy (Dict.get (index_key input.service_code name) s.service_idempotency_index)
            ≡ none)
      → Remembers s service k i
      → Remembers (insert r key input s) service k i
  unfolding insert
  insert-Remembers r key input s fresh free m = record {
    id = m.id;
    indexed =
        index_if-Remembers key input.service_code (intent_id r) m.id s.service_idempotency_index
          free m.indexed m.present;
    present = m.present;
    intent = m.intent;
    stored =
        get-set_other (intent_id r) m.id (new_intent r key input) s.intents
          (λ p. absurd (cc (ap (λ x. Dict.get x s.intents) p)))
        ∙ m.stored;
    same_id = m.same_id;
    same_service = m.same_service;
    same_metadata = m.same_metadata;
  }

  Step-Remembers :
      {s t : Store} → Step s t → IsValid s → Remembers s service k i → Remembers t service k i
  Step-Remembers {s} (created r input fresh) v m = of_created (create-Created r input s)
    where
      of_created : {t : Store} → Created r input s t → Remembers t service k i
      of_created kept = m
      of_created (inserted key free) = insert-Remembers r key input s fresh free m
  Step-Remembers {s} (changed u now intent stored) v m =
      let (p, e, a, b, c) = apply_cases u now intent s in
      rw e (update-Remembers now p s (apply-IsStored s intent p a b c stored) v.ids m)

  Reach-Remembers :
      {s t : Store} → Reach s t → IsValid s → Remembers s service k i → Remembers t service k i
  Reach-Remembers here v m = m
  Reach-Remembers (next r st) v m = Step-Remembers st (Reach-IsValid r v) (Reach-Remembers r v m)

-- The three ways through `create` under an idempotency key.
module _ (r : Runtime) (input : CreateInput) (s : Store) {k : String}
    (key : trimmed_key input ≡ some k) where
  create_known :
      {id : String}
      → truthy (Dict.get (index_key input.service_code k) s.service_idempotency_index) ≡ some id
      → create r input s ≡ (s, replay input.idempotency_fingerprint (get s input.service_code id))
  unfolding create create_with_key
  create_known there = rw (key, create_with_key, there)

  module _
      (absent : truthy (Dict.get (index_key input.service_code k) s.service_idempotency_index)
        ≡ none) where
    create_new :
        truthy (Dict.get (index_key input.service_code input.reference) s.service_reference_index)
          ≡ none
        → create r input s ≡ (insert r (some k) input s, ok (new_intent r (some k) input))
    unfolding create create_with_key create_by_reference
    create_new none_there = rw (key, create_with_key, absent, create_by_reference, none_there)

    create_known_reference :
        {id : String}
        → truthy (Dict.get (index_key input.service_code input.reference) s.service_reference_index)
          ≡ some id
        → create r input s ≡ (s, get s input.service_code id)
    unfolding create create_with_key create_by_reference
    create_known_reference there = rw (key, create_with_key, absent, create_by_reference, there)

truthy-some :
    (o : Option String) {id : String}
    → truthy o ≡ some id
    → (o ≡ some id) × (truthy (some id) ≡ some id)
unfolding truthy
truthy-some none e = absurd (cc)
truthy-some (some Str.[]) e = absurd (cc)
truthy-some (some (Str.◌∷◌ c x)) e = (e, cc)

-- Who remembers answers a retry with the remembered intent, or refuses a different payload.
Remembers-create :
    (r : Runtime) (input : CreateInput) (s : Store) (service k : String) (i : Intent)
    → input.service_code ≡ service
    → trimmed_key input ≡ some k
    → (m : Remembers s service k i)
    → create r input s ≡ (s, replay input.idempotency_fingerprint (ok m.intent))
Remembers-create r input s service k i same key m =
    create_known r input s key (rw same (ap truthy m.indexed ∙ m.present))
    ∙ ap (λ x. (s, replay input.idempotency_fingerprint x))
        (get_found s input.service_code m.id m.intent m.stored (m.same_service ∙ sym same))

replay-ok :
    (given : Option String) (m : Result Error Intent) {i : Intent}
    → replay given m ≡ ok i
    → m ≡ ok i
unfolding replay
replay-ok given (ok j) e = ground arith
replay-ok given (err x) e = cc

insert-Remembers_self :
    (r : Runtime) (input : CreateInput) (s : Store) (k : String)
    → Remembers (insert r (some k) input s) input.service_code k (new_intent r (some k) input)
unfolding insert new_intent
insert-Remembers_self r input s k = record {
  id = intent_id r;
  indexed = get-set_self (index_key input.service_code k) (intent_id r) s.service_idempotency_index;
  present = truthy-intent_id r;
  intent = new_intent r (some k) input;
  stored = get-set_self (intent_id r) (new_intent r (some k) input) s.intents;
  same_id = refl;
  same_service = refl;
  same_metadata = refl;
}

known-Remembers :
    (s : Store) (service k id : String) (ids : IsValid s) {i : Intent}
    → truthy (Dict.get (index_key service k) s.service_idempotency_index) ≡ some id
    → get s service id ≡ ok i
    → Remembers s service k i
known-Remembers s service k id v {i} there e =
    let (indexed, present) = truthy-some _ there in
    let (stored, same) = get-ok s service id e in
    record {
      id = id;
      indexed = indexed;
      present = present;
      intent = i;
      stored = stored;
      same_id = refl;
      same_service = same;
      same_metadata = refl;
    }

create_by_reference-service_code :
    (r : Runtime) (key : Option String) (input : CreateInput) (s : Store) (i : Intent)
    → (create_by_reference r key input s).1 ≡ ok i
    → i.service_code ≡ input.service_code
unfolding create_by_reference new_intent
create_by_reference-service_code r key input s i e =
    elim (Option-cases (
      truthy (Dict.get (index_key input.service_code input.reference) s.service_reference_index))) [
        | inl a ↦ made (rw (a, create_by_reference) at e)
        | inr (id, a) ↦ (get-ok s input.service_code id (rw (a, create_by_reference) at e)).1
      ]
  where
    made :
        ◌≡◌ {A = Result Error Intent} (ok (new_intent r key input)) (ok i)
        → i.service_code ≡ input.service_code
    made e = ground arith

create_with_key-service_code :
    (r : Runtime) (key : Option String) (input : CreateInput) (s : Store) (i : Intent)
    → (create_with_key r key input s).1 ≡ ok i
    → i.service_code ≡ input.service_code
unfolding create_with_key
create_with_key-service_code r none input s i e =
    create_by_reference-service_code r none input s i e
create_with_key-service_code r (some k) input s i e =
    elim (Option-cases
      (truthy (Dict.get (index_key input.service_code k) s.service_idempotency_index))) [
        | inl a ↦
            create_by_reference-service_code r (some k) input s i (rw (a, create_with_key) at e)
        | inr (id, a) ↦
            (get-ok s input.service_code id
              (replay-ok input.idempotency_fingerprint _ (rw (a, create_with_key) at e))).1
      ]

-- Whatever the keys and the references are, also where two of them make one index key: a creation
-- answers with an intent of the calling service, or fails.
pub create-service_code :
    (r : Runtime) (input : CreateInput) (s t : Store) (i : Intent)
    → create r input s ≡ (t, ok i)
    → i.service_code ≡ input.service_code
unfolding create
create-service_code r input s t i e =
    create_with_key-service_code r (trimmed_key input) input s i (ap (λ p. p.1) e)

stored_fingerprint_cong :
    (i j : Intent) → i.metadata ≡ j.metadata → stored_fingerprint i ≡ stored_fingerprint j
unfolding stored_fingerprint
stored_fingerprint_cong i j e =
    ap (λ (d : Dict.Dict Json). fingerprint_text (Dict.get "idempotencyFingerprint" d)) e

-- A successful creation under a new reference remembers its key.
create-Remembers :
    (r : Runtime) (input : CreateInput) (s : Store) (k : String) {t : Store} {i : Intent}
    → IsValid s
    → trimmed_key input ≡ some k
    → truthy (Dict.get (index_key input.service_code input.reference) s.service_reference_index)
      ≡ none
    → create r input s ≡ (t, ok i)
    → Remembers t input.service_code k i
create-Remembers r input s k {t} {i} v key fresh_reference e =
    elim (Option-cases
      (truthy (Dict.get (index_key input.service_code k) s.service_idempotency_index))) [
        | inl absent ↦
            let made = sym (create_new r input s key absent fresh_reference) ∙ e in
            subst₂ (λ x y. Remembers x input.service_code k y) (ap (λ p. p.0) made) (cc made)
              (insert-Remembers_self r input s k)
        | inr (id, there) ↦
            let made = sym (create_known r input s key there) ∙ e in
            subst (λ x. Remembers x input.service_code k i) (ap (λ p. p.0) made)
              (known-Remembers s input.service_code k id v there
                (replay-ok input.idempotency_fingerprint _ (ap (λ p. p.1) made)))
      ]

Remembers-retry :
    (r : Runtime) (retry : CreateInput) (u : Store) (service k : String) (i : Intent)
    → Remembers u service k i
    → retry.service_code ≡ service
    → trimmed_key retry ≡ some k
    → i.service_code ≡ service
    → (j : Intent) × (create r retry u ≡ (
      u,
      if mismatches retry.idempotency_fingerprint (stored_fingerprint i)
          then err payment_intent_idempotency_mismatch
          else ok j,
    ))
      × (j.id ≡ i.id)
      × (j.service_code ≡ i.service_code)
      × (j.metadata ≡ i.metadata)
unfolding replay
Remembers-retry r retry u service k i m same key owner = (
  m.intent,
  Remembers-create r retry u service k i same key m
      ∙ ap
          (λ f. (
            u,
            if mismatches retry.idempotency_fingerprint f
                then err payment_intent_idempotency_mismatch
                else ok m.intent,
          ))
          (stored_fingerprint_cong m.intent i m.same_metadata),
  m.same_id,
  m.same_service ∙ sym owner,
  m.same_metadata,
)

-- On a valid store, let a creation with an identifier that is not in use, under an idempotency key and
-- a reference that is not taken yet, succeed with an intent. Then, after any further sequence of
-- calls in which every creation draws an identifier that is not in use and every change is handed a
-- copy of a stored intent, a call of the same service under the same trimmed key changes nothing in
-- the store. It is refused as a mismatch if both fingerprints are there and differ; otherwise, also
-- when a fingerprint is missing, it answers with an intent of the same identifier, service and
-- metadata, whatever its reference and amount are.
pub create_retried :
    (r r' : Runtime) (input retry : CreateInput) (s t u : Store) (k : String) (i : Intent)
    → IsValid s
    → Dict.get (intent_id r) s.intents ≡ none
    → trimmed_key input ≡ some k
    → truthy (Dict.get (index_key input.service_code input.reference) s.service_reference_index)
      ≡ none
    → create r input s ≡ (t, ok i)
    → Reach t u
    → retry.service_code ≡ input.service_code
    → trimmed_key retry ≡ some k
    → (j : Intent) × (create r' retry u ≡ (
      u,
      if mismatches retry.idempotency_fingerprint (stored_fingerprint i)
          then err payment_intent_idempotency_mismatch
          else ok j,
    ))
      × (j.id ≡ i.id)
      × (j.service_code ≡ i.service_code)
      × (j.metadata ≡ i.metadata)
create_retried r r' input retry s t u k i v fresh key new e later service key' =
    let valid : IsValid t = subst IsValid (ap (λ p. p.0) e) (create-IsValid r input s fresh v) in
    Remembers-retry r' retry u input.service_code k i
      (Reach-Remembers input.service_code k i later valid
        (create-Remembers r input s k v key new e))
      service key' (create-service_code r input s t i e)
