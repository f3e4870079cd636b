-- ===== src/CoreEvents/Ordering.antt =====
-- server.ts: the order in which Core's events take effect, alone and interleaved.
use mathlib.Core.Path.{subst}
use orbi_pay_gateway_v.Prelude.{
  ℕ, ◌≡◌, refl, sym, ap, ◌∙◌, ◌≢◌, String, some, some-eq, inl, inr, eq-cases, Result, ok, err,
}
use orbi_pay_gateway_v.Prelude.Dict
use orbi_pay_gateway_v.Prelude.Dict.{get-set, get-set_self, get-set_other}
use orbi_pay_gateway_v.PaymentIntents
use orbi_pay_gateway_v.PaymentIntents.{apply_core_event, apply_webhook_delivery, update}
use orbi_pay_gateway_v.PaymentIntents.Data.{Intent, CoreEvent}
use orbi_pay_gateway_v.PaymentIntents.Replay.{get-ok}
use orbi_pay_gateway_v.CoreEvents.{World, ServiceDelivery, Draw, begin, finish, handle}

-- The intent has the event's status and result.
abbrev pub Carries : Intent → CoreEvent → Type 0
Carries i event =
    (i.status ≡ event.status)
    × (i.core_result
        ≡ some (record {
          status = event.status;
          message = event.message;
          transaction_id = event.transaction_id;
          challenge = event.challenge;
          raw = event.raw;
        }))

-- The intent stored under an identifier does.
abbrev pub Shows : World → String → CoreEvent → Type 0
Shows w id event = (i : Intent) × (Dict.get id w.intents.intents ≡ some i) × Carries i event

-- What the first part reads and writes.
record Begun (now : ℕ) (service : String) (event : CoreEvent) (w w' : World) (updated : Intent)
    : Type 0 where
  intent : Intent
  found : Dict.get event.intent_id w.intents.intents ≡ some intent
  owner : intent.service_code ≡ service
  written : (apply_core_event now intent event w.intents).1 ≡ updated
  world : (record w { intents = (apply_core_event now intent event w.intents).0 }) ≡ w'

begin-Begun :
    (now : ℕ) (service : String) (event : CoreEvent) (w : World) {w' : World} {updated : Intent}
    → begin now service event w ≡ ok (w', updated)
    → Begun now service event w w' updated
unfolding begin
begin-Begun now service event w {w'} {updated} e =
    of_get (PaymentIntents.get w.intents service event.intent_id) refl e
  where
    of_get :
        (m : Result PaymentIntents.Error Intent)
        → PaymentIntents.get w.intents service event.intent_id ≡ m
        → ◌≡◌ {A = Result PaymentIntents.Error (World × Intent)}
            (elim m [
              | err x ↦ err x
              | ok i ↦ ok (
                record w { intents = (apply_core_event now i event w.intents).0 },
                (apply_core_event now i event w.intents).1,
              )
            ])
            (ok (w', updated))
        → Begun now service event w w' updated
    of_get (err x) g e = absurd (cc)
    of_get (ok i) g e =
        let (found, owner) = get-ok w.intents service event.intent_id g in
        record { intent = i; found = found; owner = owner; written = cc; world = cc }

module _ (now : ℕ) (service : String) (event : CoreEvent) (w w' : World) (updated : Intent)
    (valid : (id : String) (i : Intent) → Dict.get id w.intents.intents ≡ some i → i.id ≡ id)
    (b : Begun now service event w w' updated) where
  Begun-id : updated.id ≡ event.intent_id
  unfolding apply_core_event update
  Begun-id = ap (λ (i : Intent). i.id) (sym b.written) ∙ valid event.intent_id b.intent b.found

  -- The copy that the first part hands on carries the event.
  Begun-Carries : Carries updated event
  unfolding apply_core_event update
  Begun-Carries = (
    ap (λ (i : Intent). i.status) (sym b.written),
    ap (λ (i : Intent). i.core_result) (sym b.written),
  )

  Begun-Shows : Shows w' event.intent_id event
  unfolding apply_core_event update
  Begun-Shows = (
    _,
    ap (λ (x : World). Dict.get event.intent_id x.intents.intents) (sym b.world)
        ∙ ap (λ k. Dict.get event.intent_id (Dict.set k b_updated w.intents.intents)) same
        ∙ get-set_self event.intent_id b_updated w.intents.intents,
    (refl, refl),
  )
    where
      b_updated : Intent
      b_updated = (apply_core_event now b.intent event w.intents).1

      same : b.intent.id ≡ event.intent_id
      same = valid event.intent_id b.intent b.found

  Begun_other :
      (id : String)
      → id ≢ event.intent_id
      → Dict.get id w'.intents.intents ≡ Dict.get id w.intents.intents
  unfolding apply_core_event update
  Begun_other id other =
      ap (λ (x : World). Dict.get id x.intents.intents) (sym b.world)
      ∙ get-set_other b.intent.id id _ w.intents.intents
          (λ p. other (sym p ∙ valid event.intent_id b.intent b.found))

module _ (draw : Draw) (service : String) (updated : Intent) (d : ServiceDelivery) (w : World) where
  finish-Shows :
      (event : CoreEvent)
      → Carries updated event
      → Shows (finish draw service updated d w).0 updated.id event
  unfolding finish apply_webhook_delivery update
  finish-Shows event c = (_, get-set_self updated.id _ w.intents.intents, c)

  finish_other :
      (id : String)
      → id ≢ updated.id
      → Dict.get id (finish draw service updated d w).0.intents.intents
        ≡ Dict.get id w.intents.intents
  unfolding finish apply_webhook_delivery update
  finish_other id other = get-set_other updated.id id _ w.intents.intents (λ p. other (sym p))

-- In a store where each intent stands under its own identifier, an event that is handled with nothing
-- between its two parts leaves its intent with the event's status and result, and every other
-- intent as it was.
pub handle-Shows :
    (now : ℕ) (draw : Draw) (service : String) (event : CoreEvent) (d : ServiceDelivery)
    (w w' : World) (i : Intent)
    → ((id : String) (j : Intent) → Dict.get id w.intents.intents ≡ some j → j.id ≡ id)
    → handle now draw service event d w ≡ ok (w', i)
    → Shows w' event.intent_id event
      × ((id : String)
          → id ≢ event.intent_id
          → Dict.get id w'.intents.intents ≡ Dict.get id w.intents.intents)
unfolding handle
handle-Shows now draw service event d w w' i valid e = of_begin (begin now service event w) refl e
  where
    of_begin :
        (m : Result PaymentIntents.Error (World × Intent))
        → begin now service event w ≡ m
        → ◌≡◌ {A = Result PaymentIntents.Error (World × Intent)}
            (elim m [ err x ↦ err x | ok (v, u) ↦ ok (finish draw service u d v) ])
            (ok (w', i))
        → Shows w' event.intent_id event
          × ((id : String)
              → id ≢ event.intent_id
              → Dict.get id w'.intents.intents ≡ Dict.get id w.intents.intents)
    of_begin (err x) g e = absurd (cc)
    of_begin (ok (v, u)) g e =
        let b = begin-Begun now service event w g in
        let same = Begun-id now service event w v u valid b in
        let final : (finish draw service u d v).0 ≡ w' = cc in
        (
          subst (λ x. Shows x event.intent_id event) final
              (subst (λ x. Shows (finish draw service u d v).0 x event) same
                (finish-Shows draw service u d v event
                  (Begun-Carries now service event w v u valid b))),
          λ id other.
              ap (λ (x : World). Dict.get id x.intents.intents) (sym final)
              ∙ finish_other draw service u d v id (λ p. other (p ∙ same))
              ∙ Begun_other now service event w v u valid b id other,
        )

-- The first part leaves each intent under its own identifier.
begin_keyed :
    (now : ℕ) (service : String) (event : CoreEvent) (w : World) {w' : World} {updated : Intent}
    → ((id : String) (j : Intent) → Dict.get id w.intents.intents ≡ some j → j.id ≡ id)
    → begin now service event w ≡ ok (w', updated)
    → (id : String) (j : Intent) → Dict.get id w'.intents.intents ≡ some j
    → j.id ≡ id
unfolding apply_core_event update
begin_keyed now service event w {w'} {updated} valid e id j found =
    let b = begin-Begun now service event w e in
    let same = valid event.intent_id b.intent b.found in
    let written = (apply_core_event now b.intent event w.intents).1 in
    let before = ap (λ (x : World). Dict.get id x.intents.intents) b.world ∙ found in
    elim (eq-cases b.intent.id id) [
      | inl (p, t) ↦
          let here =
            sym (ap (λ k. Dict.get k (Dict.set b.intent.id written w.intents.intents)) p)
            ∙ get-set_self b.intent.id written w.intents.intents in
          ap (λ (x : Intent). x.id) (sym (some-eq (sym here ∙ before))) ∙ p
      | inr (differ, t) ↦
          valid id j (sym (get-set_other b.intent.id id written w.intents.intents differ) ∙ before)
    ]

-- An intent shows one status.
Shows-status :
    (w : World) (id : String) (first second : CoreEvent)
    → Shows w id first
    → Shows w id second
    → first.status ≡ second.status
Shows-status w id first second (i, found, c) (j, found', c') =
    sym c.0 ∙ ap (λ (x : Intent). x.status) (some-eq (sym found ∙ found')) ∙ c'.0

-- In a store where each intent stands under its own identifier, let two events of one intent come, of
-- which the second is handled whole during the first one's wait, both without an error. When the second is done the intent
-- shows the second's status and result. When the first one's webhook comes back the intent shows the
-- first's status and result again, so that it does not show the second event any more if the two
-- events have different statuses.
pub interleaved_event_lost :
    (now now' : ℕ) (draw draw' : Draw) (service : String) (first second : CoreEvent)
    (d d' : ServiceDelivery) (w w₁ w₂ : World) (i₁ i₂ : Intent)
    → ((id : String) (j : Intent) → Dict.get id w.intents.intents ≡ some j → j.id ≡ id)
    → second.intent_id ≡ first.intent_id
    → begin now service first w ≡ ok (w₁, i₁)
    → handle now' draw' service second d' w₁ ≡ ok (w₂, i₂)
    → Shows w₂ first.intent_id second
      × Shows (finish draw service i₁ d w₂).0 first.intent_id first
      × (first.status ≢ second.status
          → ¬ Shows (finish draw service i₁ d w₂).0 first.intent_id second)
interleaved_event_lost now now' draw draw' service first second d d' w w₁ w₂ i₁ i₂ valid same e e' =
    let b = begin-Begun now service first w e in
    let after =
      subst (λ x. Shows (finish draw service i₁ d w₂).0 x first)
        (Begun-id now service first w w₁ i₁ valid b)
        (finish-Shows draw service i₁ d w₂ first
          (Begun-Carries now service first w w₁ i₁ valid b)) in
    (
      subst (λ x. Shows w₂ x second) same
          (handle-Shows now' draw' service second d' w₁ w₂ i₂
            (begin_keyed now service first w valid e) e').0,
      after,
      λ differ shown.
          differ
            (Shows-status (finish draw service i₁ d w₂).0 first.intent_id first second after shown),
    )
