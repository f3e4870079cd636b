-- ===== src/WebhookDeliveries/Replays.antt =====
-- Numbering of webhook replays: what the handler of `/v1/developer/webhook-deliveries/:id/replay` in
-- server.ts writes to the log after the delivery that it asked the attempt's number for.
use orbi_pay_gateway_v.Prelude.{
  ℕ, ◌+◌, ◌<◌, ◌≡◌, refl, true, ◌==◌, String, some, [], ◌∷◌, Result, ok, err, arith, filter, find,
  find-some, Option-cases, eq_iff, inl, inr, In,
}
use orbi_pay_gateway_v.WebhookDeliveries.{
  DeliveryRecord, Store, Error, record_delivery, is_replay_of, existing_replays,
  next_replay_attempt, get,
}

-- The replay's record, from the original, the attempt's number and the outcome of the delivery.
pub replay_record : DeliveryRecord → ℕ → DeliveryRecord → DeliveryRecord
replay_record original attempt outcome = record outcome {
  intent_id = original.intent_id;
  resource_id = original.resource_id;
  attempt = attempt;
  replay_of = some original.delivery_id;
}

pub finish_replay :
    ℕ → String → DeliveryRecord → ℕ → DeliveryRecord → Store → Store × DeliveryRecord
unfolding replay_record record_delivery
finish_replay now uuid original attempt outcome s =
    record_delivery now uuid (replay_record original attempt outcome) s

-- Each replay of a delivery is numbered one above the replays that are older; the first is 2.
abbrev pub IsNumbered : String → Store → Type 0
IsNumbered d [] = Unit
IsNumbered d (r ∷ s) =
    (is_replay_of d r ≡ true → r.attempt ≡ existing_replays d s + 2) × IsNumbered d s

get-delivery_id : (d : String) (s : Store) {r : DeliveryRecord} → get d s ≡ ok r → r.delivery_id ≡ d
unfolding get
get-delivery_id d s {r} e = elim (Option-cases (find (λ x. x.delivery_id == d) s)) [
  | inl missing ↦ absurd (ground arith)
  | inr (q, found) ↦
      let same : q ≡ r = ground arith in
      rw (← same) ((eq_iff q.delivery_id d).0 (find-some (λ x. x.delivery_id == d) s found).0)
]

next_replay_attempt_parts :
    (d : String) (s : Store) {original : DeliveryRecord} {attempt : ℕ}
    → next_replay_attempt d s ≡ ok (original, attempt)
    → (original.delivery_id ≡ d) × (attempt ≡ existing_replays d s + 2)
unfolding next_replay_attempt
next_replay_attempt_parts d s {original} {attempt} e = of_get (get d s) refl e
  where
    of_get :
        (m : Result Error DeliveryRecord)
        → get d s ≡ m
        → ◌≡◌ {A = Result Error (DeliveryRecord × ℕ)}
            (elim m [ err x ↦ err x | ok o ↦ ok (o, existing_replays d s + 2) ])
            (ok (original, attempt))
        → (original.delivery_id ≡ d) × (attempt ≡ existing_replays d s + 2)
    of_get (err x) g e = absurd (cc)
    of_get (ok o) g e = (rw (← ok_fst e) (get-delivery_id d s g), ground arith)
      where
        ok_fst :
            ◌≡◌ {A = Result Error (DeliveryRecord × ℕ)}
              (ok (o, existing_replays d s + 2))
              (ok (original, attempt))
            → o ≡ original
        ok_fst e = ground arith

-- A replay that is written to the log that its number was asked from keeps the numbering of the
-- replays of every delivery.
pub finish_replay-IsNumbered :
    (d d' uuid : String) (now attempt : ℕ) (original outcome : DeliveryRecord) (s : Store)
    → next_replay_attempt d' s ≡ ok (original, attempt)
    → IsNumbered d s
    → IsNumbered d (finish_replay now uuid original attempt outcome s).0
unfolding finish_replay
finish_replay-IsNumbered d d' uuid now attempt original outcome s e n =
    let (same, number) = next_replay_attempt_parts d' s e in
    (λ h. ground (arith, eq_iff original.delivery_id d), n)

IsNumbered-lt :
    (d : String) (s : Store) (q : DeliveryRecord)
    → IsNumbered d s
    → In q s
    → is_replay_of d q ≡ true
    → q.attempt < existing_replays d s + 2
unfolding existing_replays filter
IsNumbered-lt d [] q n i h = absurd i
IsNumbered-lt d (r ∷ s) q n (inl same) h = ground (arith, n.0)
IsNumbered-lt d (r ∷ s) q n (inr later) h = ground (arith, IsNumbered-lt d s q n.1 later h)

-- In a numbered log a replay that is asked for and then written has a higher number than every
-- replay of the same delivery that is in the log.
pub finish_replay-gt_older :
    (d uuid : String) (now attempt : ℕ) (original outcome q : DeliveryRecord) (s : Store)
    → next_replay_attempt d s ≡ ok (original, attempt)
    → IsNumbered d s
    → In q s
    → is_replay_of d q ≡ true
    → (is_replay_of d (finish_replay now uuid original attempt outcome s).1 ≡ true)
      × (q.attempt < (finish_replay now uuid original attempt outcome s).1.attempt)
unfolding finish_replay
finish_replay-gt_older d uuid now attempt original outcome q s e n i h =
    let (same, number) = next_replay_attempt_parts d s e in
    ((eq_iff original.delivery_id d).1 same, omega (arith, IsNumbered-lt d s q n i h))

-- Two replays of one delivery whose numbers are both asked for before either is written get the same
-- number, and the log is not numbered any more.
pub overlapping_replays :
    (d uuid uuid' : String) (now now' attempt attempt' : ℕ)
    (original original' outcome outcome' : DeliveryRecord) (s : Store)
    → next_replay_attempt d s ≡ ok (original, attempt)
    → next_replay_attempt d s ≡ ok (original', attempt')
    → let first = finish_replay now uuid original attempt outcome s in
      let second = finish_replay now' uuid' original' attempt' outcome' first.0 in
      (first.1.attempt ≡ second.1.attempt) × ¬ IsNumbered d second.0
unfolding finish_replay existing_replays filter
overlapping_replays d uuid uuid' now now' attempt attempt' original original' outcome outcome' s e
      e' =
    let (same, number) = next_replay_attempt_parts d s e in
    let (same', number') = next_replay_attempt_parts d s e' in
    (
      omega arith,
      λ n. ground (
        arith,
        eq_iff original.delivery_id d,
        eq_iff original'.delivery_id d,
        n.0 ((eq_iff original'.delivery_id d).1 same'),
      ),
    )
