-- ===== src/Consents/History.antt =====
-- services/consentReceiptStore.ts: the histories of its calls.
use mathlib.Core.Path.{subst}
use Prim.Native.String as Str
use orbi_pay_gateway_v.Prelude.{
  ℕ, ◌≡◌, refl, sym, ap, ◌∙◌, ◌⊎◌, inl, inr, true, String, none, some, [], if◌then◌else◌, ok, err,
  find, find-none, arith, eq_iff, Option-cases, Bool-cases, eq-cases,
}
use orbi_pay_gateway_v.Prelude.Dict
use orbi_pay_gateway_v.Prelude.Dict.{
  get-set, get-set_self, get-set_other, get-set_cases, get-In-values,
}
use orbi_pay_gateway_v.Consents.Data.{
  Receipt, ReceiptCreate, Revocation, active, revoked, status_eq,
}
use orbi_pay_gateway_v.Consents.{
  Error, Store, parse_receipt, derive_status, has_evidence, new_receipt, create, get, revoke,
  revoked_receipt,
}

-- One call that changes the store; the UUID of a new receipt is new.
pub data Step (s : Store) : Store → Type 0 where
  creates :
      (now : ℕ) (random : String) (input : ReceiptCreate)
      → Dict.get (Str.◌++◌ "consent_" random) s ≡ none
      → Step s (create now random input s).0
  revokes :
      (now : ℕ) (consent_id : String) (input : Revocation)
      → Step s (revoke now consent_id input s).0

pub data Reach (s : Store) : Store → Type 0 where
  here : Reach s s
  next : {t u : Store} → Reach s t → Step t u → Reach s u

-- What a call does to the store: nothing, a new receipt, or an old one revoked.
pub data Effect (s : Store) : Store → Type 0 where
  nothing : Effect s s
  adds :
      (r : Receipt)
      → Dict.get r.consent_id s ≡ none
      → find (has_evidence r.service_code r.evidence.evidence_hash) (Dict.values s) ≡ none
      → r.status ≡ active
      → Effect s (Dict.set r.consent_id r s)
  ends :
      (now : ℕ) (input : Revocation) (consent_id : String) (r : Receipt)
      → Dict.get consent_id s ≡ some r
      → Effect s (Dict.set r.consent_id (revoked_receipt now input r) s)

create-Effect :
    (now : ℕ) (random : String) (input : ReceiptCreate) (s : Store)
    → Dict.get (Str.◌++◌ "consent_" random) s ≡ none
    → Effect s (create now random input s).0
unfolding create new_receipt
create-Effect now random input s fresh =
    elim (Option-cases (
      find
        (has_evidence (new_receipt now random input).service_code
          (new_receipt now random input).evidence.evidence_hash)
        (Dict.values s))) [
          | inl free ↦ rw (free, create) (adds (new_receipt now random input) fresh free refl)
          | inr (r, taken) ↦ rw (taken, create) nothing
        ]

pub get-missing :
    (now : ℕ) (consent_id : String) (s : Store)
    → Dict.get consent_id s ≡ none
    → get now consent_id s ≡ err Error.consent_receipt_not_found
unfolding get
get-missing now consent_id s e = rw (e, get)

pub get-found :
    (now : ℕ) (consent_id : String) (s : Store) {r : Receipt}
    → Dict.get consent_id s ≡ some r
    → get now consent_id s ≡ ok (parse_receipt now r)
unfolding get
get-found now consent_id s e = rw (e, get)

revoke-missing :
    (now : ℕ) (consent_id : String) (input : Revocation) (s : Store)
    → Dict.get consent_id s ≡ none
    → revoke now consent_id input s ≡ (s, err Error.consent_receipt_not_found)
unfolding revoke
revoke-missing now consent_id input s e = rw (get-missing now consent_id s e, revoke)

revoke-found :
    (now : ℕ) (consent_id : String) (input : Revocation) (s : Store) {r : Receipt}
    → Dict.get consent_id s ≡ some r
    → revoke now consent_id input s ≡ (
        if status_eq (derive_status now r) revoked then (s, ok (parse_receipt now r)) else (
          Dict.set r.consent_id (revoked_receipt now input r) s,
          ok (revoked_receipt now input r),
        ))
unfolding revoke
revoke-found now consent_id input s {r} e = rw (get-found now consent_id s e, revoke)

revoke-Effect :
    (now : ℕ) (consent_id : String) (input : Revocation) (s : Store)
    → Effect s (revoke now consent_id input s).0
revoke-Effect now consent_id input s = elim (Option-cases (Dict.get consent_id s)) [
  | inl missing ↦ rw (revoke-missing now consent_id input s missing) nothing
  | inr (r, found) ↦ elim (Bool-cases (status_eq (derive_status now r) revoked)) [
    | inl ended ↦ rw (revoke-found now consent_id input s found, ended) nothing
    | inr standing ↦
        rw (revoke-found now consent_id input s found, standing) (ends now input consent_id r found)
  ]
]

Step-Effect : {s t : Store} → Step s t → Effect s t
Step-Effect {s} (creates now random input fresh) = create-Effect now random input s fresh
Step-Effect {s} (revokes now consent_id input) = revoke-Effect now consent_id input s

-- A receipt stands under its own id.
abbrev IsKeyed : Store → Type 0
IsKeyed s = (k : String) (r : Receipt) → Dict.get k s ≡ some r → r.consent_id ≡ k

Effect-IsKeyed : {s t : Store} → Effect s t → IsKeyed s → IsKeyed t
Effect-IsKeyed nothing v k r e = v k r e
Effect-IsKeyed {s} (adds new _ _ _) v k r e = elim (get-set_cases new.consent_id k new s e) [
  | inl (p, q) ↦ ap (λ (x : Receipt). x.consent_id) (sym q) ∙ p
  | inr (_, q) ↦ v k r q
]
Effect-IsKeyed {s} (ends now input id old found) v k r e =
    elim (get-set_cases old.consent_id k (revoked_receipt now input old) s e) [
      | inl (p, q) ↦ ap (λ (x : Receipt). x.consent_id) (sym q) ∙ p
      | inr (_, q) ↦ v k r q
    ]

Reach-IsKeyed : {t : Store} → Reach [] t → IsKeyed t
unfolding Dict.get
Reach-IsKeyed here k r e = absurd (cc)
Reach-IsKeyed (next reach step) k r e =
    Effect-IsKeyed (Step-Effect step) (Reach-IsKeyed reach) k r e

-- The store holds a receipt that was revoked under an id.
abbrev Ended : String → Store → Type 0
Ended k s = (r : Receipt) × (Dict.get k s ≡ some r) × ((t : ℕ) × (r.revoked_at ≡ some t))

Effect-Ended : {s t : Store} (k : String) → Effect s t → Ended k s → Ended k t
Effect-Ended k nothing v = v
Effect-Ended {s} k (adds new free _ _) (r, found, ended) = (
  r,
  get-set_other new.consent_id k new s (λ p. absurd (cc (ap (λ z. Dict.get z s) p))) ∙ found,
  ended,
)
Effect-Ended {s} k (ends now input id old there) (r, found, ended) =
    elim (eq-cases old.consent_id k) [
      | inl (p, _) ↦ (
        revoked_receipt now input old,
        subst
            (λ z.
              Dict.get z (Dict.set old.consent_id (revoked_receipt now input old) s)
              ≡ some (revoked_receipt now input old))
            p (get-set_self old.consent_id (revoked_receipt now input old) s),
        (now, refl),
      )
      | inr (p, _) ↦
          (r, get-set_other old.consent_id k (revoked_receipt now input old) s p ∙ found, ended)
    ]

Reach-Ended : {s t : Store} (k : String) → Reach s t → Ended k s → Ended k t
Reach-Ended k here v = v
Reach-Ended k (next reach step) v = Effect-Ended k (Step-Effect step) (Reach-Ended k reach v)

-- Two receipts of one service on the same evidence are the same.
abbrev pub IsUnique : Store → Type 0
IsUnique s =
    (k j : String) (a b : Receipt)
    → Dict.get k s ≡ some a
    → Dict.get j s ≡ some b
    → a.service_code ≡ b.service_code
    → a.evidence.evidence_hash ≡ b.evidence.evidence_hash
    → k ≡ j

other_evidence :
    (new : Receipt) (s : Store) (k : String) (r : Receipt)
    → find (has_evidence new.service_code new.evidence.evidence_hash) (Dict.values s) ≡ none
    → Dict.get k s ≡ some r
    → r.service_code ≡ new.service_code
    → r.evidence.evidence_hash ≡ new.evidence.evidence_hash
    → ⊥
other_evidence new s k r free found service evidence =
    let h =
      find-none (has_evidence new.service_code new.evidence.evidence_hash) (Dict.values s) r free
        (get-In-values k s found) in
    ground (
      arith,
      eq_iff r.service_code new.service_code,
      eq_iff r.evidence.evidence_hash new.evidence.evidence_hash,
    )

Effect-IsUnique : {s t : Store} → Effect s t → IsKeyed s → IsUnique s → IsUnique t
Effect-IsUnique nothing w v k j a b e f service evidence = v k j a b e f service evidence
Effect-IsUnique {s} (adds new _ free _) w v k j a b e f service evidence =
    elim (get-set_cases new.consent_id k new s e) [
      | inl (p, q) ↦ elim (get-set_cases new.consent_id j new s f) [
        | inl (p', _) ↦ sym p ∙ p'
        | inr (_, f') ↦ absurd (
            other_evidence new s j b free f'
              (sym service ∙ ap (λ (x : Receipt). x.service_code) (sym q))
              (sym evidence ∙ ap (λ (x : Receipt). x.evidence.evidence_hash) (sym q)))
      ]
      | inr (_, e') ↦ elim (get-set_cases new.consent_id j new s f) [
        | inl (_, q) ↦ absurd (
            other_evidence new s k a free e'
              (service ∙ ap (λ (x : Receipt). x.service_code) (sym q))
              (evidence ∙ ap (λ (x : Receipt). x.evidence.evidence_hash) (sym q)))
        | inr (_, f') ↦ v k j a b e' f' service evidence
      ]
    ]
Effect-IsUnique {s} (ends now input id old there) w v k j a b e f service evidence =
    let (x, ex, sx, hx) = before k a e in
    let (y, ey, sy, hy) = before j b f in
    v k j x y ex ey (sx ∙ service ∙ sym sy) (hx ∙ evidence ∙ sym hy)
  where
    before :
        (i : String) (r : Receipt)
        → Dict.get i (Dict.set old.consent_id (revoked_receipt now input old) s) ≡ some r
        → (x : Receipt) × (Dict.get i s ≡ some x)
          × (x.service_code ≡ r.service_code)
          × (x.evidence.evidence_hash ≡ r.evidence.evidence_hash)
    before i r g = elim (get-set_cases old.consent_id i (revoked_receipt now input old) s g) [
      | inl (p, q) ↦ (
        old,
        ap (λ z. Dict.get z s) (sym p ∙ w id old there) ∙ there,
        ap (λ (x : Receipt). x.service_code) q,
        ap (λ (x : Receipt). x.evidence.evidence_hash) q,
      )
      | inr (_, q) ↦ (r, q, refl, refl)
    ]

-- After any sequence of calls on the empty store, in which the identifiers of new receipts are not in
-- use, no service has two receipts on the same evidence.
pub Reach-IsUnique : {t : Store} → Reach [] t → IsUnique t
unfolding Dict.get
Reach-IsUnique here k j a b e f service evidence = absurd (cc)
Reach-IsUnique (next reach step) k j a b e f service evidence =
    Effect-IsUnique (Step-Effect step) (Reach-IsKeyed reach) (Reach-IsUnique reach) k j a b e f
      service evidence

derive_revoked :
    (now : ℕ) (r : Receipt) {t : ℕ} → r.revoked_at ≡ some t → derive_status now r ≡ revoked
derive_revoked now r e = ground arith

-- A stored receipt is active, or it bears the time of its revocation.
abbrev IsMarked : Store → Type 0
IsMarked s =
    (k : String) (r : Receipt)
    → Dict.get k s ≡ some r
    → (r.status ≡ active) ⊎ ((t : ℕ) × (r.revoked_at ≡ some t))

Effect-IsMarked : {s t : Store} → Effect s t → IsMarked s → IsMarked t
Effect-IsMarked nothing v k r e = v k r e
Effect-IsMarked {s} (adds new _ _ marked) v k r e = elim (get-set_cases new.consent_id k new s e) [
  | inl (_, q) ↦ inl (ap (λ (x : Receipt). x.status) (sym q) ∙ marked)
  | inr (_, q) ↦ v k r q
]
Effect-IsMarked {s} (ends now input id old found) v k r e =
    elim (get-set_cases old.consent_id k (revoked_receipt now input old) s e) [
      | inl (_, q) ↦ inr (now, ap (λ (x : Receipt). x.revoked_at) (sym q))
      | inr (_, q) ↦ v k r q
    ]

Reach-IsMarked : {t : Store} → Reach [] t → IsMarked t
unfolding Dict.get
Reach-IsMarked here k r e = absurd (cc)
Reach-IsMarked (next reach step) k r e =
    Effect-IsMarked (Step-Effect step) (Reach-IsMarked reach) k r e

derived_revoked :
    (now : ℕ) (r : Receipt)
    → status_eq (derive_status now r) revoked ≡ true
    → (r.status ≡ active) ⊎ ((t : ℕ) × (r.revoked_at ≡ some t))
    → (t : ℕ) × (r.revoked_at ≡ some t)
derived_revoked now r h (inl e) = elim (Option-cases r.revoked_at) [
  | inl none_yet ↦ absurd (ground arith)
  | inr (t, p) ↦ (t, p)
]
derived_revoked now r h (inr marked) = marked

revoke-Ended :
    (now : ℕ) (consent_id : String) (input : Revocation) (s : Store) (r : Receipt)
    → Reach [] s
    → Dict.get consent_id s ≡ some r
    → Ended consent_id (revoke now consent_id input s).0
revoke-Ended now consent_id input s r start found =
    elim (Bool-cases (status_eq (derive_status now r) revoked)) [
      | inl ended ↦
          rw (revoke-found now consent_id input s found, ended)
            (r, found, derived_revoked now r ended (Reach-IsMarked start consent_id r found))
      | inr standing ↦
          rw (revoke-found now consent_id input s found, standing)
            (
              revoked_receipt now input r,
              ap (λ z. Dict.get z (Dict.set r.consent_id (revoked_receipt now input r) s))
                    (sym (Reach-IsKeyed start consent_id r found))
                  ∙ get-set_self r.consent_id (revoked_receipt now input r) s,
              (now, refl),
            )
    ]

-- A revocation is final: once a receipt that the store holds was asked to be revoked, it reads as
-- revoked at every later time, whatever calls came before, on the empty store, and follow, in which
-- the identifiers of new receipts are not in use.
pub revoke_final :
    (now later : ℕ) (consent_id : String) (input : Revocation) (s u : Store) (r : Receipt)
    → Reach [] s
    → Dict.get consent_id s ≡ some r
    → Reach (revoke now consent_id input s).0 u
    → (x : Receipt) × (get later consent_id u ≡ ok x) × (x.status ≡ revoked)
revoke_final now later consent_id input s u r start found reach =
    let (x, there, (t, e)) =
      Reach-Ended consent_id reach (revoke-Ended now consent_id input s r start found) in
    (parse_receipt later x, get-found later consent_id u there, derive_revoked later x e)
