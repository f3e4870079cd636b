-- ===== src/RefreshTokens/Family.antt =====
-- services/refreshTokenStore.ts, memory mode: the tokens of a family that were not used.

use orbi_pay_gateway_v.Prelude.{◌≡◌, sym, ap, ◌∙◌, ◌≢◌, false, String, some, ◌⊎◌, inl, inr}
use orbi_pay_gateway_v.Prelude.Dict
use orbi_pay_gateway_v.Prelude.Dict.{get-set_cases}
use orbi_pay_gateway_v.RefreshTokens.{Store, MemoryToken, empty}
use orbi_pay_gateway_v.RefreshTokens.History.{
  Step, Reach, here, Effect, no_token, new_family, replaced, Step-Effect,
}
use orbi_pay_gateway_v.RefreshTokens.History as History

-- Two tokens of one family that were both not used are one.
abbrev pub HasSingleLive : Store → Type 0
HasSingleLive s =
    (h k : String) (x y : MemoryToken)
    → Dict.get h s.tokens ≡ some x
    → Dict.get k s.tokens ≡ some y
    → x.family_id ≡ y.family_id
    → x.consumed ≡ false
    → y.consumed ≡ false
    → h ≡ k

Effect-HasSingleLive : {s t : Store} → Effect s t → HasSingleLive s → HasSingleLive t
Effect-HasSingleLive (no_token same grows) v h k x y e f kin a b =
    v h k x y (ap (Dict.get h) (sym same) ∙ e) (ap (Dict.get k) (sym same) ∙ f) kin a b
Effect-HasSingleLive {s} (new_family n entry same fresh new still) v h k x y e f kin a b =
    elim (get-set_cases n h entry s.tokens (ap (Dict.get h) (sym same) ∙ e)) [
      | inl (p, q) ↦ elim (get-set_cases n k entry s.tokens (ap (Dict.get k) (sym same) ∙ f)) [
        | inl (p', q') ↦ sym p ∙ p'
        | inr (p', q') ↦
            absurd (new k y q' (sym kin ∙ ap (λ (z : MemoryToken). z.family_id) (sym q)))
      ]
      | inr (p, q) ↦ elim (get-set_cases n k entry s.tokens (ap (Dict.get k) (sym same) ∙ f)) [
        | inl (p', q') ↦ absurd (new h x q (kin ∙ ap (λ (z : MemoryToken). z.family_id) (sym q')))
        | inr (p', q') ↦ v h k x y q q' kin a b
      ]
    ]
Effect-HasSingleLive {s} (replaced old new token spent heir same found fresh flags kins still) v h k
      x y e f kin a b =
    elim (origin h x (ap (Dict.get h) (sym same) ∙ e) a) [
      | inl (p, q) ↦ elim (origin k y (ap (Dict.get k) (sym same) ∙ f) b) [
        | inl (p', q') ↦ sym p ∙ p'
        | inr (p', q') ↦ absurd (
            p' (
              v old k token y found q' (sym kins.1 ∙ ap (λ (z : MemoryToken). z.family_id) q ∙ kin)
                flags.0 b))
      ]
      | inr (p, q) ↦ elim (origin k y (ap (Dict.get k) (sym same) ∙ f) b) [
        | inl (p', q') ↦ absurd (
            p (
              v old h token x found q
                (sym kins.1 ∙ ap (λ (z : MemoryToken). z.family_id) q' ∙ sym kin) flags.0 a))
        | inr (p', q') ↦ v h k x y q q' kin a b
      ]
    ]
  where
    origin :
        (j : String) (z : MemoryToken)
        → Dict.get j (Dict.set new heir (Dict.set old spent s.tokens)) ≡ some z
        → z.consumed ≡ false
        → ((new ≡ j) × (heir ≡ z)) ⊎ ((old ≢ j) × (Dict.get j s.tokens ≡ some z))
    origin j z e unused = elim (get-set_cases new j heir (Dict.set old spent s.tokens) e) [
      | inl there ↦ inl there
      | inr (_, q) ↦ elim (get-set_cases old j spent s.tokens q) [
        | inl (_, q') ↦ absurd (cc (ap (λ (w : MemoryToken). w.consumed) q', flags.1))
        | inr (p', q') ↦ inr (p', q')
      ]
    ]

empty-HasSingleLive : HasSingleLive empty
unfolding empty Dict.get
empty-HasSingleLive h k x y e f kin a b = absurd (cc)

-- After any sequence of calls on a new store, in which the hashes of new tokens are not in use and
-- new families have no token yet, no family has two tokens that were not used.
pub Reach-empty-HasSingleLive :
    (hash : String → String) {t : Store} → Reach hash empty t → HasSingleLive t
Reach-empty-HasSingleLive hash here = empty-HasSingleLive
Reach-empty-HasSingleLive hash (History.next r st) =
    Effect-HasSingleLive (Step-Effect hash st) (Reach-empty-HasSingleLive hash r)
