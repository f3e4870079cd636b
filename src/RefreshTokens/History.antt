-- ===== src/RefreshTokens/History.antt =====
-- services/refreshTokenStore.ts, memory mode: the histories of its calls.
use mathlib.Core.Path.{subst}
use orbi_pay_gateway_v.Prelude.{
  ℕ, ◌≡◌, refl, ap, ◌∙◌, ◌≢◌, Bool, true, false, String, none, some, List, [], ◌∷◌, In, inl, inr,
  arith, eq_iff, eq-cases, ◌==◌, Bool-cases, Option-cases, includes, includes-add,
}
use orbi_pay_gateway_v.Prelude.Dict
use orbi_pay_gateway_v.Prelude.Dict.{get-set, get-set_self, get-set_other}
use orbi_pay_gateway_v.RefreshTokens.Data.{IssueInput, Claims, SubjectFilter}
use orbi_pay_gateway_v.RefreshTokens.{
  Store, MemoryToken, new_token, family_context, issue, replace, rotate, rotate_token, is_unusable,
  revoke_token, revoke_family, record_access_token, revoke_if, revoke_matching, revoke_by_consent,
  revoke_by_service, revoke_by_subject,
}

-- No token of the store is of the family.
abbrev pub IsNewFamily : String → Store → Type 0
IsNewFamily family s =
    (h : String) (t : MemoryToken) → Dict.get h s.tokens ≡ some t → t.family_id ≢ family

-- Revoked families stay revoked.
abbrev pub Grows : Store → Store → Type 0
Grows s t =
    (f : String) → includes f s.revoked_families ≡ true → includes f t.revoked_families ≡ true

revoke_family-Grows : (family : String) (s : Store) → Grows s (revoke_family family s)
unfolding revoke_family
revoke_family-Grows family s f h = ground (arith, includes-add f family s.revoked_families)

pub revoke_family_revoked :
    (family : String) (s : Store) → includes family (revoke_family family s).revoked_families ≡ true
unfolding revoke_family
revoke_family_revoked family s =
    ground (arith, includes-add family family s.revoked_families, eq_iff family family)

module _ (p : MemoryToken → Bool) where
  revoke_if-tokens : (t : MemoryToken) (s : Store) → (revoke_if p t s).tokens ≡ s.tokens
  unfolding revoke_if revoke_family
  revoke_if-tokens t s = ground arith

  revoke_if-Grows : (t : MemoryToken) (s : Store) → Grows s (revoke_if p t s)
  unfolding revoke_if
  revoke_if-Grows t s f e = ground (arith, revoke_family-Grows t.family_id s f e)

  revoke_if_revoked :
      (t : MemoryToken) (s : Store)
      → p t ≡ true
      → includes t.family_id (revoke_if p t s).revoked_families ≡ true
  unfolding revoke_if
  revoke_if_revoked t s h = ground (arith, revoke_family_revoked t.family_id s)

  pub revoke_matching-tokens :
      (ts : List MemoryToken) (s : Store) → (revoke_matching p ts s).tokens ≡ s.tokens
  unfolding revoke_matching
  revoke_matching-tokens [] s = refl
  revoke_matching-tokens (t ∷ ts) s =
      revoke_matching-tokens ts (revoke_if p t s) ∙ revoke_if-tokens t s

  pub revoke_matching-Grows : (ts : List MemoryToken) (s : Store) → Grows s (revoke_matching p ts s)
  unfolding revoke_matching
  revoke_matching-Grows [] s f e = e
  revoke_matching-Grows (t ∷ ts) s f e =
      revoke_matching-Grows ts (revoke_if p t s) f (revoke_if-Grows t s f e)

  pub revoke_matching_revoked :
      (ts : List MemoryToken) (s : Store) (t : MemoryToken)
      → In t ts
      → p t ≡ true
      → includes t.family_id (revoke_matching p ts s).revoked_families ≡ true
  unfolding revoke_matching
  revoke_matching_revoked [] s t i h = absurd i
  revoke_matching_revoked (u ∷ ts) s t (inl e) h =
      subst
        (λ (x : MemoryToken).
          includes x.family_id (revoke_matching p ts (revoke_if p u s)).revoked_families ≡ true)
        e
        (revoke_matching-Grows ts (revoke_if p u s) u.family_id
          (revoke_if_revoked u s (ap p e ∙ h)))
  revoke_matching_revoked (u ∷ ts) s t (inr i) h = revoke_matching_revoked ts _ t i h

-- What one call does to the tokens and the revoked families.
pub data Effect (s t : Store) : Type 0 where
  no_token : t.tokens ≡ s.tokens → Grows s t → Effect s t
  new_family :
      (h : String) (entry : MemoryToken)
      → t.tokens ≡ Dict.set h entry s.tokens
      → Dict.get h s.tokens ≡ none
      → IsNewFamily entry.family_id s
      → t.revoked_families ≡ s.revoked_families
      → Effect s t
  replaced :
      (old new : String) (token spent next : MemoryToken)
      → t.tokens ≡ Dict.set new next (Dict.set old spent s.tokens)
      → Dict.get old s.tokens ≡ some token
      → Dict.get new s.tokens ≡ none
      → (token.consumed ≡ false) × (spent.consumed ≡ true)
      → (spent.family_id ≡ token.family_id) × (next.family_id ≡ token.family_id)
      → t.revoked_families ≡ s.revoked_families
      → Effect s t

module _ (hash : String → String) where
  -- One call. The hash of a new token is not in use; a new family has no token yet.
  pub data Step (s : Store) : Store → Type 0 where
    issues :
        (ttl now : ℕ) (random family_uuid : String) (input : IssueInput)
        → Dict.get (hash (new_token random)) s.tokens ≡ none
        → IsNewFamily (family_context family_uuid input).family_id s
        → Step s (issue hash ttl now random family_uuid input s).0
    rotates :
        (now : ℕ) (random refresh_token service_code : String)
        → Dict.get (hash (new_token random)) s.tokens ≡ none
        → Step s (rotate hash now random refresh_token service_code s).0
    records : (family : String) (claims : Claims) → Step s (record_access_token family claims s)
    revokes_token :
        (refresh_token service_code : String)
        → Step s (revoke_token hash refresh_token service_code s).0
    revokes_consent : (consent_id : String) → Step s (revoke_by_consent consent_id s)
    revokes_service : (service_code : String) → Step s (revoke_by_service service_code s)
    revokes_subject : (f : SubjectFilter) → Step s (revoke_by_subject f s).0

  pub data Reach (s : Store) : Store → Type 0 where
    here : Reach s s
    next : {t u : Store} → Reach s t → Step t u → Reach s u

  rotate_token-Effect :
      (now : ℕ) (random old service_code : String) (token : MemoryToken) (s : Store)
      → Dict.get old s.tokens ≡ some token
      → Dict.get (hash (new_token random)) s.tokens ≡ none
      → Effect s (rotate_token hash now random old service_code token s).0
  unfolding rotate_token replace
  rotate_token-Effect now random old service_code token s found fresh =
      elim (Bool-cases (is_unusable now service_code token)) [
        | inl h ↦ rw h (no_token refl (λ f e. e))
        | inr h ↦ rw h (elim (Bool-cases (includes token.family_id s.revoked_families)) [
          | inl h ↦ rw h (no_token refl (λ f e. e))
          | inr h ↦ rw h (elim (Bool-cases token.consumed) [
            | inl c ↦
                rw c
                  (no_token (unfold revoke_family in refl) (revoke_family-Grows token.family_id s))
            | inr c ↦ rw c (
                replaced old (hash (new_token random)) token _ _ refl found fresh (c, refl)
                  (refl, refl) refl)
          ])
        ])
      ]

  pub Step-Effect : {s t : Store} → Step s t → Effect s t
  unfolding issue rotate record_access_token revoke_token revoke_family revoke_by_consent
      revoke_by_service revoke_by_subject
  Step-Effect {s} (issues ttl now random family_uuid input fresh new) =
      new_family (hash (new_token random)) _ refl fresh new refl
  Step-Effect {s} (rotates now random refresh_token service_code fresh) =
      elim (Option-cases (Dict.get (hash refresh_token) s.tokens)) [
        | inl e ↦ rw (e, rotate) (no_token refl (λ f x. x))
        | inr (token, e) ↦
            rw (e, rotate)
              (rotate_token-Effect now random (hash refresh_token) service_code token s e fresh)
      ]
  Step-Effect {s} (records family claims) = no_token refl (λ f e. e)
  Step-Effect {s} (revokes_token refresh_token service_code) =
      elim (Option-cases (Dict.get (hash refresh_token) s.tokens)) [
        | inl e ↦ rw (e, revoke_token) (no_token refl (λ f x. x))
        | inr (token, e) ↦
            rw (e, revoke_token)
              (elim (Bool-cases (token.service_code == service_code)) [
                | inl h ↦ rw h (revoked token.family_id)
                | inr h ↦ rw h (no_token refl (λ f x. x))
              ])
      ]
    where
      revoked : (family : String) → Effect s (revoke_family family s)
      revoked family = no_token refl (revoke_family-Grows family s)
  Step-Effect {s} (revokes_consent consent_id) =
      no_token (revoke_matching-tokens _ (Dict.values s.tokens) s)
        (revoke_matching-Grows _ (Dict.values s.tokens) s)
  Step-Effect {s} (revokes_service service_code) =
      no_token (revoke_matching-tokens _ (Dict.values s.tokens) s)
        (revoke_matching-Grows _ (Dict.values s.tokens) s)
  Step-Effect {s} (revokes_subject f) =
      no_token (revoke_matching-tokens _ (Dict.values s.tokens) s)
        (revoke_matching-Grows _ (Dict.values s.tokens) s)

-- A token keeps its family, and stays spent.
pub record Keeps (s t : Store) : Type 0 where
  pub token :
      (h : String) (x : MemoryToken)
      → Dict.get h s.tokens ≡ some x
      → (y : MemoryToken) × (Dict.get h t.tokens ≡ some y)
        × (y.family_id ≡ x.family_id)
        × (x.consumed ≡ true → y.consumed ≡ true)
  pub families : Grows s t

Effect-Keeps : {s t : Store} → Effect s t → Keeps s t
Effect-Keeps (no_token same grows) = record {
  token = λ h x e. (x, ap (Dict.get h) same ∙ e, refl, λ c. c);
  families = grows;
}
Effect-Keeps {s} (new_family k entry same fresh new still) = record {
  token = λ h x e. (
    x,
    ap (Dict.get h) same
        ∙ get-set_other k h entry s.tokens (λ p. absurd (cc (ap (λ z. Dict.get z s.tokens) p)))
        ∙ e,
    refl,
    λ c. c,
  );
  families = λ f e. ap (includes f) still ∙ e;
}
Effect-Keeps {s} (replaced old new token spent heir same found fresh flags kin still) = record {
  token = λ h x e. elim (eq-cases old h) [
    | inl (p, _) ↦ (
      spent,
      ap (Dict.get h) same
          ∙ get-set_other new h heir _ (λ q. absurd (cc (ap (λ z. Dict.get z s.tokens) q)))
          ∙ rw (← p) (get-set_self old spent s.tokens),
      kin.0 ∙ ap (λ (z : MemoryToken). z.family_id) (same_token h x p e),
      λ _. flags.1,
    )
    | inr (p, _) ↦ (
      x,
      ap (Dict.get h) same
          ∙ get-set_other new h heir _ (λ q. absurd (cc (ap (λ z. Dict.get z s.tokens) q)))
          ∙ get-set_other old h spent s.tokens p
          ∙ e,
      refl,
      λ c. c,
    )
  ];
  families = λ f e. ap (includes f) still ∙ e;
}
  where
    same_token : (h : String) (x : MemoryToken) → old ≡ h → Dict.get h s.tokens ≡ some x → token ≡ x
    same_token h x p e = cc (ap (λ z. Dict.get z s.tokens) p)

Keeps-trans : {s t u : Store} → Keeps s t → Keeps t u → Keeps s u
Keeps-trans a b = record {
  token = λ h x e.
      let (y, e', f, c) = a.token h x e in
      let (z, e'', f', c') = b.token h y e' in (z, e'', f' ∙ f, λ s. c' (c s));
  families = λ f e. b.families f (a.families f e);
}

pub Reach-Keeps : (hash : String → String) {s t : Store} → Reach hash s t → Keeps s t
Reach-Keeps hash here = record { token = λ h x e. (x, e, refl, λ c. c); families = λ f e. e }
Reach-Keeps hash (next r st) = Keeps-trans (Reach-Keeps hash r) (Effect-Keeps (Step-Effect hash st))
