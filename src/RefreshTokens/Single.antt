-- ===== src/RefreshTokens/Single.antt =====
-- services/refreshTokenStore.ts, memory mode: the use, the reuse and the revocation of a token.
use mathlib.Core.Path.{subst}
use orbi_pay_gateway_v.Prelude.{
  ℕ, ◌<◌, ◌≡◌, refl, sym, ap, ◌∙◌, Bool, true, false, String, none, some, List, ◌↔◌, inl, inr,
  arith, eq_iff, Option-cases, includes, some-eq,
}
use orbi_pay_gateway_v.Prelude.Dict
use orbi_pay_gateway_v.Prelude.Dict.{get-set, get-set_self, get-set_other, get-In-values}
use orbi_pay_gateway_v.RefreshTokens.Data.{
  Context, Claims, SubjectFilter, RotationResult, rotated, reuse_detected, invalid,
}
use orbi_pay_gateway_v.RefreshTokens.{
  Store, MemoryToken, new_token, replace, rotate, rotate_token, is_unusable, revoke_family,
  revoke_by_subject, is_of_subject,
}
use orbi_pay_gateway_v.RefreshTokens.History.{
  Reach, Reach-Keeps, revoke_family_revoked, revoke_matching-tokens, revoke_matching_revoked,
}

abbrev pub is_rotated : RotationResult → Bool
is_rotated (rotated _ _) = true
is_rotated _ = false

abbrev pub is_reuse : RotationResult → Bool
is_reuse (reuse_detected _ _) = true
is_reuse _ = false

module _ (hash : String → String) where
  rotate_token_iff :
      (now : ℕ) (random old service_code : String) (token : MemoryToken) (s : Store)
      → (is_rotated (rotate_token hash now random old service_code token s).1 ≡ true) ↔ (
          (token.service_code ≡ service_code)
          × (now < token.expires_at)
          × (token.revoked ≡ false)
          × (includes token.family_id s.revoked_families ≡ false)
          × (token.consumed ≡ false))
  unfolding rotate_token is_unusable
  rotate_token_iff now random old service_code token s = (
    λ h. ground (arith, eq_iff token.service_code service_code),
    λ h. ground (arith, eq_iff token.service_code service_code),
  )

  rotate_token_reuse_iff :
      (now : ℕ) (random old service_code : String) (token : MemoryToken) (s : Store)
      → (is_reuse (rotate_token hash now random old service_code token s).1 ≡ true) ↔ (
          (token.service_code ≡ service_code)
          × (now < token.expires_at)
          × (token.revoked ≡ false)
          × (includes token.family_id s.revoked_families ≡ false)
          × (token.consumed ≡ true))
  unfolding rotate_token is_unusable
  rotate_token_reuse_iff now random old service_code token s = (
    λ h. ground (arith, eq_iff token.service_code service_code),
    λ h. ground (arith, eq_iff token.service_code service_code),
  )

  rotate_token_invalid :
      (now : ℕ) (random old service_code : String) (token : MemoryToken) (s : Store)
      → is_rotated (rotate_token hash now random old service_code token s).1 ≡ false
      → is_reuse (rotate_token hash now random old service_code token s).1 ≡ false
      → rotate_token hash now random old service_code token s ≡ (s, invalid)
  unfolding rotate_token
  rotate_token_invalid now random old service_code token s h k = ground arith

  rotate_token_parts :
      (now : ℕ) (random old service_code : String) (token : MemoryToken) (s : Store)
      → is_rotated (rotate_token hash now random old service_code token s).1 ≡ true
      → (rotate_token hash now random old service_code token s).0
        ≡ replace hash old (new_token random) token s
  unfolding rotate_token
  rotate_token_parts now random old service_code token s h = ground arith

  rotate_token_reuse :
      (now : ℕ) (random old service_code : String) (token : MemoryToken) (s : Store)
      {context : Context} {claims : List Claims}
      → (rotate_token hash now random old service_code token s).1 ≡ reuse_detected context claims
      → ((rotate_token hash now random old service_code token s).0
          ≡ revoke_family token.family_id s)
        × (token.context ≡ context)
  unfolding rotate_token
  rotate_token_reuse now random old service_code token s h = ground arith

  rotate_token_dead :
      (now : ℕ) (random old service_code : String) (token : MemoryToken) (s : Store)
      → includes token.family_id s.revoked_families ≡ true
      → rotate_token hash now random old service_code token s ≡ (s, invalid)
  unfolding rotate_token
  rotate_token_dead now random old service_code token s h = ground arith

  rotate_token_spent :
      (now : ℕ) (random old service_code : String) (token : MemoryToken) (s : Store)
      → token.consumed ≡ true
      → is_rotated (rotate_token hash now random old service_code token s).1 ≡ false
  unfolding rotate_token
  rotate_token_spent now random old service_code token s h = ground arith

  replace_spent :
      (old token' : String) (token : MemoryToken) (s : Store)
      → Dict.get old s.tokens ≡ some token
      → Dict.get (hash token') s.tokens ≡ none
      → Dict.get old (replace hash old token' token s).tokens
        ≡ some (record token { consumed = true })
  unfolding replace
  replace_spent old token' token s found fresh =
      get-set_other (hash token') old _ _ (λ p. absurd (cc (ap (λ z. Dict.get z s.tokens) p)))
      ∙ get-set_self old _ s.tokens

  rotate_missing :
      (now : ℕ) (random refresh_token service_code : String) (s : Store)
      → Dict.get (hash refresh_token) s.tokens ≡ none
      → rotate hash now random refresh_token service_code s ≡ (s, invalid)
  unfolding rotate
  rotate_missing now random refresh_token service_code s e = rw (e, rotate)

  rotate_found :
      (now : ℕ) (random refresh_token service_code : String) (s : Store) {token : MemoryToken}
      → Dict.get (hash refresh_token) s.tokens ≡ some token
      → rotate hash now random refresh_token service_code s
        ≡ rotate_token hash now random (hash refresh_token) service_code token s
  unfolding rotate
  rotate_found now random refresh_token service_code s e = rw (e, rotate)

  -- A token that may be presented by the service at the time, apart from its use.
  abbrev pub IsStanding : ℕ → String → String → Store → MemoryToken → Type 0
  IsStanding now refresh_token service_code s token =
      (Dict.get (hash refresh_token) s.tokens ≡ some token)
      × (token.service_code ≡ service_code)
      × (now < token.expires_at)
      × (token.revoked ≡ false)
      × (includes token.family_id s.revoked_families ≡ false)

  standing_parts :
      (now : ℕ) (refresh_token service_code : String) (s : Store) (x : MemoryToken)
      {token : MemoryToken} {used : Bool}
      → Dict.get (hash refresh_token) s.tokens ≡ some token
      → IsStanding now refresh_token service_code s x
      → x.consumed ≡ used
      → (token.service_code ≡ service_code)
        × (now < token.expires_at)
        × (token.revoked ≡ false)
        × (includes token.family_id s.revoked_families ≡ false)
        × (token.consumed ≡ used)
  standing_parts now refresh_token service_code s x {used} found (held, a, b, c, d) e =
      subst
        (λ (z : MemoryToken).
          (z.service_code ≡ service_code)
          × (now < z.expires_at)
          × (z.revoked ≡ false)
          × (includes z.family_id s.revoked_families ≡ false)
          × (z.consumed ≡ used))
        (some-eq (sym held ∙ found)) (a, b, c, d, e)

  -- A rotation hands out a new token exactly if the token is stored, belongs to the service, has not
  -- run out, is neither revoked itself nor by its family, and was not used before. It reports a reuse
  -- exactly if all this holds but the token was used before. In every other case it answers that the
  -- token is invalid and leaves the store as it was.
  pub rotate_succeeds_iff :
      (now : ℕ) (random refresh_token service_code : String) (s : Store)
      → let answer = rotate hash now random refresh_token service_code s in
        ((is_rotated answer.1 ≡ true) ↔ (
          (token : MemoryToken) × IsStanding now refresh_token service_code s token
          × (token.consumed ≡ false)))
        × ((is_reuse answer.1 ≡ true) ↔ (
            (token : MemoryToken) × IsStanding now refresh_token service_code s token
            × (token.consumed ≡ true)))
        × (is_rotated answer.1 ≡ false → is_reuse answer.1 ≡ false → answer ≡ (s, invalid))
  rotate_succeeds_iff now random refresh_token service_code s =
      elim (Option-cases (Dict.get (hash refresh_token) s.tokens)) [
        | inl missing ↦ rw (rotate_missing now random refresh_token service_code s missing) (
          (λ h. absurd (cc h), λ x. absurd (cc (sym missing ∙ (x.1).0))),
          (λ h. absurd (cc h), λ x. absurd (cc (sym missing ∙ (x.1).0))),
          λ h k. refl,
        )
        | inr (token, found) ↦
            let (fresh, unfresh) =
              rotate_token_iff now random (hash refresh_token) service_code token s in
            let (reused, unreused) =
              rotate_token_reuse_iff now random (hash refresh_token) service_code token s in
            rw (rotate_found now random refresh_token service_code s found) (
              (
                λ h. let (a, b, c, d, e) = fresh h in (token, (found, a, b, c, d), e),
                λ x. unfresh (standing_parts now refresh_token service_code s x.0 found x.1 x.2),
              ),
              (
                λ h. let (a, b, c, d, e) = reused h in (token, (found, a, b, c, d), e),
                λ x. unreused (standing_parts now refresh_token service_code s x.0 found x.1 x.2),
              ),
              rotate_token_invalid now random (hash refresh_token) service_code token s,
            )
      ]

  -- After a token was rotated to one whose hash was not in use, no call at any later time rotates it
  -- again, whatever calls lie between, in which the hashes of new tokens are not in use and new
  -- families have no token yet.
  pub rotate_once :
      (now later : ℕ) (random random' refresh_token service_code service_code' : String)
      (s t u : Store) (token' : String) (context : Context)
      → rotate hash now random refresh_token service_code s ≡ (t, rotated token' context)
      → Dict.get (hash (new_token random)) s.tokens ≡ none
      → Reach hash t u
      → is_rotated (rotate hash later random' refresh_token service_code' u).1 ≡ false
  rotate_once now later random random' refresh_token service_code service_code' s t u token' context
        e fresh r =
      elim (Option-cases (Dict.get (hash refresh_token) s.tokens)) [
        | inl missing ↦
            absurd (cc (sym (rotate_missing now random refresh_token service_code s missing) ∙ e))
        | inr (token, found) ↦
            let run = sym (rotate_found now random refresh_token service_code s found) ∙ e in
            let state =
              sym (
                rotate_token_parts now random (hash refresh_token) service_code token s
                  (ap (λ p. is_rotated p.1) run))
              ∙ ap (λ p. p.0) run in
            let (y, found', _, stays) =
              (Reach-Keeps hash r).token (hash refresh_token) (record token { consumed = true })
                (ap (λ (x : Store). Dict.get (hash refresh_token) x.tokens) (sym state)
                  ∙ replace_spent (hash refresh_token) (new_token random) token s found fresh) in
            ap (λ p. is_rotated p.1)
              (rotate_found later random' refresh_token service_code' u found')
            ∙ rotate_token_spent later random' (hash refresh_token) service_code' y u (stays refl)
      ]

  -- After a reuse was detected, every token that is then in the family is invalid for ever: no call
  -- at a later time rotates it or detects another reuse, whatever calls lie between, in which the
  -- hashes of new tokens are not in use and new families have no token yet.
  pub reuse_ends_family :
      (now later : ℕ) (random random' refresh_token other service_code service_code' : String)
      (s t u : Store) (context : Context) (claims : List Claims) (x : MemoryToken)
      → rotate hash now random refresh_token service_code s ≡ (t, reuse_detected context claims)
      → Reach hash t u
      → Dict.get (hash other) u.tokens ≡ some x
      → x.family_id ≡ context.family_id
      → rotate hash later random' other service_code' u ≡ (u, invalid)
  reuse_ends_family now later random random' refresh_token other service_code service_code' s t u
        context claims x e r found kin =
      elim (Option-cases (Dict.get (hash refresh_token) s.tokens)) [
        | inl missing ↦
            absurd (cc (sym (rotate_missing now random refresh_token service_code s missing) ∙ e))
        | inr (token, there) ↦
            let run = sym (rotate_found now random refresh_token service_code s there) ∙ e in
            let (state, same) =
              rotate_token_reuse now random (hash refresh_token) service_code token s
                (ap (λ p. p.1) run) in
            let family : token.family_id ≡ x.family_id =
              ap (λ (c : Context). c.family_id) same ∙ sym kin in
            let dead = (Reach-Keeps hash r).families token.family_id (
              ap (λ (z : Store). includes token.family_id z.revoked_families)
                (sym (ap (λ p. p.0) run) ∙ state)
              ∙ revoke_family_revoked token.family_id s) in
            rotate_found later random' other service_code' u found
            ∙ rotate_token_dead later random' (hash other) service_code' x u
                (subst (λ f. includes f u.revoked_families ≡ true) family dead)
      ]

  -- Revoking a subject's tokens ends every stored token that the filter fits: it is invalid at a later
  -- time, whatever calls lie between, in which the hashes of new tokens are not in use and new
  -- families have no token yet.
  pub revoke_by_subject_ends :
      (f : SubjectFilter) (later : ℕ) (random refresh_token service_code : String) (s u : Store)
      (x : MemoryToken)
      → Dict.get (hash refresh_token) s.tokens ≡ some x
      → is_of_subject f x ≡ true
      → Reach hash (revoke_by_subject f s).0 u
      → rotate hash later random refresh_token service_code u ≡ (u, invalid)
  unfolding revoke_by_subject
  revoke_by_subject_ends f later random refresh_token service_code s u x found fits r =
      let t = (revoke_by_subject f s).0 in
      let stored =
        ap (Dict.get (hash refresh_token))
          (revoke_matching-tokens (is_of_subject f) (Dict.values s.tokens) s)
        ∙ found in
      let (y, found', kin, _) = (Reach-Keeps hash r).token (hash refresh_token) x stored in
      let dead = (Reach-Keeps hash r).families x.family_id (
        revoke_matching_revoked (is_of_subject f) (Dict.values s.tokens) s x
          (get-In-values (hash refresh_token) s.tokens found) fits) in
      rotate_found later random refresh_token service_code u found'
      ∙ rotate_token_dead later random (hash refresh_token) service_code y u
          (subst (λ z. includes z u.revoked_families ≡ true) (sym kin) dead)
