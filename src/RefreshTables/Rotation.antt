-- ===== src/RefreshTables/Rotation.antt =====
-- services/refreshTokenStore.ts, Postgres mode: the rotation of a token.

use orbi_pay_gateway_v.Prelude.{
  ℕ, ◌<◌, ◌≡◌, refl, sym, ap, ◌∙◌, inl, inr, Bool, true, false, String, Option, none, some, Result,
  ok, ok-eq, find, find-some, arith, Bool-cases, Option-cases, eq_iff,
}
use orbi_pay_gateway_v.Sql.{update_where, find-update_where}
use orbi_pay_gateway_v.RefreshTokens.Data.{Context, RotationResult, rotated}
use orbi_pay_gateway_v.RefreshTables.{
  Tables, Family, TokenRow, Lifetimes, Error, has_hash, is_family, is_set, consume, select_token,
  is_unusable, replace, rotate_row, rotate,
}
use orbi_pay_gateway_v.RefreshTables.History.{
  Used, Reach, replace-Used, rotate_missing, rotate_found, Reach-Used,
}

abbrev pub is_rotated : Result Error (Tables × RotationResult) → Bool
is_rotated (ok (_, rotated _ _)) = true
is_rotated _ = false

module _ (hash : String → String) (lifetimes : Lifetimes) where
  select_token-find :
      (h : String) (s : Tables) {t : TokenRow} {f : Family}
      → select_token h s ≡ some (t, f)
      → find (has_hash h) s.tokens ≡ some t
  unfolding select_token
  select_token-find h s {t} {f} e = elim (Option-cases (find (has_hash h) s.tokens)) [
    | inl missing ↦ absurd (cc (rw (missing, select_token) at e))
    | inr (x, found) ↦ elim (Option-cases (find (is_family x.family_id) s.families)) [
      | inl orphan ↦ absurd (cc (rw (found, orphan, select_token) at e))
      | inr (g, kin) ↦ found ∙ ap (λ p. token_of p) (rw (found, kin, select_token) at e)
    ]
  ]
    where
      token_of : Option (TokenRow × Family) → Option TokenRow
      token_of none = none
      token_of (some p) = some p.0

  rotate_row_spent :
      (now : ℕ) (random h service_code : String) (t : TokenRow) (f : Family) (s : Tables)
      → is_set t.consumed_at ≡ true
      → is_rotated (rotate_row hash lifetimes now random h service_code t f s) ≡ false
  unfolding rotate_row
  rotate_row_spent now random h service_code t f s spent =
      elim (Bool-cases (is_unusable now service_code t f)) [
        | inl bad ↦ rw (bad) refl
        | inr fine ↦ elim (Bool-cases (is_set f.revoked_at)) [
          | inl dead ↦ rw (fine, dead) refl
          | inr alive ↦ rw (fine, alive, spent) refl
        ]
      ]

  Used-rotated :
      (now : ℕ) (random refresh_token service_code : String) (s : Tables)
      → Used (hash refresh_token) s.tokens
      → is_rotated (rotate hash lifetimes now random refresh_token service_code s) ≡ false
  Used-rotated now random refresh_token service_code s (t, found, used) =
      elim (Option-cases (select_token (hash refresh_token) s)) [
        | inl missing ↦
            ap is_rotated
              (rotate_missing hash lifetimes now random refresh_token service_code s missing)
        | inr ((x, f), there) ↦
            ap is_rotated
              (rotate_found hash lifetimes now random refresh_token service_code s there)
            ∙ rotate_row_spent now random (hash refresh_token) service_code x f s (
                ap (λ z. used_of z) (sym (select_token-find (hash refresh_token) s there) ∙ found)
                ∙ used)
      ]
    where
      used_of : Option TokenRow → Bool
      used_of none = false
      used_of (some y) = is_set y.consumed_at

  rotate_row-parts :
      (now : ℕ) (random h service_code : String) (x : TokenRow) (f : Family) (s t : Tables)
      (token' : String) (context : Context)
      → rotate_row hash lifetimes now random h service_code x f s ≡ ok (t, rotated token' context)
      → (is_unusable now service_code x f ≡ false)
        × (is_set f.revoked_at ≡ false)
        × (is_set x.consumed_at ≡ false)
        × (replace hash lifetimes now h random f s ≡ ok (t, rotated token' context))
  unfolding rotate_row
  rotate_row-parts now random h service_code x f s t token' context e =
      elim (Bool-cases (is_unusable now service_code x f)) [
        | inl bad ↦ absurd (cc (ap (λ p. p.1) (ok-eq (rw (bad) at e))))
        | inr fine ↦ elim (Bool-cases (is_set f.revoked_at)) [
          | inl dead ↦ absurd (cc (ap (λ p. p.1) (ok-eq (rw (fine, dead) at e))))
          | inr alive ↦ elim (Bool-cases (is_set x.consumed_at)) [
            | inl spent ↦ absurd (cc (ap (λ p. p.1) (ok-eq (rw (fine, alive, spent) at e))))
            | inr new ↦ (fine, alive, new, rw (fine, alive, new) at e)
          ]
        ]
      ]

  -- If a rotation hands out a new token, the old one is stored with a family of the service; neither of
  -- the two was revoked, the token was not used before, and neither its own time nor the family's
  -- absolute time is over.
  pub rotate_grants :
      (now : ℕ) (random refresh_token service_code : String) (s t : Tables) (token' : String)
      (context : Context)
      → rotate hash lifetimes now random refresh_token service_code s
        ≡ ok (t, rotated token' context)
      → (x : TokenRow) × (f : Family) × (select_token (hash refresh_token) s ≡ some (x, f))
        × (f.service_code ≡ service_code)
        × (now < x.expires_at)
        × (now < f.absolute_expires_at)
        × (is_set x.revoked_at ≡ false)
        × (is_set f.revoked_at ≡ false)
        × (is_set x.consumed_at ≡ false)
  rotate_grants now random refresh_token service_code s t token' context e =
      elim (Option-cases (select_token (hash refresh_token) s)) [
        | inl missing ↦ absurd (
            cc (
              ap (λ p. p.1)
                (ok-eq (
                  sym
                    (rotate_missing hash lifetimes now random refresh_token service_code s missing)
                  ∙ e))))
        | inr ((x, f), found) ↦
            let (fine, alive, new, _) =
              rotate_row-parts now random (hash refresh_token) service_code x f s t token' context (
                sym (rotate_found hash lifetimes now random refresh_token service_code s found)
                ∙ e) in
            let (own, fresh, young, kept) = usable_parts now service_code x f fine in
            (x, f, found, own, fresh, young, kept, alive, new)
      ]
    where
      usable_parts :
          (now : ℕ) (service_code : String) (x : TokenRow) (f : Family)
          → is_unusable now service_code x f ≡ false
          → (f.service_code ≡ service_code)
            × (now < x.expires_at)
            × (now < f.absolute_expires_at)
            × (is_set x.revoked_at ≡ false)
      usable_parts now service_code x f h = (
        ground (arith, eq_iff f.service_code service_code),
        ground arith,
        ground arith,
        ground arith,
      )

  -- After a token was rotated, no call at any later time rotates it again, whatever calls lie between.
  pub rotate_in_tables_once :
      (now later : ℕ) (random random' refresh_token service_code service_code' : String)
      (s t u : Tables) (token' : String) (context : Context)
      → rotate hash lifetimes now random refresh_token service_code s
        ≡ ok (t, rotated token' context)
      → Reach hash lifetimes t u
      → is_rotated (rotate hash lifetimes later random' refresh_token service_code' u) ≡ false
  rotate_in_tables_once now later random random' refresh_token service_code service_code' s t u
        token' context e reach =
      let (x, f, found, _, _, _, _, _, _) =
        rotate_grants now random refresh_token service_code s t token' context e in
      let h = hash refresh_token in
      let (_, _, _, run) =
        rotate_row-parts now random h service_code x f s t token' context
          (sym (rotate_found hash lifetimes now random refresh_token service_code s found) ∙ e) in
      let stored = select_token-find h s found in
      let step =
        find-update_where (has_hash h) (has_hash h) (consume now) s.tokens (λ y. refl) stored in
      let used : Used h (update_where (has_hash h) (consume now) s.tokens) =
        (consume now x, rw ((find-some (has_hash h) s.tokens stored).0) at step, refl) in
      Used-rotated later random' refresh_token service_code' u (
        Reach-Used hash lifetimes h reach
          (replace-Used hash lifetimes now h random h f s t (rotated token' context) run used))
