-- ===== src/RefreshTables/History.antt =====
-- services/refreshTokenStore.ts, Postgres mode: the histories of its calls.
use mathlib.Core.Path.{subst}
use Prim.Native.String as Str
use orbi_pay_gateway_v.Prelude.{
  ℕ, ◌≡◌, refl, sym, ap, ◌∙◌, inl, inr, Bool, true, ◌==◌, String, none, some, List, [], ◌∷◌,
  Result-cases, ok, ok-eq, any, find, arith, Bool-cases, Option-cases, eq-cases,
}
use orbi_pay_gateway_v.Sql.{update_where, find-update_where}
use orbi_pay_gateway_v.RefreshTokens.Data.{
  Context, IssueInput, Claims, RotationResult, invalid, SubjectFilter,
}
use orbi_pay_gateway_v.RefreshTables.{
  Tables, Family, TokenRow, Lifetimes, has_hash, is_family, is_set, end_token, consume,
  revoke_families, token_row, new_context, new_family, insert_token, select_token, is_unusable,
  issue, replace, rotate_row, rotate, revoke_token, record_access_token, revoke_by_consent,
  revoke_by_service, revoke_by_subject,
}

-- The row that a hash finds was used.
abbrev pub Used : String → List TokenRow → Type 0
Used h tokens = (t : TokenRow) × (find (has_hash h) tokens ≡ some t) × (is_set t.consumed_at ≡ true)

any-find : {A : Type 0} (p : A → Bool) (xs : List A) (x : A) → find p xs ≡ some x → any p xs ≡ true
unfolding find any
any-find p [] x e = absurd (cc)
any-find p (y ∷ xs) x e = ground (arith, any-find p xs x)

-- An update that keeps hashes and uses keeps a used row used.
update-Used :
    (h : String) (p : TokenRow → Bool) (g : TokenRow → TokenRow) (tokens : List TokenRow)
    → ((t : TokenRow) → (g t).token_hash ≡ t.token_hash)
    → ((t : TokenRow) → is_set t.consumed_at ≡ true → is_set (g t).consumed_at ≡ true)
    → Used h tokens
    → Used h (update_where p g tokens)
update-Used h p g tokens same keeps (t, found, used) =
    let step = find-update_where (has_hash h) p g tokens (λ x. ap (λ z. z == h) (same x)) found in
    elim (Bool-cases (p t)) [
      | inl fits ↦ (g t, rw (fits) at step, keeps t used)
      | inr other ↦ (t, rw (other) at step, used)
    ]

revoke_families-Used :
    (now : ℕ) (reason : String) (p : Family → Bool) (h : String) (s : Tables)
    → Used h s.tokens
    → Used h (revoke_families now reason p s).tokens
unfolding revoke_families
revoke_families-Used now reason p h s used =
    update-Used h _ (end_token now) s.tokens (λ t. refl) (λ t k. k) used

insert_token-Used :
    (lifetimes : Lifetimes) (now : ℕ) (k family_id h : String) (s : Tables) {t : Tables}
    → insert_token lifetimes now k family_id s ≡ ok t
    → Used h s.tokens
    → Used h t.tokens
unfolding insert_token token_row find
insert_token-Used lifetimes now k family_id h s {t} e (x, found, used) =
    elim (Bool-cases (any (has_hash k) s.tokens)) [
      | inl taken ↦ absurd (cc (rw (taken) at e))
      | inr free ↦
          subst (λ (z : Tables). Used h z.tokens) (ok-eq (rw (free) at e))
            (elim (eq-cases k h) [
              | inl (p, _) ↦ absurd (
                  cc (
                    sym free
                    ∙ any-find (has_hash k) s.tokens x
                        (ap (λ z. find (has_hash z) s.tokens) p ∙ found)))
              | inr (_, q) ↦ (x, rw (q) found, used)
            ])
    ]

module _ (hash : String → String) (lifetimes : Lifetimes) where
  pub replace-Used :
      (now : ℕ) (k random h : String) (f : Family) (s t : Tables) (r : RotationResult)
      → replace hash lifetimes now k random f s ≡ ok (t, r)
      → Used h (update_where (has_hash k) (consume now) s.tokens)
      → Used h t.tokens
  unfolding replace
  replace-Used now k random h f s t r e used =
      elim (Result-cases (
        insert_token lifetimes now (hash (Str.◌++◌ "orbi_rt_" random)) f.family_id
          (record s { tokens = update_where (has_hash k) (consume now) s.tokens }))) [
            | inl (x, bad) ↦ absurd (cc (rw (bad, replace) at e))
            | inr (u, good) ↦
                subst (λ (z : Tables). Used h z.tokens)
                  (ap (λ p. p.0) (ok-eq (rw (good, replace) at e)))
                  (insert_token-Used lifetimes now (hash (Str.◌++◌ "orbi_rt_" random)) f.family_id h
                    (record s { tokens = update_where (has_hash k) (consume now) s.tokens }) good
                    used)
          ]

  rotate_row-Used :
      (now : ℕ) (random k service_code h : String) (x : TokenRow) (f : Family) (s t : Tables)
      (r : RotationResult)
      → rotate_row hash lifetimes now random k service_code x f s ≡ ok (t, r)
      → Used h s.tokens
      → Used h t.tokens
  unfolding rotate_row
  rotate_row-Used now random k service_code h x f s t r e used =
      elim (Bool-cases (is_unusable now service_code x f)) [
        | inl bad ↦ same (ap (λ p. p.0) (ok-eq (rw (bad) at e)))
        | inr fine ↦ elim (Bool-cases (is_set f.revoked_at)) [
          | inl dead ↦ same (ap (λ p. p.0) (ok-eq (rw (fine, dead) at e)))
          | inr alive ↦ elim (Bool-cases (is_set x.consumed_at)) [
            | inl spent ↦
                subst (λ (z : Tables). Used h z.tokens)
                  (ap (λ p. p.0) (ok-eq (rw (fine, alive, spent) at e)))
                  (revoke_families-Used now "refresh_token_reuse" (is_family f.family_id) h s used)
            | inr new ↦
                replace-Used now k random h f s t r (rw (fine, alive, new) at e)
                  (update-Used h (has_hash k) (consume now) s.tokens (λ y. refl) (λ y u. refl) used)
          ]
        ]
      ]
    where
      same : s ≡ t → Used h t.tokens
      same p = subst (λ (z : Tables). Used h z.tokens) p used

  pub rotate_missing :
      (now : ℕ) (random refresh_token service_code : String) (s : Tables)
      → select_token (hash refresh_token) s ≡ none
      → rotate hash lifetimes now random refresh_token service_code s ≡ ok (s, invalid)
  unfolding rotate
  rotate_missing now random refresh_token service_code s e = rw (e, rotate)

  pub rotate_found :
      (now : ℕ) (random refresh_token service_code : String) (s : Tables) {t : TokenRow}
      {f : Family}
      → select_token (hash refresh_token) s ≡ some (t, f)
      → rotate hash lifetimes now random refresh_token service_code s
        ≡ rotate_row hash lifetimes now random (hash refresh_token) service_code t f s
  unfolding rotate
  rotate_found now random refresh_token service_code s e = rw (e, rotate)

  rotate-Used :
      (now : ℕ) (random refresh_token service_code h : String) (s t : Tables) (r : RotationResult)
      → rotate hash lifetimes now random refresh_token service_code s ≡ ok (t, r)
      → Used h s.tokens
      → Used h t.tokens
  rotate-Used now random refresh_token service_code h s t r e used =
      elim (Option-cases (select_token (hash refresh_token) s)) [
        | inl missing ↦
            subst (λ (z : Tables). Used h z.tokens)
              (ap (λ p. p.0)
                (ok-eq (sym (rotate_missing now random refresh_token service_code s missing) ∙ e)))
              used
        | inr ((x, f), found) ↦
            rotate_row-Used now random (hash refresh_token) service_code h x f s t r
              (sym (rotate_found now random refresh_token service_code s found) ∙ e) used
      ]

  -- One call that changes the tables.
  pub data Step (s : Tables) : Tables → Type 0 where
    issues :
        (now : ℕ) (random family_uuid : String) (input : IssueInput) (t : Tables)
        (answer : String × Context)
        → issue hash lifetimes now random family_uuid input s ≡ ok (t, answer)
        → Step s t
    rotates :
        (now : ℕ) (random refresh_token service_code : String) (t : Tables) (r : RotationResult)
        → rotate hash lifetimes now random refresh_token service_code s ≡ ok (t, r)
        → Step s t
    revokes_token :
        (now : ℕ) (reason refresh_token service_code : String)
        → Step s (revoke_token hash lifetimes now reason refresh_token service_code s).0
    records :
        (now : ℕ) (family_id : String) (claims : Claims)
        → Step s (record_access_token now family_id claims s)
    revokes_consent :
        (now : ℕ) (reason consent_id : String) → Step s (revoke_by_consent now reason consent_id s)
    revokes_service :
        (now : ℕ) (reason service_code : String)
        → Step s (revoke_by_service now reason service_code s)
    revokes_subject :
        (now : ℕ) (reason : String) (f : SubjectFilter)
        → Step s (revoke_by_subject now reason f s).0

  pub data Reach (s : Tables) : Tables → Type 0 where
    here : Reach s s
    next : {t u : Tables} → Reach s t → Step t u → Reach s u

  issue-Used :
      (now : ℕ) (random family_uuid : String) (input : IssueInput) (h : String) (s t : Tables)
      (answer : String × Context)
      → issue hash lifetimes now random family_uuid input s ≡ ok (t, answer)
      → Used h s.tokens
      → Used h t.tokens
  unfolding issue
  issue-Used now random family_uuid input h s t answer e used =
      let context = new_context family_uuid input in
      let k = hash (Str.◌++◌ "orbi_rt_" random) in
      let before : Tables = record s { families = new_family lifetimes now context ∷ s.families } in
      elim (Bool-cases (any (is_family context.family_id) s.families)) [
        | inl taken ↦ absurd (cc (rw (taken, issue) at e))
        | inr free ↦ elim (Result-cases (insert_token lifetimes now k context.family_id before)) [
          | inl (x, bad) ↦ absurd (cc (rw (free, bad, issue) at e))
          | inr (u, good) ↦
              subst (λ (z : Tables). Used h z.tokens)
                (ap (λ p. p.0) (ok-eq (rw (free, good, issue) at e)))
                (insert_token-Used lifetimes now k context.family_id h before good used)
        ]
      ]

  revoke_token-Used :
      (now : ℕ) (reason refresh_token service_code h : String) (s : Tables)
      → Used h s.tokens
      → Used h (revoke_token hash lifetimes now reason refresh_token service_code s).0.tokens
  unfolding revoke_token
  revoke_token-Used now reason refresh_token service_code h s used =
      elim (Option-cases (select_token (hash refresh_token) s)) [
        | inl missing ↦ rw (missing, revoke_token) used
        | inr ((x, f), found) ↦
            rw (found, revoke_token)
              (elim (Bool-cases (f.service_code == service_code)) [
                | inl own ↦
                    rw (own) (revoke_families-Used now reason (is_family f.family_id) h s used)
                | inr other ↦ rw (other) used
              ])
      ]

  Step-Used : {s t : Tables} (h : String) → Step s t → Used h s.tokens → Used h t.tokens
  unfolding record_access_token revoke_by_consent revoke_by_service revoke_by_subject
  Step-Used {s} h (issues now random family_uuid input t answer e) used =
      issue-Used now random family_uuid input h s t answer e used
  Step-Used {s} h (rotates now random refresh_token service_code t r e) used =
      rotate-Used now random refresh_token service_code h s t r e used
  Step-Used {s} h (revokes_token now reason refresh_token service_code) used =
      revoke_token-Used now reason refresh_token service_code h s used
  Step-Used h (records now family_id claims) used = used
  Step-Used {s} h (revokes_consent now reason consent_id) used =
      revoke_families-Used now reason _ h s used
  Step-Used {s} h (revokes_service now reason service_code) used =
      revoke_families-Used now reason _ h s used
  Step-Used {s} h (revokes_subject now reason f) used = revoke_families-Used now reason _ h s used

  pub Reach-Used : {s t : Tables} (h : String) → Reach s t → Used h s.tokens → Used h t.tokens
  Reach-Used h here used = used
  Reach-Used h (next reach step) used = Step-Used h step (Reach-Used h reach used)
