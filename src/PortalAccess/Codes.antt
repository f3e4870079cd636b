-- ===== src/PortalAccess/Codes.antt =====
-- services/portalAccessStore.ts: recovery codes that were used, over the calls that follow.
use orbi_pay_gateway_v.Prelude.{
  ℕ, ◌≡◌, refl, ap, ◌∙◌, Bool, true, false, String, Option, none, some, List, In, arith, Bool-cases,
  inl, inr, find, find-some, if◌then◌else◌, ◌≢◌,
}
use orbi_pay_gateway_v.Sql.{update_where, In-update_where}
use orbi_pay_gateway_v.PortalAccess.{
  is_unused_code, normalize_recovery_code, recovery_code_hash, consume_recovery_code,
}
use orbi_pay_gateway_v.PortalAccess.Data.{Account, RecoveryCode, State}

-- No unused code of the user has the hash.
pub IsSpent : String → String → List RecoveryCode → Type 0
IsSpent user_id hash codes = (r : RecoveryCode) → In r codes → is_unused_code user_id hash r ≡ false

spend : ℕ → RecoveryCode → RecoveryCode
spend now q = record q { used_at = some now }

spend-IsSpent :
    (user_id hash : String) (now : ℕ) (r : RecoveryCode)
    → is_unused_code user_id hash (spend now r) ≡ false
unfolding spend
spend-IsSpent user_id hash now r = ground arith

module _ (user_id hash : String) where
  -- Spending the codes that fit any test keeps what is spent.
  update_keeps :
      (p : RecoveryCode → Bool) (now : ℕ) (codes : List RecoveryCode)
      → IsSpent user_id hash codes
      → IsSpent user_id hash (update_where p (spend now) codes)
  unfolding IsSpent
  update_keeps p now codes spent x i =
      let (r, j, e) = In-update_where p (spend now) codes x i in
      let kept = spent r j in
      let new = spend-IsSpent user_id hash now r in
      elim (Bool-cases (p r)) [
        | inl h ↦ ap (is_unused_code user_id hash) (rw h at e) ∙ new
        | inr h ↦ ap (is_unused_code user_id hash) (rw h at e) ∙ kept
      ]

  update_spends :
      (now : ℕ) (codes : List RecoveryCode)
      → IsSpent user_id hash (update_where (is_unused_code user_id hash) (spend now) codes)
  unfolding IsSpent
  update_spends now codes x i =
      let p = is_unused_code user_id hash in
      let (r, j, e) = In-update_where p (spend now) codes x i in
      let new = spend-IsSpent user_id hash now r in
      elim (Bool-cases (p r)) [ inl h ↦ ap p (rw h at e) ∙ new | inr h ↦ ap p (rw h at e) ∙ h ]

-- The answer of a look for a code, by its two tests.
abbrev outcome : Bool → Option RecoveryCode → State → State → State × Bool
outcome bad found s t =
    if bad then (s, false) else (elim found [ none ↦ (s, false) | some r ↦ (t, true) ])

outcome_keeps :
    (user_id hash : String) (bad : Bool) (found : Option RecoveryCode) (s t : State)
    → IsSpent user_id hash s.recovery_codes
    → IsSpent user_id hash t.recovery_codes
    → IsSpent user_id hash ((outcome bad found s t).0).recovery_codes
outcome_keeps user_id hash true found s t old new = old
outcome_keeps user_id hash false none s t old new = old
outcome_keeps user_id hash false (some r) s t old new = new

outcome_spends :
    (user_id hash : String) (bad : Bool) (found : Option RecoveryCode) (s t : State)
    → (outcome bad found s t).1 ≡ true
    → IsSpent user_id hash t.recovery_codes
    → IsSpent user_id hash ((outcome bad found s t).0).recovery_codes
outcome_spends user_id hash true found s t done new = absurd (cc done)
outcome_spends user_id hash false none s t done new = absurd (cc done)
outcome_spends user_id hash false (some r) s t done new = new

outcome_refuses :
    (bad : Bool) (found : Option RecoveryCode) (s t : State)
    → ((r : RecoveryCode) → found ≢ some r)
    → (outcome bad found s t).1 ≡ false
outcome_refuses true found s t absent = refl
outcome_refuses false none s t absent = refl
outcome_refuses false (some r) s t absent = absurd (absent r refl)

module _ (hmac : String → String) where
  -- The hash that a used code is looked up by.
  abbrev pub used_hash : Account → String → String
  used_hash a entered = recovery_code_hash hmac a.user_id (normalize_recovery_code entered)

  abbrev found : Account → String → State → Option RecoveryCode
  found a entered s = find (is_unused_code a.user_id (used_hash a entered)) s.recovery_codes

  abbrev spent_state : ℕ → Account → String → State → State
  spent_state now a entered s = record s {
    recovery_codes =
        update_where (is_unused_code a.user_id (used_hash a entered)) (spend now) s.recovery_codes;
  }

  pub consume_keeps :
      (user_id hash : String) (now : ℕ) (a : Account) (entered : String) (s : State)
      → IsSpent user_id hash s.recovery_codes
      → IsSpent user_id hash ((consume_recovery_code hmac now a entered s).0).recovery_codes
  unfolding consume_recovery_code spend
  consume_keeps user_id hash now a entered s spent =
      outcome_keeps user_id hash _ (found a entered s) s (spent_state now a entered s) spent (
        update_keeps user_id hash (is_unused_code a.user_id (used_hash a entered)) now
          s.recovery_codes spent)

  pub consume_spends :
      (now : ℕ) (a : Account) (entered : String) (s : State)
      → (consume_recovery_code hmac now a entered s).1 ≡ true
      → IsSpent a.user_id
          (used_hash a entered)
          ((consume_recovery_code hmac now a entered s).0).recovery_codes
  unfolding consume_recovery_code spend
  consume_spends now a entered s done =
      outcome_spends a.user_id (used_hash a entered) _ (found a entered s) s
        (spent_state now a entered s) done
        (update_spends a.user_id (used_hash a entered) now s.recovery_codes)

  pub spent_refuses :
      (now : ℕ) (a : Account) (entered : String) (s : State)
      → IsSpent a.user_id (used_hash a entered) s.recovery_codes
      → (consume_recovery_code hmac now a entered s).1 ≡ false
  unfolding consume_recovery_code IsSpent spend
  spent_refuses now a entered s spent =
      outcome_refuses _ (found a entered s) s (spent_state now a entered s) (λ r e.
        let (fits, i) =
          find-some (is_unused_code a.user_id (used_hash a entered)) s.recovery_codes e in
        let unfit = spent r i in cc)
