-- ===== src/PortalAccess/Sessions/SignIns.antt =====
-- services/portalAccessStore.ts: recovery codes over sign-ins, step-ups and logouts.
use orbi_pay_gateway_v.Prelude.{
  ℕ, ◌≡◌, Bool, true, false, not, ◌&&◌, String, Option, none, some, Result, ok, err, if◌then◌else◌,
}
use orbi_pay_gateway_v.Prelude.Text.{is_empty}
use orbi_pay_gateway_v.Prelude.Json.{Json}
use orbi_pay_gateway_v.PortalAccess.{
  Error, normalize_recovery_code, consume_recovery_code, verify_totp, match_totp,
  record_mfa_failure, clear_mfa_failures, find_account, is_locked, portal_mfa_required_for,
}
use orbi_pay_gateway_v.PortalAccess.Data.{
  Account, Claims, State, Config, LoginInput, is_active, developer,
}
use orbi_pay_gateway_v.PortalAccess.Sessions.{
  check_factor, pass_factor, then_session, sign_in, login, step_up, step_up_mfa, logout,
  issue_session, end_session, require_session, verify_session_token, verify_password,
}
use orbi_pay_gateway_v.PortalAccess.Codes.{
  IsSpent, used_hash, consume_keeps, consume_spends, spent_refuses,
}

module _ (user_id hash : String) where
  abbrev StaysSpent {ℓ} : {A : Type ℓ} → State × A → Type 0
  StaysSpent x = IsSpent user_id hash (x.0).recovery_codes

  if_keeps {ℓ} :
      {A : Type ℓ} (b : Bool) (x y : State × A)
      → StaysSpent x
      → StaysSpent y
      → StaysSpent (if b then x else y)
  if_keeps true x y p q = p
  if_keeps false x y p q = q

  option_keeps {ℓ} :
      {A B : Type ℓ} (o : Option B) (x : State × A) (f : B → State × A)
      → StaysSpent {A = A} x
      → ((b : B) → StaysSpent (f b))
      → StaysSpent {A = A} (elim o [ none ↦ x | some b ↦ f b ])
  option_keeps none x f p q = p
  option_keeps (some b) x f p q = q b

  result_keeps {ℓ} :
      {A E B : Type ℓ} (o : Result E B) (x : E → State × A) (f : B → State × A)
      → ((e : E) → StaysSpent (x e))
      → ((b : B) → StaysSpent (f b))
      → StaysSpent {A = A} (elim o [ err e ↦ x e | ok b ↦ f b ])
  result_keeps (err e) x f p q = p e
  result_keeps (ok b) x f p q = q b

  module _ (hmac : String → String) (decode : String → Option Claims)
      (pbkdf2 : String → String → ℕ → String) (totp_at : String → ℕ → String)
      (unseal : Json → String) (recovery_hmac : String → String) where
    verify_totp_keeps :
        (now : ℕ) (a : Account) (entered : String) (s : State)
        → IsSpent user_id hash s.recovery_codes
        → StaysSpent (verify_totp totp_at unseal now a entered s)
    unfolding verify_totp
    verify_totp_keeps now a entered s spent =
        option_keeps (match_totp totp_at unseal now a entered true) _ _ spent (λ counter. spent)

    check_factor_keeps :
        (now : ℕ) (input : LoginInput) (a : Account) (s : State)
        → IsSpent user_id hash s.recovery_codes
        → StaysSpent (check_factor hmac decode pbkdf2 totp_at unseal recovery_hmac now input a s)
    unfolding check_factor
    check_factor_keeps now input a s spent =
        if_keeps (is_empty (normalize_recovery_code input.recovery_code)) _ _
          (verify_totp_keeps now a input.otp s spent)
          (consume_keeps recovery_hmac user_id hash now a input.recovery_code s spent)

    pass_factor_keeps :
        (config : Config) (now : ℕ) (input : LoginInput) (a : Account) (s : State)
        → IsSpent user_id hash s.recovery_codes
        → StaysSpent
            (pass_factor hmac decode pbkdf2 totp_at unseal recovery_hmac config now input a s)
    unfolding pass_factor clear_mfa_failures record_mfa_failure
    pass_factor_keeps config now input a s spent =
        let checked = check_factor_keeps now input a s spent in
        if_keeps (is_locked now a) _ _ spent (
          if_keeps ((check_factor hmac decode pbkdf2 totp_at unseal recovery_hmac now input a s).1)
            _ _ checked checked)

    then_session_keeps :
        (config : Config) (now : ℕ) (uuid : String) (a : Account)
        (passed : State × Result Error (Unit {0}))
        → StaysSpent passed
        → StaysSpent
            (then_session hmac decode pbkdf2 totp_at unseal recovery_hmac config now uuid a passed)
    unfolding issue_session
    then_session_keeps config now uuid a (s, err e) spent = spent
    then_session_keeps config now uuid a (s, ok done) spent = spent

    sign_in_keeps :
        (config : Config) (now : ℕ) (uuid : String) (input : LoginInput) (a : Account) (s : State)
        → IsSpent user_id hash s.recovery_codes
        → StaysSpent
            (sign_in hmac decode pbkdf2 totp_at unseal recovery_hmac config now uuid input a s)
    unfolding sign_in issue_session
    sign_in_keeps config now uuid input a s spent =
        if_keeps (elim a.email_verified_at [ none ↦ true | some t ↦ false ]) _ _ spent
          (if_keeps (portal_mfa_required_for config a && is_active a.mfa_status) _ _
            (then_session_keeps config now uuid a
              (pass_factor hmac decode pbkdf2 totp_at unseal recovery_hmac config now input a s)
              (pass_factor_keeps config now input a s spent))
            spent)

    login_keeps :
        (config : Config) (now : ℕ) (uuid : String) (input : LoginInput) (s : State)
        → IsSpent user_id hash s.recovery_codes
        → StaysSpent (login hmac decode pbkdf2 totp_at unseal recovery_hmac config now uuid input s)
    unfolding login
    login_keeps config now uuid input s spent =
        option_keeps (find_account input.email s) _ _ spent (λ a.
          if_keeps
            (not (verify_password hmac decode pbkdf2 totp_at unseal recovery_hmac a input.password))
            _ _ spent (sign_in_keeps config now uuid input a s spent))

    step_up_keeps :
        (config : Config) (now : ℕ) (uuid entered : String) (claims : Claims) (a : Account)
        (s : State)
        → IsSpent user_id hash s.recovery_codes
        → StaysSpent (
            step_up hmac decode pbkdf2 totp_at unseal recovery_hmac config now uuid entered claims a
              s)
    unfolding step_up issue_session end_session
    step_up_keeps config now uuid entered claims a s spent =
        let checked = verify_totp_keeps now a entered s spent in
        if_keeps (not (is_active a.mfa_status)) _ _ spent
          (if_keeps ((verify_totp totp_at unseal now a entered s).1) _ _ checked checked)

    step_up_mfa_keeps :
        (config : Config) (now : ℕ) (uuid token entered : String) (s : State)
        → IsSpent user_id hash s.recovery_codes
        → StaysSpent (
            step_up_mfa hmac decode pbkdf2 totp_at unseal recovery_hmac config now uuid token
              entered s)
    unfolding step_up_mfa
    step_up_mfa_keeps config now uuid token entered s spent =
        result_keeps (require_session hmac decode now token developer s) _ _ (λ e. spent)
          (λ claims.
            option_keeps (find_account claims.email s) _ _ spent
              (λ a. step_up_keeps config now uuid entered claims a s spent))

    logout_keeps :
        (now : ℕ) (token : String) (s : State)
        → IsSpent user_id hash s.recovery_codes
        → StaysSpent (logout hmac decode now token s)
    unfolding logout end_session
    logout_keeps now token s spent =
        result_keeps (verify_session_token hmac decode now token s) _ _ (λ e. spent)
          (λ claims. spent)

module _ (hmac : String → String) (decode : String → Option Claims)
    (pbkdf2 : String → String → ℕ → String) (totp_at : String → ℕ → String) (unseal : Json → String)
    (recovery_hmac : String → String) where
  pub data Step (s : State) : State → Type 0 where
    signs_in :
        (config : Config) (now : ℕ) (uuid : String) (input : LoginInput)
        → Step s ((login hmac decode pbkdf2 totp_at unseal recovery_hmac config now uuid input s).0)
    steps_up :
        (config : Config) (now : ℕ) (uuid token entered : String)
        → Step s (
            (step_up_mfa hmac decode pbkdf2 totp_at unseal recovery_hmac config now uuid token
              entered s).0)
    logs_out : (now : ℕ) (token : String) → Step s ((logout hmac decode now token s).0)

  -- Later states.
  pub data Reach (s : State) : State → Type 0 where
    here : Reach s s
    next : {t u : State} → Reach s t → Step t u → Reach s u

  Step-keeps :
      (user_id hash : String) {s t : State}
      → Step s t
      → IsSpent user_id hash s.recovery_codes
      → IsSpent user_id hash t.recovery_codes
  Step-keeps user_id hash {s} (signs_in config now uuid input) spent =
      login_keeps user_id hash hmac decode pbkdf2 totp_at unseal recovery_hmac config now uuid input
        s spent
  Step-keeps user_id hash {s} (steps_up config now uuid token entered) spent =
      step_up_mfa_keeps user_id hash hmac decode pbkdf2 totp_at unseal recovery_hmac config now uuid
        token entered s spent
  Step-keeps user_id hash {s} (logs_out now token) spent =
      logout_keeps user_id hash hmac decode pbkdf2 totp_at unseal recovery_hmac now token s spent

  Reach-keeps :
      (user_id hash : String) {s t : State}
      → Reach s t
      → IsSpent user_id hash s.recovery_codes
      → IsSpent user_id hash t.recovery_codes
  Reach-keeps user_id hash here spent = spent
  Reach-keeps user_id hash (next r st) spent =
      Step-keeps user_id hash st (Reach-keeps user_id hash r spent)

  -- A recovery code that was accepted is refused in every state that sign-ins, step-ups and logouts
  -- reach afterwards, for an account of the same user and for every spelling of the code with the
  -- same letters and digits.
  pub consume_recovery_code_once :
      (now later : ℕ) (a b : Account) (entered again : String) (s : State) {t : State}
      → (consume_recovery_code recovery_hmac now a entered s).1 ≡ true
      → Reach ((consume_recovery_code recovery_hmac now a entered s).0) t
      → b.user_id ≡ a.user_id
      → normalize_recovery_code again ≡ normalize_recovery_code entered
      → (consume_recovery_code recovery_hmac later b again t).1 ≡ false
  consume_recovery_code_once now later a b entered again s {t} done reached same_user same_code =
      let spent =
        Reach-keeps a.user_id (used_hash recovery_hmac a entered) reached
          (consume_spends recovery_hmac now a entered s done) in
      spent_refuses recovery_hmac later b again t (rw (same_user, same_code) spent)
