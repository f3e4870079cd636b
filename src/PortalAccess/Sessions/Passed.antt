-- ===== src/PortalAccess/Sessions/Passed.antt =====
-- services/portalAccessStore.ts: what a sign-in that gives a session has checked.
use orbi_pay_gateway_v.Prelude.{
  ℕ, ◌≡◌, ◌≢◌, refl, sym, ap, ◌∙◌, Bool, true, false, not, ◌&&◌, String, Option, none, some, Result,
  ok, err, ok-eq, if◌then◌else◌, In, ◌⊎◌, inl, inr, Bool-cases, eq_iff, nat_eq,
}
use orbi_pay_gateway_v.Prelude.Text.{trim, to_lower, is_empty}
use orbi_pay_gateway_v.Prelude.Json.{Json}
use orbi_pay_gateway_v.PortalAccess.Factors.{
  find_account-In, NeedsFactor, NeedsFactor-required, IsUnlocked, is_locked-IsUnlocked, IsTotp,
  verify_totp-IsTotp, IsUnusedCode, consume-IsUnusedCode,
}
use orbi_pay_gateway_v.PortalAccess.{
  Error, email_verification_required, invalid_credentials, mfa_temporarily_locked,
  record_mfa_failure, clear_mfa_failures, find_account, is_locked, portal_mfa_required_for,
  normalize_recovery_code,
}
use orbi_pay_gateway_v.PortalAccess.Data.{Account, Claims, State, Config, LoginInput, is_active}
use orbi_pay_gateway_v.PortalAccess.Sessions.{
  check_factor, pass_factor, then_session, sign_in, login, issue_session, verify_password, refusal,
}

abbrev answer :
    Bool → Bool → State → State → State → Error → Error → State × Result Error (Unit {0})
answer locked accepted s t u e f =
    if locked then (s, err e) else if accepted then (t, ok tt) else (u, err f)

factor_passed :
    (locked accepted : Bool) (s t u : State) (e f : Error)
    → (answer locked accepted s t u e f).1 ≡ ok tt
    → (locked ≡ false) × (accepted ≡ true)
factor_passed true accepted s t u e f h = absurd (cc h)
factor_passed false true s t u e f h = (refl, refl)
factor_passed false false s t u e f h = absurd (cc h)

by_tests :
    {Q R : Type 0} (email : Option ℕ) (required active : Bool) (s : State)
    (passed issued : State × Result Error Claims) (e : Error) {claims : Claims}
    → (passed.1 ≡ ok claims → Q × R)
    → (issued.1 ≡ ok claims → claims.mfa_verified ≡ not required)
    → (if (elim email [ none ↦ true | some t ↦ false ])
        then (s, err e)
        else if required && active
        then passed
        else issued).1
      ≡ ok claims
    → (email ≢ none) × (claims.mfa_verified ≡ true → required ≡ true → (active ≡ true) × Q × R)
by_tests none required active s passed issued e p i h = absurd (cc h)
by_tests (some t) true true s passed issued e p i h = (λ n. cc n, λ v r. (refl, (p h).0, (p h).1))
by_tests (some t) true false s passed issued e p i h =
    (λ n. cc n, λ v r. absurd (cc (sym (i h) ∙ v)))
by_tests (some t) false active s passed issued e p i h = (λ n. cc n, λ v r. absurd (cc r))

tested :
    (b : Bool) (s : State) (x : State × Result Error Claims) (e : Error) {claims : Claims}
    → (if not b then (s, err e) else x).1 ≡ ok claims
    → (b ≡ true) × (x.1 ≡ ok claims)
tested true s x e h = (refl, h)
tested false s x e h = absurd (cc h)

abbrev by_account :
    Option Account
    → (Account → Bool)
    → State
    → (Account → State × Result Error Claims)
    → Error
    → State × Result Error Claims
by_account found fits s f e = elim found [
  | none ↦ (s, err e)
  | some a ↦ if not (fits a) then (s, err e) else f a
]

looked_up :
    (found : Option Account) (fits : Account → Bool) (s : State)
    (f : Account → State × Result Error Claims) (e : Error) {claims : Claims}
    → (by_account found fits s f e).1 ≡ ok claims
    → (a : Account) × (found ≡ some a) × (fits a ≡ true) × ((f a).1 ≡ ok claims)
looked_up none fits s f e h = absurd (cc h)
looked_up (some a) fits s f e h = let (b, k) = tested (fits a) s (f a) e h in (a, refl, b, k)

module _ (hmac : String → String) (decode : String → Option Claims)
    (pbkdf2 : String → String → ℕ → String) (totp_at : String → ℕ → String) (unseal : Json → String)
    (recovery_hmac : String → String) where
  pass_factor_ok :
      (config : Config) (now : ℕ) (input : LoginInput) (a : Account) (s : State)
      → (pass_factor hmac decode pbkdf2 totp_at unseal recovery_hmac config now input a s).1 ≡ ok tt
      → (is_locked now a ≡ false)
        × ((check_factor hmac decode pbkdf2 totp_at unseal recovery_hmac now input a s).1 ≡ true)
  unfolding pass_factor
  pass_factor_ok config now input a s h =
      let checked = check_factor hmac decode pbkdf2 totp_at unseal recovery_hmac now input a s in
      let failed = record_mfa_failure config now a checked.0 in
      factor_passed (is_locked now a) checked.1 s (clear_mfa_failures a checked.0) failed.0
        mfa_temporarily_locked (refusal hmac decode pbkdf2 totp_at unseal recovery_hmac failed.1) h

  then_session_ok :
      (config : Config) (now : ℕ) (uuid : String) (a : Account)
      (passed : State × Result Error (Unit {0})) {claims : Claims}
      → (then_session hmac decode pbkdf2 totp_at unseal recovery_hmac config now uuid a passed).1
        ≡ ok claims
      → passed.1 ≡ ok tt
  then_session_ok config now uuid a (s, err e) h = absurd (cc h)
  then_session_ok config now uuid a (s, ok done) h = refl

  sign_in_passed :
      (config : Config) (now : ℕ) (uuid : String) (input : LoginInput) (a : Account) (s : State)
      {claims : Claims}
      → (sign_in hmac decode pbkdf2 totp_at unseal recovery_hmac config now uuid input a s).1
        ≡ ok claims
      → (a.email_verified_at ≢ none)
        × (claims.mfa_verified ≡ true
            → portal_mfa_required_for config a ≡ true
            → (is_active a.mfa_status ≡ true)
              × (is_locked now a ≡ false)
              × ((check_factor hmac decode pbkdf2 totp_at unseal recovery_hmac now input a s).1
                  ≡ true))
  unfolding sign_in issue_session
  sign_in_passed config now uuid input a s h =
      let passed =
        pass_factor hmac decode pbkdf2 totp_at unseal recovery_hmac config now input a s in
      let issued = issue_session config now uuid a (not (portal_mfa_required_for config a)) s in
      by_tests a.email_verified_at (portal_mfa_required_for config a) (is_active a.mfa_status) s
        (then_session hmac decode pbkdf2 totp_at unseal recovery_hmac config now uuid a passed)
        (issued.0, ok issued.1) email_verification_required
        (λ k. pass_factor_ok config now input a s (then_session_ok config now uuid a passed k))
        (λ k. ap (λ (c : Claims). c.mfa_verified) (sym (ok-eq k))) h

  -- The second factor that the sign-in was given: a recovery code, if its text has letters or digits,
  -- and a one-time code otherwise.
  abbrev pub IsAccepted : ℕ → LoginInput → Account → State → Type 0
  IsAccepted now input a s =
      ((is_empty (normalize_recovery_code input.recovery_code) ≡ true)
        × IsTotp totp_at unseal now a input.otp)
      ⊎ ((is_empty (normalize_recovery_code input.recovery_code) ≡ false)
          × IsUnusedCode recovery_hmac a input.recovery_code s)

  check_factor-IsAccepted :
      (now : ℕ) (input : LoginInput) (a : Account) (s : State)
      → (check_factor hmac decode pbkdf2 totp_at unseal recovery_hmac now input a s).1 ≡ true
      → IsAccepted now input a s
  unfolding check_factor
  check_factor-IsAccepted now input a s h =
      elim (Bool-cases (is_empty (normalize_recovery_code input.recovery_code))) [
        | inl e ↦
            inl (e, verify_totp-IsTotp totp_at unseal now a input.otp s (rw (e, check_factor) at h))
        | inr e ↦ inr (
          e,
          consume-IsUnusedCode recovery_hmac now a input.recovery_code s
              (rw (e, check_factor) at h),
        )
      ]

  -- A sign-in that gives a session found a stored account that is enabled, whose address in small
  -- letters is the entered one, trimmed and in small letters, whose stored hash is that of the entered password under the account's
  -- salt and iterations (210000 if these are 0), and whose address is verified. Let the session's claims
  -- say that a second factor was passed, and let the account need one: it is marked so, or it is no
  -- developer's and the configuration asks it of operators. Then its second factor is active and it is
  -- not locked at that time. And the entered recovery code, if it has a letter or digit, is one of the
  -- user's stored codes that was not used; otherwise the entered one-time code is that of the account's
  -- secret at the counter of the time or one beside it, beyond the last counter that was used.
  pub login_passed :
      (config : Config) (now : ℕ) (uuid : String) (input : LoginInput) (s : State) {claims : Claims}
      → (login hmac decode pbkdf2 totp_at unseal recovery_hmac config now uuid input s).1
        ≡ ok claims
      → (a : Account) × In a s.users
        × (a.enabled ≡ true)
        × (to_lower a.email ≡ to_lower (to_lower (trim input.email)))
        × (a.password_hash
            ≡ pbkdf2 input.password a.password_salt
                (if nat_eq a.password_iterations 0 then 210000 else a.password_iterations))
        × (a.email_verified_at ≢ none)
        × (claims.mfa_verified ≡ true
            → NeedsFactor config a
            → (is_active a.mfa_status ≡ true) × IsUnlocked now a × IsAccepted now input a s)
  unfolding login verify_password
  login_passed config now uuid input s h =
      let (a, found, fits, k) =
        looked_up (find_account input.email s)
          (λ a. verify_password hmac decode pbkdf2 totp_at unseal recovery_hmac a input.password) s
          (λ a. sign_in hmac decode pbkdf2 totp_at unseal recovery_hmac config now uuid input a s)
          invalid_credentials h in
      let (verified, factor) = sign_in_passed config now uuid input a s k in
      let (i, named, enabled) = find_account-In input.email s found in
      (
        a,
        i,
        enabled,
        named,
        (eq_iff a.password_hash _).0 fits,
        verified,
        λ said needs.
            let (active, unlocked, checked) = factor said (NeedsFactor-required config a needs) in
            (
              active,
              is_locked-IsUnlocked now a unlocked,
              check_factor-IsAccepted now input a s checked,
            ),
      )
