-- ===== src/PortalAccess/Sessions.antt =====
-- services/portalAccessStore.ts: sessions, and the calls that need one. `hmac` is the base64url HMAC
-- under the portal's secret, `recovery_hmac` the same in hexadecimal; `decode` reads base64url JSON as
-- claims, `pbkdf2` is Node's password hash.
pub mod Passed
pub mod SignIns
use Prim.Native.String as Str
use Prim.Native.String.{[], ◌∷◌}
use Prim.Native.Char.{code}
use orbi_pay_gateway_v.Prelude.{
  ℕ, zero, suc, ◌+◌, ◌-◌, ◌*◌, ◌/◌, max, Bool, true, false, not, ◌&&◌, ◌||◌, ◌==◌, ltb, leb, nat_eq,
  String, Option, none, some, List, [], ◌∷◌, ◌++◌, map, filter, find, unique, includes, add,
  if◌then◌else◌, Result, ok, err, ◌>>=◌, ◌>>◌, throw_if,
}
use orbi_pay_gateway_v.Prelude.Text.{trim, is_empty}
use orbi_pay_gateway_v.Prelude.Json.{Json}
use orbi_pay_gateway_v.Sql.{update_where}
use orbi_pay_gateway_v.PortalAccess.{
  Error, invalid_credentials, email_verification_required, mfa_temporarily_locked, invalid_mfa_code,
  sign_in_again, forbidden, mfa_needed, fresh_mfa_needed, no_active_mfa, find_account,
  normalize_recovery_code, portal_mfa_required_for, is_locked, verify_totp, consume_recovery_code,
  record_mfa_failure, clear_mfa_failures,
}
use orbi_pay_gateway_v.PortalAccess.Data.{
  Role, developer, operator, admin, role_order, is_active, Account, Session, Claims, State, Config,
  LoginInput,
}

abbrev reader : List String
reader = "developer:request_access" ∷ "developer:read_own" ∷ []

abbrev manager : List String
manager =
    "developer:request_access" ∷ "developer:read_own" ∷ "developer:read_all"
    ∷ "developer:approve_applications" ∷ "developer:manage_scopes" ∷ "developer:manage_services"
    ∷ "developer:manage_keys" ∷ "developer:replay_webhooks" ∷ "developer:manage_sandbox"
    ∷ "operator:manage_incidents" ∷ []

unfoldable pub role_permissions : Role → List String
role_permissions developer = reader
role_permissions operator = manager
role_permissions admin = manager ++ "portal:manage_users" ∷ "portal:read_audit" ∷ []

unfoldable pub permissions_for_account : Account → List String
unfolding role_permissions
permissions_for_account a =
    unique
      (role_permissions a.role ++ unique (filter (λ p. not (p == "")) (map trim a.permissions)))

abbrev text_or : String → String → String
text_or first other = if is_empty first then other else first

unfoldable pub new_claims : Config → ℕ → String → Bool → Account → Claims
unfolding permissions_for_account
new_claims config now sid mfa_verified a = record {
  sid = sid;
  email = a.email;
  name = text_or a.name a.email;
  role = a.role;
  live_access = a.live_access;
  service_codes = a.service_codes;
  permissions = permissions_for_account a;
  mfa_verified = mfa_verified;
  mfa_required = portal_mfa_required_for config a;
  mfa_status = a.mfa_status;
  mfa_at = if mfa_verified then some now else none;
  iat = now;
  exp = now + config.session_ttl_seconds;
}

-- The session's claims, which the token carries; its row and its place among the active ones.
unfoldable pub issue_session : Config → ℕ → String → Account → Bool → State → State × Claims
unfolding new_claims
issue_session config now_ms uuid a mfa_verified s =
    let now = now_ms / 1000 in
    let sid = Str.◌++◌ "portal_session_" uuid in
    let row : Session = record {
      session_id = sid;
      user_id = a.user_id;
      mfa_verified_at = if mfa_verified then some (now * 1000) else none;
      expires_at = (now + config.session_ttl_seconds) * 1000;
      revoked_at = none;
      revoke_reason = none;
    } in
    (
      record s { sessions = row ∷ s.sessions; active_sessions = add sid s.active_sessions },
      new_claims config now sid mfa_verified a,
    )

-- A session leaves the active ones, and its row is revoked unless it was.
pub end_session : ℕ → String → String → State → State
end_session now reason sid s = record s {
  active_sessions = filter (λ other. not (other == sid)) s.active_sessions;
  sessions =
      update_where
        (λ (x : Session).
          x.session_id == sid && (elim x.revoked_at [ none ↦ true | some t ↦ false ]))
        (λ x. record x { revoked_at = some now; revoke_reason = some reason }) s.sessions;
}

-- `split('.')`.
pub split_dots : String → List String
split_dots [] = "" ∷ []
split_dots (c ∷ s) = elim (split_dots s) [
  | [] ↦ Str.◌∷◌ c "" ∷ []
  | part ∷ parts ↦ if nat_eq (code c) 46 then "" ∷ part ∷ parts else Str.◌∷◌ c part ∷ parts
]

module _ (hmac : String → String) (decode : String → Option Claims) where
  pub signed_claims : String → Option Claims
  unfolding split_dots
  signed_claims token = elim (split_dots token) [
    | header ∷ payload ∷ signature ∷ [] ↦
        if hmac (Str.◌++◌ header (Str.◌++◌ "." payload)) == signature then decode payload else none
    | _ ↦ none
  ]

  pub verify_session_token : ℕ → String → State → Result Error Claims
  unfolding signed_claims
  verify_session_token now_ms token s = elim (signed_claims token) [
    | none ↦ err sign_in_again
    | some claims ↦ do
      throw_if (leb claims.exp (now_ms / 1000)) sign_in_again
      throw_if (claims.sid == "" || not (includes claims.sid s.active_sessions)) sign_in_again
      ok claims
  ]

  pub require_session : ℕ → String → Role → State → Result Error Claims
  unfolding verify_session_token
  require_session now_ms token min_role s = do
    claims ← verify_session_token now_ms token s
    throw_if (ltb (role_order claims.role) (role_order min_role)) forbidden
    ok claims

  pub require_permission : ℕ → String → String → Role → State → Result Error Claims
  unfolding require_session
  require_permission now_ms token permission min_role s = do
    claims ← require_session now_ms token min_role s
    throw_if (not (includes permission claims.permissions)) forbidden
    ok claims

  abbrev is_stale : Config → ℕ → Option ℕ → Bool
  is_stale config now none = true
  is_stale config now (some zero) = true
  is_stale config now (some at) = ltb (max 30 config.mfa_freshness_seconds) (now - at)

  pub require_mfa : Config → ℕ → String → Role → State → Result Error Claims
  unfolding require_session
  require_mfa config now_ms token min_role s = do
    claims ← require_session now_ms token min_role s
    throw_if (not claims.mfa_verified) mfa_needed
    throw_if (is_stale config (now_ms / 1000) claims.mfa_at) fresh_mfa_needed
    ok claims

  pub logout : ℕ → String → State → State × Bool
  unfolding verify_session_token end_session
  logout now_ms token s = elim (verify_session_token now_ms token s) [
    | err e ↦ (s, false)
    | ok claims ↦ (end_session now_ms "user_logout" claims.sid s, true)
  ]

  module _ (pbkdf2 : String → String → ℕ → String) (totp_at : String → ℕ → String)
      (unseal : Json → String) (recovery_hmac : String → String) where
    unfoldable pub verify_password : Account → String → Bool
    verify_password a password =
        a.password_hash
        == pbkdf2 password a.password_salt
            (if nat_eq a.password_iterations 0 then 210000 else a.password_iterations)

    unfoldable pub check_factor : ℕ → LoginInput → Account → State → State × Bool
    check_factor now_ms input a s =
        if is_empty (normalize_recovery_code input.recovery_code)
        then verify_totp totp_at unseal now_ms a input.otp s
        else consume_recovery_code recovery_hmac now_ms a input.recovery_code s

    abbrev refusal : Option ℕ → Error
    refusal none = invalid_mfa_code
    refusal (some t) = mfa_temporarily_locked

    -- The second factor of an account that has one.
    unfoldable pub pass_factor :
        Config → ℕ → LoginInput → Account → State → State × Result Error (Unit {0})
    unfolding check_factor
    pass_factor config now_ms input a s =
        if is_locked now_ms a
        then (s, err mfa_temporarily_locked)
        else (let checked = check_factor now_ms input a s in
            let failed = record_mfa_failure config now_ms a checked.0 in
            if checked.1
            then (clear_mfa_failures a checked.0, ok tt)
            else (failed.0, err (refusal failed.1)))

    abbrev then_session :
        Config
        → ℕ
        → String
        → Account
        → State × Result Error (Unit {0})
        → State × Result Error Claims
    then_session config now_ms uuid a (s, err e) = (s, err e)
    then_session config now_ms uuid a (s, ok done) =
        let issued = issue_session config now_ms uuid a true s in (issued.0, ok issued.1)

    -- Of an account whose password fits. One that needs a second factor and has none yet gets a
    -- session without it.
    unfoldable pub sign_in :
        Config → ℕ → String → LoginInput → Account → State → State × Result Error Claims
    unfolding pass_factor
    sign_in config now_ms uuid input a s =
        if (elim a.email_verified_at [ none ↦ true | some t ↦ false ])
        then (s, err email_verification_required)
        else if portal_mfa_required_for config a && is_active a.mfa_status
        then then_session config now_ms uuid a (pass_factor config now_ms input a s)
        else (let issued =
              issue_session config now_ms uuid a (not (portal_mfa_required_for config a)) s in
            (issued.0, ok issued.1))

    unfoldable pub login : Config → ℕ → String → LoginInput → State → State × Result Error Claims
    unfolding verify_password sign_in
    login config now_ms uuid input s = elim (find_account input.email s) [
      | none ↦ (s, err invalid_credentials)
      | some a ↦
          if not (verify_password a input.password)
          then (s, err invalid_credentials)
          else sign_in config now_ms uuid input a s
    ]

    -- The account of a session enters a code.
    pub step_up :
        Config → ℕ → String → String → Claims → Account → State → State × Result Error Claims
    unfolding end_session
    step_up config now_ms uuid entered claims a s =
        let checked = verify_totp totp_at unseal now_ms a entered s in
        let issued =
          issue_session config now_ms uuid a true
            (end_session now_ms "mfa_step_up" claims.sid checked.0) in
        if not (is_active a.mfa_status)
        then (s, err no_active_mfa)
        else if checked.1
        then (issued.0, ok issued.1)
        else (checked.0, err invalid_mfa_code)

    -- A new session that has passed the second factor takes the place of the old one.
    pub step_up_mfa : Config → ℕ → String → String → String → State → State × Result Error Claims
    unfolding require_session step_up
    step_up_mfa config now_ms uuid token entered s =
        elim (require_session now_ms token developer s) [
          | err e ↦ (s, err e)
          | ok claims ↦ elim (find_account claims.email s) [
            | none ↦ (s, err no_active_mfa)
            | some a ↦ step_up config now_ms uuid entered claims a s
          ]
        ]
