-- ===== src/PortalAccess/Tests.antt =====
-- Sign-ins of one account, with a hash that is the text itself.
use orbi_pay_gateway_v.PortalAccess.Sessions.{issue_session}
use orbi_pay_gateway_v.Prelude.Text.{to_lower}
use orbi_pay_gateway_v.Sql.{update_where}
use orbi_pay_gateway_v.Prelude.Text.{truthy}
use orbi_pay_gateway_v.Prelude.{find}
use orbi_pay_gateway_v.Prelude.Text.{length16}
use orbi_pay_gateway_v.Prelude.Text.{trim}
use orbi_pay_gateway_v.Prelude.Text.{to_upper}
use orbi_pay_gateway_v.Prelude.{
  ℕ, ◌≡◌, ◌≢◌, In, ◌<◌, refl, true, false, String, Option, none, some, [], ◌∷◌, inl, if◌then◌else◌,
  nat_eq,
}
use orbi_pay_gateway_v.Prelude.Json.{Json, null}
use orbi_pay_gateway_v.PortalAccess.{
  find_account, portal_mfa_required_for, consume_recovery_code, normalize_recovery_code,
  verify_totp,
}
use orbi_pay_gateway_v.PortalAccess.Data.{
  Account, RecoveryCode, Claims, State, Config, LoginInput, developer, active, is_active,
}
use orbi_pay_gateway_v.PortalAccess.Sessions.{login, new_claims}
use orbi_pay_gateway_v.PortalAccess.Sessions.Passed.{login_passed, IsAccepted}
use orbi_pay_gateway_v.PortalAccess.Factors.{NeedsFactor, IsUnlocked}
use orbi_pay_gateway_v.PortalAccess.Sessions.SignIns.{
  here, next, signs_in, consume_recovery_code_once,
}
use orbi_pay_gateway_v.PortalAccess.Counters.{verify_totp_increasing}

abbrev same : String → String
same x = x

abbrev unread : String → Option Claims
unread x = none

abbrev derived : String → String → ℕ → String
derived password salt n = password

abbrev digits : String → ℕ → String
digits secret counter =
    if nat_eq counter 9 then "123456" else if nat_eq counter 10 then "654321" else "000000"

abbrev opened : Json → String
opened envelope = "secret"

abbrev account : Account
account = record {
  user_id = "u";
  email = "amina@example.com";
  name = "Amina";
  role = developer;
  permissions = [];
  live_access = false;
  service_codes = [];
  password_salt = "salt";
  password_hash = "password";
  password_iterations = 210000;
  totp_secret = none;
  totp_secret_encrypted = some null;
  mfa_status = active;
  last_totp_counter = some 8;
  mfa_failed_attempts = 0;
  mfa_locked_until = none;
  email_verified_at = some 1;
  mfa_required = true;
  enabled = true;
}

abbrev code : RecoveryCode
code = record { user_id = "u"; code_hash = "u:ORBI0123456789ABCDEF"; used_at = none }

abbrev start : State
start = record {
  users = account ∷ [];
  recovery_codes = code ∷ [];
  sessions = [];
  active_sessions = [];
}

abbrev config : Config
config = record {
  operator_mfa_required = true;
  session_ttl_seconds = 3600;
  mfa_freshness_seconds = 300;
  mfa_max_failed_attempts = 5;
  mfa_lockout_seconds = 900;
}

abbrev input : LoginInput
input = record {
  email = "amina@example.com";
  password = "password";
  otp = "123456";
  recovery_code = "";
}

abbrev used : State
used = (consume_recovery_code same 1000 account "ORBI-0123-4567-89AB-CDEF" start).0

consume_recovery_code_once_example :
    (consume_recovery_code same 400000 account "orbi0123456789abcdef"
      (login same unread derived digits opened same config 300000 "uuid" input used).0).1
    ≡ false
unfolding consume_recovery_code to_upper trim length16 find
consume_recovery_code_once_example =
    consume_recovery_code_once same unread derived digits opened same 1000 400000 account account
      "ORBI-0123-4567-89AB-CDEF" "orbi0123456789abcdef" start refl
      (next here (signs_in config 300000 "uuid" input)) refl refl

verify_totp_increasing_example : 9 < 10
unfolding verify_totp truthy length16 trim update_where
verify_totp_increasing_example =
    verify_totp_increasing digits opened 300000 310000 account
      (record account { last_totp_counter = some 9 }) "123456" "654321" start refl (inl refl) refl
      refl

login_passed_example :
    (a : Account) × In a start.users
    × (a.enabled ≡ true)
    × (to_lower a.email ≡ to_lower (to_lower (trim "amina@example.com")))
    × (a.password_hash ≡ "password")
    × (a.email_verified_at ≢ none)
    × (true ≡ true
        → NeedsFactor config a
        → (is_active a.mfa_status ≡ true)
          × IsUnlocked 300000 a
          × IsAccepted same unread derived digits opened same 300000 input a start)
unfolding login find_account to_lower trim find portal_mfa_required_for normalize_recovery_code
    to_upper verify_totp truthy length16 new_claims issue_session
login_passed_example =
    login_passed same unread derived digits opened same config 300000 "uuid" input start
      {claims = new_claims config 300 "portal_session_uuid" true account} refl
