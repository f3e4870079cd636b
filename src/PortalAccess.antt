-- ===== src/PortalAccess.antt =====
-- services/portalAccessStore.ts: signing in to the portal with a second factor. `totp_at` gives the
-- six digits of a base32 secret at a counter (totpAtCounter), `hmac` is the hexadecimal HMAC under
-- the portal's secret that recovery codes are looked up by, and `unseal` opens a stored secret, which
-- the vault of SecretVault sealed. The audit trail and the mails are left out.
pub mod Data
pub mod Sessions
pub mod Codes
pub mod Counters
pub mod Factors
mod Tests
use Prim.Native.String as Str
use Prim.Native.String.{[], ◌∷◌}
use Prim.Native.Char.{code}
use orbi_pay_gateway_v.Prelude.{
  ℕ, zero, suc, ◌+◌, ◌-◌, ◌*◌, ◌/◌, max, Bool, true, false, not, ◌&&◌, ◌||◌, ◌==◌, ltb, leb, nat_eq,
  String, Option, none, some, List, [], ◌∷◌, ◌++◌, map, filter, find, unique, includes,
  if◌then◌else◌, Result, ok, err, ◌>>=◌, ◌>>◌, throw_if, add, length,
}
use orbi_pay_gateway_v.Prelude.Text.{trim, to_lower, to_upper, length16, is_empty, truthy}
use orbi_pay_gateway_v.Prelude.Json.{Json}
use orbi_pay_gateway_v.Sql.{update_where}
use orbi_pay_gateway_v.PortalAccess.Data.{
  Role, developer, operator, admin, role_order, MfaStatus, is_active, Account, RecoveryCode,
  Session, Claims, State, Config, LoginInput,
}

pub data Error : Type 0 where
  invalid_credentials email_verification_required mfa_temporarily_locked invalid_mfa_code
        sign_in_again forbidden mfa_needed fresh_mfa_needed no_active_mfa :
      Error

abbrev pub has_user : String → Account → Bool
has_user user_id a = a.user_id == user_id

unfoldable pub normalize_email : String → String
normalize_email email = to_lower (trim email)

-- `where lower(email) = lower($1) and enabled = true limit 1`
unfoldable pub find_account : String → State → Option Account
unfolding normalize_email
find_account email s =
    let normalized = normalize_email email in
    if normalized == ""
    then none
    else find (λ (a : Account). to_lower a.email == to_lower normalized && a.enabled) s.users

pub update_user : String → (Account → Account) → State → State
update_user user_id change s = record s { users = update_where (has_user user_id) change s.users }

all_digits : String → Bool
all_digits [] = true
all_digits (c ∷ s) = leb 48 (code c) && leb (code c) 57 && all_digits s

-- `/^\d{6}$/`
pub is_six_digits : String → Bool
unfolding all_digits
is_six_digits s = nat_eq (length16 s) 6 && all_digits s

abbrev pub is_replayed : Option ℕ → ℕ → Bool
is_replayed none counter = false
is_replayed (some last) counter = leb counter last

-- A counter of the code among the candidates; the first that fits decides.
pub match_counters : (ℕ → String) → String → Bool → Option ℕ → List ℕ → Option ℕ
match_counters totp clean rejects last [] = none
match_counters totp clean rejects last (counter ∷ counters) =
    let rest = match_counters totp clean rejects last counters in
    if not (totp counter == clean)
    then rest
    else if rejects && is_replayed last counter
    then none
    else some counter

-- The counters before, at and after the time; `counter` is positive at every time since 1970.
abbrev pub candidates : ℕ → List ℕ
candidates counter = (counter - 1) ∷ counter ∷ (counter + 1) ∷ []

-- Upper-case letters and digits.
keep_code_chars : String → String
keep_code_chars [] = []
keep_code_chars (c ∷ s) =
    let rest = keep_code_chars s in
    if (leb 65 (code c) && leb (code c) 90) || (leb 48 (code c) && leb (code c) 57)
    then c ∷ rest
    else rest

pub normalize_recovery_code : String → String
unfolding keep_code_chars
normalize_recovery_code value = keep_code_chars (to_upper (trim value))

all_hexadecimal : String → Bool
all_hexadecimal [] = true
all_hexadecimal (c ∷ s) =
    ((leb 65 (code c) && leb (code c) 70) || (leb 48 (code c) && leb (code c) 57))
    && all_hexadecimal s

-- `/^ORBI[A-F0-9]{16}$/`
pub is_recovery_code : String → Bool
unfolding all_hexadecimal
is_recovery_code (a ∷ b ∷ c ∷ d ∷ rest) =
    (Str.◌∷◌ a (Str.◌∷◌ b (Str.◌∷◌ c (Str.◌∷◌ d ""))) == "ORBI")
    && nat_eq (length16 rest) 16
    && all_hexadecimal rest
is_recovery_code _ = false

abbrev pub is_unused_code : String → String → RecoveryCode → Bool
is_unused_code user_id hash r =
    r.user_id == user_id && r.code_hash == hash && (elim r.used_at [ none ↦ true | some t ↦ false ])

-- The lock after one more failed attempt.
pub failed_account : Config → ℕ → Account → Account
failed_account config now a = record a {
  mfa_failed_attempts = a.mfa_failed_attempts + 1;
  mfa_locked_until =
      if leb (max 3 config.mfa_max_failed_attempts) (a.mfa_failed_attempts + 1)
      then some (now + max 60 config.mfa_lockout_seconds * 1000)
      else a.mfa_locked_until;
}

unfoldable pub record_mfa_failure : Config → ℕ → Account → State → State × Option ℕ
unfolding failed_account update_user
record_mfa_failure config now account s =
    let stored = update_user account.user_id (failed_account config now) s in
    (
      stored,
      elim (find (has_user account.user_id) stored.users) [
        | none ↦ none
        | some a ↦ a.mfa_locked_until
      ],
    )

unfoldable pub clear_mfa_failures : Account → State → State
unfolding update_user
clear_mfa_failures account s =
    update_user account.user_id (λ a. record a { mfa_failed_attempts = 0; mfa_locked_until = none })
      s

unfoldable pub portal_mfa_required_for : Config → Account → Bool
portal_mfa_required_for config a =
    a.mfa_required
    || (config.operator_mfa_required && leb (role_order operator) (role_order a.role))

abbrev is_locked : ℕ → Account → Bool
is_locked now a = elim a.mfa_locked_until [ none ↦ false | some t ↦ ltb now t ]

module _ (totp_at : String → ℕ → String) (unseal : Json → String) where
  pub totp_secret_for : Account → Option String
  totp_secret_for a = elim a.totp_secret_encrypted [
    | none ↦ truthy a.totp_secret
    | some sealed ↦ truthy (some (unseal sealed))
  ]

  -- The counter at which the code of the account fits.
  pub match_totp : ℕ → Account → String → Bool → Option ℕ
  unfolding totp_secret_for match_counters is_six_digits
  match_totp now account entered rejects_replay = elim (totp_secret_for account) [
    | none ↦ none
    | some secret ↦
        let clean = trim entered in
        if not (is_six_digits clean)
        then none
        else match_counters (totp_at secret) clean rejects_replay account.last_totp_counter
            (candidates (now / 30000))
  ]

  -- The account was read before; the counter is written without another look.
  pub verify_totp : ℕ → Account → String → State → State × Bool
  unfolding match_totp update_user
  verify_totp now account entered s = elim (match_totp now account entered true) [
    | none ↦ (s, false)
    | some counter ↦
        (update_user account.user_id (λ a. record a { last_totp_counter = some counter }) s, true)
  ]

module _ (hmac : String → String) where
  pub recovery_code_hash : String → String → String
  unfolding normalize_recovery_code
  recovery_code_hash user_id entered =
      hmac (Str.◌++◌ user_id (Str.◌++◌ ":" (normalize_recovery_code entered)))

  -- `update … set used_at = now() where … used_at is null returning code_id`
  pub consume_recovery_code : ℕ → Account → String → State → State × Bool
  unfolding recovery_code_hash is_recovery_code
  consume_recovery_code now account entered s =
      let clean = normalize_recovery_code entered in
      let hash = recovery_code_hash account.user_id clean in
      if not (is_recovery_code clean) || account.user_id == ""
      then (s, false)
      else elim (find (is_unused_code account.user_id hash) s.recovery_codes) [
        | none ↦ (s, false)
        | some r ↦ (
          record s {
            recovery_codes =
                update_where (is_unused_code account.user_id hash)
                  (λ q. record q { used_at = some now }) s.recovery_codes;
          },
          true,
        )
      ]

  -- The old codes go, the new ones come.
  pub replace_recovery_codes : String → List String → State → State
  unfolding recovery_code_hash
  replace_recovery_codes user_id codes s = record s {
    recovery_codes =
        filter (λ (r : RecoveryCode). not (r.user_id == user_id)) s.recovery_codes
        ++ map
            (λ c. record {
              user_id = user_id;
              code_hash = recovery_code_hash user_id c;
              used_at = none;
            })
            codes;
  }
