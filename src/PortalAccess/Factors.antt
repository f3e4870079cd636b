-- ===== src/PortalAccess/Factors.antt =====
-- services/portalAccessStore.ts: which account a sign-in finds, and which codes are accepted.
use Prim.Native.String as Str
use orbi_pay_gateway_v.Prelude.{
  ℕ, ◌+◌, ◌-◌, ◌/◌, ◌<◌, ◌≤◌, ◌≡◌, ◌≢◌, refl, sym, ap, ◌∙◌, Bool, true, false, not, ◌&&◌, ◌||◌,
  ◌==◌, String, Option, none, some, List, [], ◌∷◌, In, ◌⊎◌, inl, inr, arith, eq_iff, Bool-cases,
  Option-cases, find, find-some, some-eq, leb, if◌then◌else◌,
}
use orbi_pay_gateway_v.Prelude.Text.{trim, to_lower, truthy}
use orbi_pay_gateway_v.Prelude.Json.{Json}
use orbi_pay_gateway_v.PortalAccess.{
  find_account, normalize_recovery_code, recovery_code_hash, consume_recovery_code, is_unused_code,
  is_recovery_code, totp_secret_for, match_totp, verify_totp, match_counters, is_replayed,
  is_six_digits, candidates, is_locked, portal_mfa_required_for,
}
use orbi_pay_gateway_v.PortalAccess.Data.{
  Account, RecoveryCode, State, Config, Role, developer, operator, admin, role_order,
}

-- The stored account of an address, in small letters.
pub find_account-In :
    (email : String) (s : State) {a : Account}
    → find_account email s ≡ some a
    → In a s.users × (to_lower a.email ≡ to_lower (to_lower (trim email))) × (a.enabled ≡ true)
unfolding find_account
find_account-In email s {a} e =
    let normalized = to_lower (trim email) in
    elim (Bool-cases (normalized == "")) [
      | inl blank ↦ absurd (cc (rw (blank, find_account) at e))
      | inr named ↦
          let (fits, i) =
            find-some (λ (a : Account). to_lower a.email == to_lower normalized && a.enabled)
              s.users (rw (named, find_account) at e) in
          (i, ground (arith, eq_iff (to_lower a.email) (to_lower normalized)), ground arith)
    ]

-- The account needs a second factor.
abbrev pub NeedsFactor : Config → Account → Type 0
NeedsFactor config a =
    (a.mfa_required ≡ true) ⊎ ((config.operator_mfa_required ≡ true) × (a.role ≢ developer))

senior : (r : Role) → r ≢ developer → leb (role_order operator) (role_order r) ≡ true
senior developer h = absurd (h refl)
senior operator h = refl
senior admin h = refl

pub NeedsFactor-required :
    (config : Config) (a : Account) → NeedsFactor config a → portal_mfa_required_for config a ≡ true
unfolding portal_mfa_required_for
NeedsFactor-required config a (inl h) = ground arith
NeedsFactor-required config a (inr (h, r)) = let high = senior a.role r in ground arith

-- No lock lies beyond the time.
abbrev pub IsUnlocked : ℕ → Account → Type 0
IsUnlocked now a = (t : ℕ) → a.mfa_locked_until ≡ some t → t ≤ now

pub is_locked-IsUnlocked : (now : ℕ) (a : Account) → is_locked now a ≡ false → IsUnlocked now a
is_locked-IsUnlocked now a h t e = ground arith

truthy-present : (o : Option String) (t : String) → truthy o ≡ some t → o ≡ some t
unfolding truthy
truthy-present none t e = absurd (cc e)
truthy-present (some Str.[]) t e = absurd (cc e)
truthy-present (some (Str.◌∷◌ c s)) t e = e

-- A counter that is found is a candidate, and its code is the entered one.
match_counters-In :
    (totp : ℕ → String) (clean : String) (last : Option ℕ) (counters : List ℕ) {n : ℕ}
    → match_counters totp clean true last counters ≡ some n
    → In n counters × (totp n ≡ clean) × (is_replayed last n ≡ false)
unfolding match_counters
match_counters-In totp clean last [] e = absurd (cc e)
match_counters-In totp clean last (c ∷ cs) {n} e = elim (Bool-cases (totp c == clean)) [
  | inr q ↦
      let (i, same, fresh) = match_counters-In totp clean last cs (rw (q, match_counters) at e) in
      (inr i, same, fresh)
  | inl q ↦ elim (Bool-cases (is_replayed last c)) [
    | inl r ↦ absurd (cc (rw (q, r, match_counters) at e))
    | inr r ↦
        let found = some-eq (rw (q, r, match_counters) at e) in
        (
          inl found,
          ap totp (sym found) ∙ (eq_iff (totp c) clean).0 q,
          ap (is_replayed last) (sym found) ∙ r,
        )
  ]
]

beyond : (last : Option ℕ) (n : ℕ) → is_replayed last n ≡ false → (l : ℕ) → last ≡ some l → l < n
beyond last n h l e = let h' = rw e at h in ground arith

module _ (totp_at : String → ℕ → String) (unseal : Json → String) where
  abbrev pub HasSecret : Account → String → Type 0
  HasSecret a secret = elim a.totp_secret_encrypted [
    | none ↦ a.totp_secret ≡ some secret
    | some sealed ↦ unseal sealed ≡ secret
  ]

  -- The entered text is the code of the account's secret at the counter of the time or one beside it,
  -- beyond the last that was used.
  abbrev pub IsTotp : ℕ → Account → String → Type 0
  IsTotp now a entered =
      (secret : String) × (counter : ℕ) × HasSecret a secret
      × In counter ((now / 30000 - 1) ∷ now / 30000 ∷ (now / 30000 + 1) ∷ [])
      × (totp_at secret counter ≡ trim entered)
      × ((last : ℕ) → a.last_totp_counter ≡ some last → last < counter)

  totp_secret_for-HasSecret :
      (a : Account) (secret : String)
      → totp_secret_for totp_at unseal a ≡ some secret
      → HasSecret a secret
  unfolding totp_secret_for
  totp_secret_for-HasSecret a secret e = elim (Option-cases a.totp_secret_encrypted) [
    | inl n ↦ rw n (truthy-present a.totp_secret secret (rw (n, totp_secret_for) at e))
    | inr (sealed, n) ↦
        rw n (some-eq (truthy-present (some (unseal sealed)) secret (rw (n, totp_secret_for) at e)))
  ]

  looked_up :
      (found : Option String) (six : Bool) (f : String → Option ℕ) {n : ℕ}
      → (elim found [ none ↦ none | some secret ↦ if not six then none else f secret ]) ≡ some n
      → (secret : String) × (found ≡ some secret) × (f secret ≡ some n)
  looked_up none six f e = absurd (cc e)
  looked_up (some secret) false f e = absurd (cc e)
  looked_up (some secret) true f e = (secret, refl, e)

  match_totp-some :
      (now : ℕ) (a : Account) (entered : String) {n : ℕ}
      → match_totp totp_at unseal now a entered true ≡ some n
      → (secret : String) × (totp_secret_for totp_at unseal a ≡ some secret)
        × (match_counters
              (totp_at secret)
              (trim entered)
              true
              a.last_totp_counter
              (candidates (now / 30000))
            ≡ some n)
  unfolding match_totp
  match_totp-some now a entered e =
      looked_up (totp_secret_for totp_at unseal a) (is_six_digits (trim entered))
        (λ secret.
          match_counters (totp_at secret) (trim entered) true a.last_totp_counter
            (candidates (now / 30000)))
        e

  pub verify_totp-IsTotp :
      (now : ℕ) (a : Account) (entered : String) (s : State)
      → (verify_totp totp_at unseal now a entered s).1 ≡ true
      → IsTotp now a entered
  unfolding verify_totp
  verify_totp-IsTotp now a entered s h =
      elim (Option-cases (match_totp totp_at unseal now a entered true)) [
        | inl e ↦ absurd (cc (rw (e, verify_totp) at h))
        | inr (n, e) ↦
            let (secret, held, found) = match_totp-some now a entered e in
            let (i, same, fresh) =
              match_counters-In (totp_at secret) (trim entered) a.last_totp_counter
                (candidates (now / 30000)) found in
            (
              secret,
              n,
              totp_secret_for-HasSecret a secret held,
              i,
              same,
              beyond a.last_totp_counter n fresh,
            )
      ]

module _ (hmac : String → String) where
  -- The entered text is a recovery code of the account's user that was not used.
  abbrev pub IsUnusedCode : Account → String → State → Type 0
  IsUnusedCode a entered s =
      (r : RecoveryCode) × In r s.recovery_codes
      × (r.user_id ≡ a.user_id)
      × (r.code_hash
          ≡ hmac (
              Str.◌++◌ a.user_id
                (Str.◌++◌ ":" (normalize_recovery_code (normalize_recovery_code entered)))))
      × (r.used_at ≡ none)

  pub consume-IsUnusedCode :
      (now : ℕ) (a : Account) (entered : String) (s : State)
      → (consume_recovery_code hmac now a entered s).1 ≡ true
      → IsUnusedCode a entered s
  unfolding consume_recovery_code recovery_code_hash
  consume-IsUnusedCode now a entered s h =
      let hash = recovery_code_hash hmac a.user_id (normalize_recovery_code entered) in
      let bad = not (is_recovery_code (normalize_recovery_code entered)) || a.user_id == "" in
      elim (Bool-cases bad) [
        | inl e ↦ absurd (cc (rw (e, consume_recovery_code) at h))
        | inr e ↦ elim (Option-cases (find (is_unused_code a.user_id hash) s.recovery_codes)) [
          | inl n ↦ absurd (cc (rw (e, n, consume_recovery_code) at h))
          | inr (r, n) ↦
              let (fits, i) = find-some (is_unused_code a.user_id hash) s.recovery_codes n in
              (
                r,
                i,
                ground (arith, eq_iff r.user_id a.user_id),
                ground (arith, eq_iff r.code_hash hash),
                ground arith,
              )
        ]
      ]
