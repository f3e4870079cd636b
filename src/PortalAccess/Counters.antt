-- ===== src/PortalAccess/Counters.antt =====
-- services/portalAccessStore.ts: the counters of accepted codes.
use orbi_pay_gateway_v.Prelude.{
  ℕ, ◌≡◌, refl, sym, ap, ◌∙◌, Bool, true, false, not, String, Option, none, some, List, [], ◌∷◌, In,
  arith, Bool-cases, inl, inr, if◌then◌else◌, some-eq, ◌<◌, ◌==◌, ◌/◌, eq_refl,
}
use orbi_pay_gateway_v.Prelude.Text.{trim}
use orbi_pay_gateway_v.Prelude.Json.{Json}
use orbi_pay_gateway_v.Sql.{In-update_where}
use orbi_pay_gateway_v.PortalAccess.{
  has_user, is_replayed, is_six_digits, match_counters, candidates, totp_secret_for, match_totp,
  verify_totp, update_user,
}
use orbi_pay_gateway_v.PortalAccess.Data.{Account, State}

picked :
    (last : Option ℕ) (differs replayed : Bool) (rest : Option ℕ) (counter : ℕ) {n : ℕ}
    → (rest ≡ some n → is_replayed last n ≡ false)
    → is_replayed last counter ≡ replayed
    → (if differs then rest else (if replayed then none else some counter)) ≡ some n
    → is_replayed last n ≡ false
picked last true replayed rest counter later h e = later e
picked last false true rest counter later h e = absurd (cc e)
picked last false false rest counter later h e = ap (is_replayed last) (sym (some-eq e)) ∙ h

-- A counter that is found while replays are refused has not been used.
match_counters-is_replayed :
    (totp : ℕ → String) (clean : String) (last : Option ℕ) (counters : List ℕ) {n : ℕ}
    → match_counters totp clean true last counters ≡ some n
    → is_replayed last n ≡ false
unfolding match_counters
match_counters-is_replayed totp clean last [] e = absurd (cc e)
match_counters-is_replayed totp clean last (c ∷ cs) e =
    picked last (not (totp c == clean)) (is_replayed last c)
      (match_counters totp clean true last cs) c (match_counters-is_replayed totp clean last cs)
      refl e

beyond : (n m : ℕ) → is_replayed (some n) m ≡ false → n < m
beyond n m h = grind arith

module _ (totp_at : String → ℕ → String) (unseal : Json → String) where
  looked_up :
      (found : Option String) (six : Bool) (last : Option ℕ) (f : String → Option ℕ) {n : ℕ}
      → ((secret : String) → f secret ≡ some n → is_replayed last n ≡ false)
      → (elim found [ none ↦ none | some secret ↦ if not six then none else f secret ]) ≡ some n
      → is_replayed last n ≡ false
  looked_up none six last f good e = absurd (cc e)
  looked_up (some secret) false last f good e = absurd (cc e)
  looked_up (some secret) true last f good e = good secret e

  match_totp-is_replayed :
      (now : ℕ) (a : Account) (entered : String) {n : ℕ}
      → match_totp totp_at unseal now a entered true ≡ some n
      → is_replayed a.last_totp_counter n ≡ false
  unfolding match_totp
  match_totp-is_replayed now a entered e =
      looked_up (totp_secret_for totp_at unseal a) (is_six_digits (trim entered))
        a.last_totp_counter
        (λ secret.
          match_counters (totp_at secret) (trim entered) true a.last_totp_counter
            (candidates (now / 30000)))
        (λ secret.
          match_counters-is_replayed (totp_at secret) (trim entered) a.last_totp_counter
            (candidates (now / 30000)))
        e

  -- After a code of the counter n was accepted, every row of the account's user accepts, while
  -- replays are refused, only codes of counters beyond n.
  pub verify_totp_increasing :
      (now later : ℕ) (a b : Account) (entered again : String) (s : State) {n m : ℕ}
      → match_totp totp_at unseal now a entered true ≡ some n
      → In b ((verify_totp totp_at unseal now a entered s).0).users
      → b.user_id ≡ a.user_id
      → match_totp totp_at unseal later b again true ≡ some m
      → n < m
  unfolding verify_totp update_user
  verify_totp_increasing now later a b entered again s {n} {m} accepted i same found =
      let mark : Account → Account = λ x. record x { last_totp_counter = some n } in
      let (r, j, e) =
        In-update_where (has_user a.user_id) mark s.users b (rw (accepted, verify_totp) at i) in
      let fresh = match_totp-is_replayed later b again found in
      elim (Bool-cases (has_user a.user_id r)) [
        | inl h ↦
            beyond n m (ap (λ x. is_replayed (x.last_totp_counter) m) (sym (rw h at e)) ∙ fresh)
        | inr h ↦ let same_row = rw h at e in absurd (cc (eq_refl a.user_id))
      ]
