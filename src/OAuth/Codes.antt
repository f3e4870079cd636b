-- ===== src/OAuth/Codes.antt =====
-- services/oauthAuthorizationStore.ts: issuing and redeeming authorization codes.
use mathlib.Core.Path.{subst}
use Prim.Native.String as Str
use orbi_pay_gateway_v.Prelude.{
  ℕ, ◌<◌, ◌≡◌, refl, sym, ap, ◌∙◌, inl, inr, ◌↔◌, Bool, true, false, ◌==◌, String, Option, none,
  some, List, [], ◌∷◌, Result, Result-cases, ok, err, any, find, find-some, arith, Bool-cases,
  Option-cases, eq_iff, eq-cases,
}
use orbi_pay_gateway_v.Prelude.Text.{truthy}
use orbi_pay_gateway_v.Sql.{update_where, find-update_where}
use orbi_pay_gateway_v.OAuth.Data.{
  AuthorizationRecord, AuthorizationCode, CodeRow, Error, code_invalid,
}
use orbi_pay_gateway_v.OAuth.{issue_code, code_of, check_code, consume_code}

module _ (challenge_of : String → String) where
  check_code_iff :
      (now : ℕ) (service_code redirect_uri verifier : String) (row x : CodeRow)
      → (check_code challenge_of now service_code redirect_uri verifier (some row) ≡ ok x) ↔ (
          (row ≡ x)
          × (row.consumed_at ≡ none)
          × (now < row.expires_at)
          × (row.service_code ≡ service_code)
          × (row.redirect_uri ≡ redirect_uri)
          × (row.code_challenge ≡ challenge_of verifier))
  unfolding check_code
  check_code_iff now service_code redirect_uri verifier row x = (
    λ h. ground (
      arith,
      eq_iff row.service_code service_code,
      eq_iff row.redirect_uri redirect_uri,
      eq_iff row.code_challenge (challenge_of verifier),
    ),
    λ h. ground (
      arith,
      eq_iff row.service_code service_code,
      eq_iff row.redirect_uri redirect_uri,
      eq_iff row.code_challenge (challenge_of verifier),
    ),
  )

  refused :
      (now : ℕ) (service_code redirect_uri verifier : String) (row : CodeRow) {t : ℕ}
      → row.consumed_at ≡ some t
      → check_code challenge_of now service_code redirect_uri verifier (some row) ≡ err code_invalid
  unfolding check_code
  refused now service_code redirect_uri verifier row e = ground arith

  check-ok :
      (now : ℕ) (service_code redirect_uri verifier : String) (found : Option CodeRow)
      {row : CodeRow}
      → check_code challenge_of now service_code redirect_uri verifier found ≡ ok row
      → found ≡ some row
  unfolding check_code
  check-ok now service_code redirect_uri verifier none e = absurd (cc)
  check-ok now service_code redirect_uri verifier (some x) {row} e =
      ap some ((check_code_iff now service_code redirect_uri verifier x row).0 e).0

module _ (hash challenge_of : String → String) where
  abbrev hashed : String → CodeRow → Bool
  hashed h row = row.code_hash == h

  consume-ok :
      (now : ℕ) (code service_code redirect_uri verifier : String) (codes : List CodeRow)
      {row : CodeRow}
      → check_code challenge_of now service_code redirect_uri verifier
          (find (hashed (hash code)) codes)
        ≡ ok row
      → consume_code hash challenge_of now code service_code redirect_uri verifier codes ≡ (
        update_where (hashed (hash code)) (λ c. record c { consumed_at = some now }) codes,
        ok (code_of row),
      )
  unfolding consume_code
  consume-ok now code service_code redirect_uri verifier codes e = rw (e, consume_code)

  consume-err :
      (now : ℕ) (code service_code redirect_uri verifier : String) (codes : List CodeRow)
      {e : Error}
      → check_code challenge_of now service_code redirect_uri verifier
          (find (hashed (hash code)) codes)
        ≡ err e
      → consume_code hash challenge_of now code service_code redirect_uri verifier codes
        ≡ (codes, err e)
  unfolding consume_code
  consume-err now code service_code redirect_uri verifier codes e = rw (e, consume_code)

  -- A call redeems a stored code exactly if the code was not consumed and has not run out, the service
  -- and the redirect address are those it was issued for, and the verifier meets its challenge.
  pub consume_succeeds_iff :
      (now : ℕ) (code service_code redirect_uri verifier : String) (codes : List CodeRow)
      (row : CodeRow)
      → find (hashed (hash code)) codes ≡ some row
      → ((consume_code hash challenge_of now code service_code redirect_uri verifier codes).1
          ≡ ok (code_of row))
        ↔ ((row.consumed_at ≡ none)
            × (now < row.expires_at)
            × (row.service_code ≡ service_code)
            × (row.redirect_uri ≡ redirect_uri)
            × (row.code_challenge ≡ challenge_of verifier))
  consume_succeeds_iff now code service_code redirect_uri verifier codes row found =
      let check = check_code challenge_of now service_code redirect_uri verifier in
      (
        λ h. elim (Result-cases (check (some row))) [
          | inl (e, bad) ↦ absurd (
              cc (
                sym h
                ∙ ap (λ p. p.1)
                    (consume-err now code service_code redirect_uri verifier codes
                      (ap check found ∙ bad))))
          | inr (x, good) ↦
              let (_, a, b, c, d, f) =
                (check_code_iff challenge_of now service_code redirect_uri verifier row x).0 good in
              (a, b, c, d, f)
        ],
        λ h.
            ap (λ p. p.1)
              (consume-ok now code service_code redirect_uri verifier codes (
                ap check found
                ∙ (check_code_iff challenge_of now service_code redirect_uri verifier row row).1
                    (refl, h.0, h.1, h.2, h.3, h.4))),
      )

  -- One call that changes the table of codes.
  pub data Step (codes : List CodeRow) : List CodeRow → Type 0 where
    issues :
        (now : ℕ) (random : String) (r : AuthorizationRecord) (consent_id : String)
        (ttl_seconds : ℕ) (codes' : List CodeRow) (code : String)
        → issue_code hash now random r consent_id ttl_seconds codes ≡ ok (codes', code)
        → Step codes codes'
    consumes :
        (now : ℕ) (code service_code redirect_uri verifier : String)
        → Step codes
            (consume_code hash challenge_of now code service_code redirect_uri verifier codes).0

  pub data Reach (codes : List CodeRow) : List CodeRow → Type 0 where
    here : Reach codes codes
    next : {t u : List CodeRow} → Reach codes t → Step t u → Reach codes u

  abbrev IsConsumed : CodeRow → Type 0
  IsConsumed row = (t : ℕ) × (row.consumed_at ≡ some t)

  -- The row that a hash finds is consumed.
  abbrev Spent : String → List CodeRow → Type 0
  Spent h codes = (row : CodeRow) × (find (hashed h) codes ≡ some row) × IsConsumed row

  update-Spent :
      (now : ℕ) (h h' : String) (codes : List CodeRow)
      → Spent h codes
      → Spent h (update_where (hashed h') (λ c. record c { consumed_at = some now }) codes)
  update-Spent now h h' codes (row, found, (t, e)) =
      let step =
        find-update_where (hashed h) (hashed h') (λ c. record c { consumed_at = some now }) codes
          (λ x. refl) found in
      elim (Bool-cases (hashed h' row)) [
        | inl fits ↦ (record row { consumed_at = some now }, rw (fits) at step, (now, refl))
        | inr other ↦ (row, rw (other) at step, (t, e))
      ]

  consume-Spent :
      (now : ℕ) (code service_code redirect_uri verifier h : String) (codes : List CodeRow)
      → Spent h codes
      → Spent h (consume_code hash challenge_of now code service_code redirect_uri verifier codes).0
  consume-Spent now code service_code redirect_uri verifier h codes spent =
      elim (Result-cases (
        check_code challenge_of now service_code redirect_uri verifier
          (find (hashed (hash code)) codes))) [
            | inl (e, bad) ↦
                subst (Spent h)
                  (ap (λ p. p.0)
                    (sym (consume-err now code service_code redirect_uri verifier codes bad)))
                  spent
            | inr (row, good) ↦
                subst (Spent h)
                  (ap (λ p. p.0)
                    (sym (consume-ok now code service_code redirect_uri verifier codes good)))
                  (update-Spent now h (hash code) codes spent)
          ]

  any-find :
      {A : Type 0} (p : A → Bool) (xs : List A) {x : A} → find p xs ≡ some x → any p xs ≡ true
  unfolding find any
  any-find p [] e = absurd (cc)
  any-find p (y ∷ xs) {x} e = ground (arith, any-find p xs {x = x})

  abbrev rows_of : Result Error (List CodeRow × String) → List CodeRow
  rows_of (ok p) = p.0
  rows_of (err _) = []

  -- A code that is issued is new.
  issue-ok :
      (now : ℕ) (random : String) (r : AuthorizationRecord) (consent_id : String) (ttl_seconds : ℕ)
      (codes codes' : List CodeRow) (code : String)
      → issue_code hash now random r consent_id ttl_seconds codes ≡ ok (codes', code)
      → (row : CodeRow) × (codes' ≡ row ∷ codes) × (any (hashed row.code_hash) codes ≡ false)
  unfolding issue_code
  issue-ok now random r consent_id ttl_seconds codes codes' code e =
      elim (Option-cases (truthy r.subject_id)) [
        | inl missing ↦ absurd (cc (rw (missing, issue_code) at e))
        | inr (subject_id, there) ↦
            elim (Bool-cases (any (hashed (hash (Str.◌++◌ "orbi_ac_" random))) codes)) [
              | inl taken ↦ absurd (cc (rw (there, taken, issue_code) at e))
              | inr free ↦ (_, sym (ap rows_of (rw (there, free, issue_code) at e)), free)
            ]
      ]

  issue-Spent :
      (row : CodeRow) (codes : List CodeRow) (h : String)
      → any (hashed row.code_hash) codes ≡ false
      → Spent h codes
      → Spent h (row ∷ codes)
  unfolding find
  issue-Spent row codes h free (x, found, spent) = elim (eq-cases row.code_hash h) [
    | inl (same, _) ↦ absurd (
        cc (
          any-find (hashed row.code_hash) codes
            (subst (λ z. find (hashed z) codes ≡ some x) (sym same) found)))
    | inr other ↦ (x, rw (other.1) found, spent)
  ]

  Step-Spent : {s t : List CodeRow} (h : String) → Step s t → Spent h s → Spent h t
  Step-Spent {s} h (issues now random r consent_id ttl_seconds codes' code e) spent =
      let (row, same, free) = issue-ok now random r consent_id ttl_seconds s codes' code e in
      subst (Spent h) (sym same) (issue-Spent row s h free spent)
  Step-Spent {s} h (consumes now code service_code redirect_uri verifier) spent =
      consume-Spent now code service_code redirect_uri verifier h s spent

  Reach-Spent : {s t : List CodeRow} (h : String) → Reach s t → Spent h s → Spent h t
  Reach-Spent h here spent = spent
  Reach-Spent h (next reach step) spent = Step-Spent h step (Reach-Spent h reach spent)

  redeemed-Spent :
      (now : ℕ) (h : String) (codes : List CodeRow) {row : CodeRow}
      → find (hashed h) codes ≡ some row
      → Spent h (update_where (hashed h) (λ c. record c { consumed_at = some now }) codes)
  redeemed-Spent now h codes {row} found =
      let step =
        find-update_where (hashed h) (hashed h) (λ c. record c { consumed_at = some now }) codes
          (λ x. refl) found in
      (
        record row { consumed_at = some now },
        rw ((find-some (hashed h) codes found).0) at step,
        (now, refl),
      )

  Spent-refused :
      (now : ℕ) (code service_code redirect_uri verifier : String) (codes : List CodeRow)
      → Spent (hash code) codes
      → consume_code hash challenge_of now code service_code redirect_uri verifier codes
        ≡ (codes, err code_invalid)
  Spent-refused now code service_code redirect_uri verifier codes (row, found, (t, e)) =
      consume-err now code service_code redirect_uri verifier codes (
        ap (check_code challenge_of now service_code redirect_uri verifier) found
        ∙ refused challenge_of now service_code redirect_uri verifier row e)

  -- After a code was redeemed, no call at any later time redeems it again, whatever codes are issued
  -- and redeemed between.
  pub consume_once :
      (now later : ℕ) (code service_code redirect_uri verifier : String)
      (service_code' redirect_uri' verifier' : String) (s t u : List CodeRow)
      (granted : AuthorizationCode)
      → consume_code hash challenge_of now code service_code redirect_uri verifier s
        ≡ (t, ok granted)
      → Reach t u
      → consume_code hash challenge_of later code service_code' redirect_uri' verifier' u
        ≡ (u, err code_invalid)
  consume_once now later code service_code redirect_uri verifier service_code' redirect_uri'
        verifier' s t u granted e r =
      elim (Result-cases (
        check_code challenge_of now service_code redirect_uri verifier
          (find (hashed (hash code)) s))) [
            | inl (x, bad) ↦
                absurd
                  (cc (sym (consume-err now code service_code redirect_uri verifier s bad) ∙ e))
            | inr (row, good) ↦
                let state =
                  ap (λ p. p.0)
                    (sym (consume-ok now code service_code redirect_uri verifier s good) ∙ e) in
                let found = check-ok challenge_of now service_code redirect_uri verifier _ good in
                let first = redeemed-Spent now (hash code) s found in
                Spent-refused later code service_code' redirect_uri' verifier' u
                  (Reach-Spent (hash code) r (subst (Spent (hash code)) state first))
          ]
