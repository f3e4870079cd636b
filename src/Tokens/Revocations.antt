-- ===== src/Tokens/Revocations.antt =====
-- security/serviceAccessToken.ts: revoked tokens, and the histories of revocations.
use orbi_pay_gateway_v.Prelude.{
  ℕ, ◌≡◌, ◌≢◌, sym, ap, ◌∙◌, true, false, not, leb, ◌==◌, String, List, [], ◌∷◌, ok, ok-eq,
  >>=-eq-ok, throw_if-ok, includes, includes-add, add, arith, Bool-cases, inl, inr, eq_refl,
}
use orbi_pay_gateway_v.Prelude.Text.{trim}
use orbi_pay_gateway_v.TokenExchange.Claims as Financial
use orbi_pay_gateway_v.TokenExchange.Claims.{FinancialClaims}
use orbi_pay_gateway_v.Tokens.{
  remember_revoked, record_revocation, checked_payload, decoded, read_service_access_token_claims,
  verify_service_access_token, revoke_service_access_token, verify_financial_access_token,
}
use orbi_pay_gateway_v.Tokens.Data.{ServiceClaims, Decoded}

module _ (secret : String) (hmac : String → String) (encode : ServiceClaims → String)
    (decode : String → Decoded ServiceClaims) where
  -- One change of the revoked identifiers.
  pub data Step (revoked : List String) : List String → Type 0 where
    remembers : (jtis : List String) → Step revoked (remember_revoked jtis revoked)
    revokes :
        (now : ℕ) (token : String) {later : List String} {claims : ServiceClaims}
        → revoke_service_access_token secret hmac encode decode now token revoked
          ≡ ok (later, claims)
        → Step revoked later

  pub data Reach (revoked : List String) : List String → Type 0 where
    here : Reach revoked revoked
    next : {t u : List String} → Reach revoked t → Step t u → Reach revoked u

  add_keeps :
      (a b : String) (xs : List String) → includes a xs ≡ true → includes a (add b xs) ≡ true
  add_keeps a b xs h = ground (arith, includes-add a b xs)

  remember_keeps :
      (a : String) (jtis revoked : List String)
      → includes a revoked ≡ true
      → includes a (remember_revoked jtis revoked) ≡ true
  unfolding remember_revoked
  remember_keeps a [] revoked h = h
  remember_keeps a (jti ∷ jtis) revoked h = elim (Bool-cases (trim jti == "")) [
    | inl e ↦ rw e (remember_keeps a jtis revoked h)
    | inr e ↦ rw e (remember_keeps a jtis _ (add_keeps a (trim jti) revoked h))
  ]

  revoke_parts :
      (now : ℕ) (token : String) (revoked : List String) {later : List String}
      {claims : ServiceClaims}
      → revoke_service_access_token secret hmac encode decode now token revoked ≡ ok (later, claims)
      → (verify_service_access_token secret hmac encode decode revoked now token ≡ ok claims)
        × (later ≡ add claims.jti revoked)
  unfolding revoke_service_access_token
  revoke_parts now token revoked e =
      let (c, verified, rest) =
        >>=-eq-ok (verify_service_access_token secret hmac encode decode revoked now token) _ e in
      let same = ok-eq rest in
      (
        verified ∙ ap (λ (p : List String × ServiceClaims). ok p.1) same,
        sym (ap (λ (p : List String × ServiceClaims). p.0) same)
            ∙ ap (λ (p : List String × ServiceClaims). add (p.1).jti revoked) same,
      )

  Step-keeps :
      (a : String) {r t : List String} → Step r t → includes a r ≡ true → includes a t ≡ true
  Step-keeps a {r} (remembers jtis) h = remember_keeps a jtis r h
  Step-keeps a {r} (revokes now token {later} {claims} e) h =
      ap (includes a) ((revoke_parts now token r e).1) ∙ add_keeps a claims.jti r h

  Reach-keeps :
      (a : String) {r t : List String} → Reach r t → includes a r ≡ true → includes a t ≡ true
  Reach-keeps a here h = h
  Reach-keeps a (next q st) h = Step-keeps a st (Reach-keeps a q h)

  verify_kept :
      (revoked : List String) (now : ℕ) (token : String) {claims : ServiceClaims}
      → verify_service_access_token secret hmac encode decode revoked now token ≡ ok claims
      → (includes claims.jti revoked ≡ false)
        × (read_service_access_token_claims secret hmac encode decode now token ≡ ok claims)
  unfolding verify_service_access_token
  verify_kept revoked now token {claims} e =
      let (c, reads, e1) =
        >>=-eq-ok (read_service_access_token_claims secret hmac encode decode now token) _ e in
      let (kept, e2) = throw_if-ok (includes c.jti revoked) _ _ e1 in
      let same = ok-eq e2 in
      (ap (λ (d : ServiceClaims). includes d.jti revoked) (sym same) ∙ kept, reads ∙ ap ok same)

  -- A revocation is final: once a token was revoked, no token with its identifier is verified at any
  -- later time, whatever identifiers are remembered and tokens are revoked between.
  pub revoke_service_access_token_final :
      (now later : ℕ) (token other : String) (revoked : List String) {t u : List String}
      {claims : ServiceClaims} {found : ServiceClaims}
      → revoke_service_access_token secret hmac encode decode now token revoked ≡ ok (t, claims)
      → Reach t u
      → verify_service_access_token secret hmac encode decode u later other ≡ ok found
      → found.jti ≢ claims.jti
  revoke_service_access_token_final now later token other revoked {t} {u} {claims} {found} e r v
        same =
      let (_, grown) = revoke_parts now token revoked e in
      let there =
        ap (includes claims.jti) grown
        ∙ ground (arith, includes-add claims.jti claims.jti revoked, eq_refl claims.jti) in
      let still = Reach-keeps claims.jti r there in
      absurd (cc (still, (verify_kept u later other v).0, ap (λ j. includes j u) same))

  verify_financial_kept :
      (decode_financial : String → Decoded FinancialClaims)
      (encode_financial : FinancialClaims → String) (config : Financial.Config)
      (revoked : List String) (now : ℕ) (token : String) {claims : FinancialClaims}
      → verify_financial_access_token secret hmac encode_financial decode_financial config revoked
          now token
        ≡ ok claims
      → includes claims.jti revoked ≡ false
  unfolding verify_financial_access_token
  verify_financial_kept decode_financial encode_financial config revoked now token e =
      let (payload, _, e1) = >>=-eq-ok (checked_payload secret hmac _ token) _ e in
      let (c, _, e2) = >>=-eq-ok (decoded secret hmac decode_financial payload) _ e1 in
      let (_, e3) = throw_if-ok (not (c.aud == config.audience)) _ _ e2 in
      let (_, e4) = throw_if-ok (leb c.exp now) _ _ e3 in
      let (kept, e5) = throw_if-ok (includes c.jti revoked) _ _ e4 in
      ap (λ (d : FinancialClaims). includes d.jti revoked) (sym (ok-eq e5)) ∙ kept

  record_revocation_there :
      (jti : String) (revoked : List String)
      → (trim jti == "") ≡ false
      → includes (trim jti) (record_revocation jti revoked) ≡ true
  unfolding record_revocation remember_revoked
  record_revocation_there jti revoked h =
      rw h (ground (arith, includes-add (trim jti) (trim jti) revoked, eq_refl (trim jti)))

  -- Once the revocation of an identifier was recorded, no financial token with it is verified at any
  -- later time, whatever identifiers are remembered and tokens are revoked between, if the identifier
  -- is not blank.
  pub record_revocation_final :
      (decode_financial : String → Decoded FinancialClaims)
      (encode_financial : FinancialClaims → String) (config : Financial.Config) (jti : String)
      (revoked : List String) {u : List String} (later : ℕ) (token : String)
      {found : FinancialClaims}
      → (trim jti == "") ≡ false
      → Reach (record_revocation jti revoked) u
      → verify_financial_access_token secret hmac encode_financial decode_financial config u later
          token
        ≡ ok found
      → found.jti ≢ trim jti
  record_revocation_final decode_financial encode_financial config jti revoked {u} later token
        {found} h r v same =
      let still = Reach-keeps (trim jti) r (record_revocation_there jti revoked h) in
      let kept = verify_financial_kept decode_financial encode_financial config u later token v in
      absurd (cc (still, kept, ap (λ j. includes j u) same))
