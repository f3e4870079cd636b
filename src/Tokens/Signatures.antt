-- ===== src/Tokens/Signatures.antt =====
-- security/serviceAccessToken.ts: what the signature of a token vouches for.
use Prim.Native.String as Str
use orbi_pay_gateway_v.Prelude.{
  ℕ, ◌<◌, ◌≡◌, refl, sym, ap, ◌⊎◌, ◌∙◌, true, false, not, ◌==◌, leb, String, List, ok, ok-eq, ◌>>=◌,
  >>=-eq-ok, throw_if-ok, includes, arith, Bool-cases, Option-cases, inl, inr, eq_iff, eq_refl,
}
use orbi_pay_gateway_v.Prelude.Text.{trim, is_empty}
use orbi_pay_gateway_v.Tokens.{
  strip_prefix, split_last, prefix, sign, checked_payload, decoded, token_text, service_claims,
  issue_service_access_token, read_service_access_token_claims, verify_service_access_token,
}
use orbi_pay_gateway_v.Tokens.Data.{
  ServiceClaims, ServiceInput, Decoded, not_json, not_claims, read, Issued,
}
use orbi_pay_gateway_v.Tokens.Texts.{
  is_base64url, is_solid, is_base64url-is_solid, is_solid-append, solid_dot, trim_solid,
  strip_prefix-append, strip_prefix-some, split_last-append, split_last-some,
}

-- The text of a token with the start, the payload and the signature.
abbrev pub assembled : String → String → String → String
assembled start payload signature = Str.◌++◌ start (Str.◌++◌ payload (Str.◌++◌ "." signature))

module _ (secret : String) (hmac : String → String) where
  sign-ok :
      (payload : String) → is_empty secret ≡ false → sign secret hmac payload ≡ ok (hmac payload)
  unfolding sign
  sign-ok payload h = rw h refl

  sign-eq : (payload : String) {s : String} → sign secret hmac payload ≡ ok s → s ≡ hmac payload
  unfolding sign
  sign-eq payload e = elim (Bool-cases (is_empty secret)) [
    | inl h ↦ absurd (cc (rw (h, sign) at e))
    | inr h ↦ sym (ok-eq (rw (h, sign) at e))
  ]

  checked_payload-assembled :
      (start payload : String)
      → is_empty secret ≡ false
      → is_solid start ≡ true
      → is_base64url payload ≡ true
      → is_empty payload ≡ false
      → is_base64url (hmac payload) ≡ true
      → checked_payload secret hmac start (assembled start payload (hmac payload)) ≡ ok payload
  unfolding checked_payload
  checked_payload-assembled start payload keyed solid encoded full signed =
      let tail = is_solid-append "." (hmac payload) solid_dot (is_base64url-is_solid _ signed) in
      let body = is_solid-append payload _ (is_base64url-is_solid payload encoded) tail in
      let whole = is_solid-append start _ solid body in
      rw
        (
          checked_payload,
          trim_solid _ whole,
          strip_prefix-append start (Str.◌++◌ payload (Str.◌++◌ "." (hmac payload))),
          split_last-append payload (hmac payload) signed,
          full,
          sign-ok payload keyed,
          eq_refl (hmac payload),
        )
        refl

  checked_payload-ok :
      (start token : String) {payload : String}
      → checked_payload secret hmac start token ≡ ok payload
      → trim token ≡ assembled start payload (hmac payload)
  unfolding checked_payload sign
  checked_payload-ok start token {payload} e =
      elim (Option-cases (strip_prefix start (trim token))) [
        | inl n ↦ absurd (cc (rw (n, checked_payload) at e))
        | inr (body, h) ↦ elim (Option-cases (split_last body)) [
          | inl n ↦ absurd (cc (rw (h, n, checked_payload) at e))
          | inr (parts, k) ↦
              let after = rw (h, k, checked_payload) at e in
              let (_, e1) = throw_if-ok (is_empty parts.0) _ _ after in
              let (expected, signed, e2) = >>=-eq-ok (sign secret hmac parts.0) _ e1 in
              let (same, e3) = throw_if-ok (not (parts.1 == expected)) _ _ e2 in
              let equal = (eq_iff parts.1 expected).0 (ground (arith, same)) in
              strip_prefix-some start (trim token) h
              ∙ ap (Str.◌++◌ start) (split_last-some body {a = parts.0} {b = parts.1} k)
              ∙ ap (assembled start parts.0) (equal ∙ sign-eq parts.0 signed)
              ∙ ap (λ q. assembled start q (hmac q)) (ok-eq e3)
        ]
      ]

Decoded-cases :
    {A : Type 0} (d : Decoded A) → (d ≡ not_json) ⊎ ((d ≡ not_claims) ⊎ ((a : A) × (d ≡ read a)))
Decoded-cases not_json = inl refl
Decoded-cases not_claims = inr (inl refl)
Decoded-cases (read a) = inr (inr (a, refl))

decoded-ok :
    {Claims : Type 0} (secret : String) (hmac : String → String) (decode : String → Decoded Claims)
    (payload : String) {c : Claims}
    → decoded secret hmac decode payload ≡ ok c
    → decode payload ≡ read c
unfolding decoded
decoded-ok secret hmac decode payload e = elim (Decoded-cases (decode payload)) [
  | inl h ↦ absurd (cc (rw (h, decoded) at e))
  | inr (inl h) ↦ absurd (cc (rw (h, decoded) at e))
  | inr (inr (d, h)) ↦ h ∙ ap read (ok-eq (rw (h, decoded) at e))
]

solid_prefix : is_solid prefix ≡ true
solid_prefix = is_base64url-is_solid prefix (unfold is_base64url in refl)

module _ (secret : String) (hmac : String → String) (encode : ServiceClaims → String)
    (decode : String → Decoded ServiceClaims) where
  decoded-read :
      (payload : String) (c : ServiceClaims)
      → decode payload ≡ read c
      → decoded secret hmac decode payload ≡ ok c
  unfolding decoded
  decoded-read payload c h = rw (h, decoded) refl

  verified :
      (revoked : List String) (later : ℕ) (token payload : String) (c : ServiceClaims)
      → checked_payload secret hmac prefix token ≡ ok payload
      → decode payload ≡ read c
      → leb c.exp later ≡ false
      → includes c.jti revoked ≡ false
      → verify_service_access_token secret hmac encode decode revoked later token ≡ ok c
  unfolding verify_service_access_token read_service_access_token_claims
  verified revoked later token payload c checked reads lasts kept =
      rw (checked, ◌>>=◌, decoded-read payload c reads, ◌>>=◌, lasts, kept) refl

  -- A token that is issued under a configured secret is verified, with its claims, as long as it has
  -- not run out and its identifier is not revoked, if the schema reads the claims back from their
  -- encoding and encodings and signatures are base64url texts, the former not empty.
  pub verify_service_access_token-issue :
      (configured now later : ℕ) (uuid : String) (input : ServiceInput) (revoked : List String)
      → is_empty secret ≡ false
      → ((p : String) → is_base64url (hmac p) ≡ true)
      → is_base64url (encode (service_claims configured now uuid input)) ≡ true
      → is_empty (encode (service_claims configured now uuid input)) ≡ false
      → decode (encode (service_claims configured now uuid input))
        ≡ read (service_claims configured now uuid input)
      → later < (service_claims configured now uuid input).exp
      → includes (service_claims configured now uuid input).jti revoked ≡ false
      → (t : Issued ServiceClaims) × (issue_service_access_token secret hmac encode decode
            configured now uuid input
          ≡ ok t)
        × (verify_service_access_token secret hmac encode decode revoked later t.access_token
            ≡ ok (service_claims configured now uuid input))
  unfolding issue_service_access_token verify_service_access_token read_service_access_token_claims
      token_text decoded
  verify_service_access_token-issue configured now later uuid input revoked keyed signed encoded
        full reads fresh kept =
      let claims = service_claims configured now uuid input in
      let signs = sign-ok secret hmac (encode claims) keyed in
      let checked =
        checked_payload-assembled secret hmac prefix (encode claims) keyed solid_prefix encoded full
          (signed (encode claims)) in
      let lasts : leb claims.exp later ≡ false = ground arith in
      rw signs (_, refl, verified revoked later _ (encode claims) claims checked reads lasts kept)

  read_ok :
      (now : ℕ) (token : String) {claims : ServiceClaims}
      → read_service_access_token_claims secret hmac encode decode now token ≡ ok claims
      → (payload : String) × (trim token ≡ assembled prefix payload (hmac payload))
        × (decode payload ≡ read claims)
        × (now < claims.exp)
  unfolding read_service_access_token_claims
  read_ok now token {claims} e =
      let (payload, checked, e1) = >>=-eq-ok (checked_payload secret hmac prefix token) _ e in
      let (c, reads, e2) = >>=-eq-ok (decoded secret hmac decode payload) _ e1 in
      let (lasts, e3) = throw_if-ok (leb c.exp now) _ _ e2 in
      let same = ok-eq e3 in
      let until = ap (λ (d : ServiceClaims). leb d.exp now) (sym same) ∙ lasts in
      (
        payload,
        checked_payload-ok secret hmac prefix token checked,
        decoded-ok secret hmac decode payload reads ∙ ap read same,
        ground arith,
      )

  -- A token that is verified carries its claims, signed under the configured secret, behind the prefix
  -- of service tokens; it has not run out, and its identifier is not revoked.
  pub verify_service_access_token_signed :
      (revoked : List String) (now : ℕ) (token : String) {claims : ServiceClaims}
      → verify_service_access_token secret hmac encode decode revoked now token ≡ ok claims
      → (payload : String) × (trim token ≡ assembled prefix payload (hmac payload))
        × (decode payload ≡ read claims)
        × (now < claims.exp)
        × (includes claims.jti revoked ≡ false)
  unfolding verify_service_access_token
  verify_service_access_token_signed revoked now token {claims} e =
      let (c, reads, e1) =
        >>=-eq-ok (read_service_access_token_claims secret hmac encode decode now token) _ e in
      let (kept, e2) = throw_if-ok (includes c.jti revoked) _ _ e1 in
      let same = ok-eq e2 in
      let (payload, text, decodes, fresh) = read_ok now token (reads ∙ ap ok same) in
      (
        payload,
        text,
        decodes,
        fresh,
        ap (λ (d : ServiceClaims). includes d.jti revoked) (sym same) ∙ kept,
      )
