-- ===== src/SecretVault/RoundTrip.antt =====
-- security/secretVaultCrypto.ts: sealing and opening.
use Prim.Native.String.{[], ◌∷◌}
use orbi_pay_gateway_v.Prelude.{◌≡◌, refl, false, String, some, ok}
use orbi_pay_gateway_v.Prelude.Text.{trim, is_empty}
use orbi_pay_gateway_v.Prelude.Json.{Json, text, fields_from}
use orbi_pay_gateway_v.SecretVault.{
  Cipher, member, field_in, is_falsy, text_of, encryption_key, encrypt_secret, decrypt_secret,
}

-- What Node documents of its functions: the decoder undoes the encoder, the cipher opens what it sealed
-- under one key and one initialisation vector, a tag encodes to a text, and so does the ciphertext of a
-- secret that is not empty.
pub record IsNode (c : Cipher) : Type 0 where
  pub decode-encode : (b : c.Bytes) → c.decode (c.encode b) ≡ b
  pub decipher-encipher :
      (key iv : c.Bytes) (s : String)
      → c.decipher key iv (c.encipher key iv s).1 (c.encipher key iv s).0 ≡ some s
  pub tag_text :
      (key iv : c.Bytes) (s : String) → is_empty (c.encode (c.encipher key iv s).1) ≡ false
  pub ciphertext_text :
      (key iv : c.Bytes) (s : String)
      → is_empty s ≡ false
      → is_empty (c.encode (c.encipher key iv s).0) ≡ false

is_falsy_text : (s : String) → is_empty s ≡ false → is_falsy (some (text s)) ≡ false
unfolding is_falsy
is_falsy_text [] h = absurd (cc)
is_falsy_text (c ∷ s) h = refl

module _ (c : Cipher) (node : IsNode c) where
  -- A secret that is not empty is opened again under the same configured key, if that key is not
  -- blank and the initialisation vector encodes to a text.
  pub decrypt_secret-encrypt_secret :
      (configured secret : String) (iv : c.Bytes)
      → is_empty (trim configured) ≡ false
      → is_empty (c.encode iv) ≡ false
      → is_empty secret ≡ false
      → (envelope : Json) × (encrypt_secret c configured iv secret ≡ ok envelope)
        × (decrypt_secret c configured envelope ≡ ok secret)
  unfolding encrypt_secret decrypt_secret encryption_key member field_in text_of fields_from
  decrypt_secret-encrypt_secret configured secret iv keyed vector some_secret =
      let key = c.key_of (trim configured) in
      rw (keyed) (
        _,
        refl,
        rw
            (
              is_falsy_text _ vector,
              is_falsy_text _ (node.tag_text key iv secret),
              is_falsy_text _ (node.ciphertext_text key iv secret some_secret),
              node.decode-encode iv,
              node.decode-encode (c.encipher key iv secret).1,
              node.decode-encode (c.encipher key iv secret).0,
              node.decipher-encipher key iv secret,
            )
            refl,
      )
