-- ===== src/SecretVault.antt =====
-- security/secretVaultCrypto.ts: secrets sealed under the configured key. The cipher AES-256-GCM, the
-- SHA-256 that makes its key, and base64url are Node's.
mod RoundTrip
mod Tests
use Prim.Native.String.{[]}
use orbi_pay_gateway_v.Prelude.{
  ℕ, zero, Bool, true, false, not, ◌==◌, String, Option, none, some, List, [], ◌∷◌, if◌then◌else◌,
  Result, ok, err, ◌>>=◌, ◌>>◌, throw_if,
}
use orbi_pay_gateway_v.Prelude.Text.{trim, is_empty}
use orbi_pay_gateway_v.Prelude.Json.{
  Json, null, flag, number, text, array, object, Fields, end, field, to_object,
}

-- What Node provides: `encipher` gives the ciphertext and its tag, `decipher` checks the tag.
pub record Cipher : Type 1 where
  pub Bytes : Type 0
  pub key_of : String → Bytes
  pub encipher : Bytes → Bytes → String → Bytes × Bytes
  pub decipher : Bytes → Bytes → Bytes → Bytes → Option String
  pub encode : Bytes → String
  pub decode : String → Bytes

pub data Error : Type 0 where
  encryption_key_required envelope_invalid not_a_text decryption_failed : Error

-- `value[k]`, absent on what is no object.
pub field_in : String → Fields → Option Json
field_in k end = none
field_in k (field j v fs) = if j == k then some v else field_in k fs

pub member : String → Json → Option Json
unfolding field_in
member k (object fs) = field_in k fs
member k _ = none

-- A member that counts as absent: `!value[k]`.
pub is_falsy : Option Json → Bool
is_falsy none = true
is_falsy (some null) = true
is_falsy (some (flag false)) = true
is_falsy (some (number zero)) = true
is_falsy (some (text [])) = true
is_falsy (some _) = false

abbrev is_text : String → Option Json → Bool
is_text t (some (text s)) = s == t
is_text t _ = false

-- `Buffer.from(value[k], 'base64url')` takes a text.
text_of : Option Json → Result Error String
text_of (some (text s)) = ok s
text_of _ = err not_a_text

module _ (c : Cipher) where
  open c use {Bytes, key_of, encipher, decipher, encode, decode}

  pub encryption_key : String → Result Error Bytes
  encryption_key configured =
      let source = trim configured in
      if is_empty source then err encryption_key_required else ok (key_of source)

  pub encrypt_secret : String → Bytes → String → Result Error Json
  unfolding encryption_key
  encrypt_secret configured iv secret = do
    key ← encryption_key configured
    let sealed : Bytes × Bytes = encipher key iv secret
    ok (
        to_object (
          ("alg", some (text "aes-256-gcm"))
          ∷ ("keyId", some (text "orbi-secret-encryption-key"))
          ∷ ("iv", some (text (encode iv)))
          ∷ ("tag", some (text (encode sealed.1)))
          ∷ ("ciphertext", some (text (encode sealed.0)))
          ∷ []))

  pub decrypt_secret : String → Json → Result Error String
  unfolding encryption_key member is_falsy text_of
  decrypt_secret configured envelope = do
    throw_if (not (is_text "aes-256-gcm" (member "alg" envelope))) envelope_invalid
    throw_if (is_falsy (member "iv" envelope)) envelope_invalid
    throw_if (is_falsy (member "tag" envelope)) envelope_invalid
    throw_if (is_falsy (member "ciphertext" envelope)) envelope_invalid
    key ← encryption_key configured
    iv ← text_of (member "iv" envelope)
    tag ← text_of (member "tag" envelope)
    ciphertext ← text_of (member "ciphertext" envelope)
    elim (decipher key (decode iv) (decode tag) (decode ciphertext)) [
      | none ↦ err decryption_failed
      | some secret ↦ ok secret
    ]
