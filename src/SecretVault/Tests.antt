-- ===== src/SecretVault/Tests.antt =====
-- A vault with a cipher that only marks texts.
use Prim.Native.String as Str
use Prim.Native.String.{[], ◌∷◌}
use orbi_pay_gateway_v.Prelude.{◌≡◌, refl, String, some, ok}
use orbi_pay_gateway_v.Prelude.Text.{trim}
use orbi_pay_gateway_v.Prelude.Json.{Json}
use orbi_pay_gateway_v.SecretVault.{Cipher, encrypt_secret, decrypt_secret}
use orbi_pay_gateway_v.SecretVault.RoundTrip.{IsNode, decrypt_secret-encrypt_secret}

abbrev unmark : String → String
unmark [] = []
unmark (c ∷ s) = s

abbrev marking : Cipher
marking = record {
  Bytes = String;
  key_of = λ source. source;
  encipher = λ key iv s. (s, iv);
  decipher = λ key iv tag s. some s;
  encode = λ b. Str.◌∷◌ "x" b;
  decode = unmark;
}

marking-IsNode : IsNode marking
marking-IsNode = record {
  decode-encode = λ b. refl;
  decipher-encipher = λ key iv s. refl;
  tag_text = λ key iv s. refl;
  ciphertext_text = λ key iv s h. refl;
}

decrypt_secret-encrypt_secret_example :
    (envelope : Json) × (encrypt_secret marking " master " "iv" "hush" ≡ ok envelope)
    × (decrypt_secret marking " master " envelope ≡ ok "hush")
unfolding trim
decrypt_secret-encrypt_secret_example =
    decrypt_secret-encrypt_secret marking marking-IsNode " master " "hush" "iv" refl refl refl
