-- ===== src/Hmac/Example.antt =====
-- cryptoutils/hmac/example/main.go. The environment and the tampering are arguments.
use huba.Common.{ℕ, String, ◌<>◌, none, some, List, ◌==◌, length, if◌then◌else◌, Fallible, ok, err}
use huba.Common.Script.{Script, ◌>>=◌, ◌>>◌, pure, print, fatal, codes}
use huba.Hmac.{
  HmacError, invalid_key, invalid_message, invalid_signature, sha256, sha512, hex, base64, Hmac,
  Crypto, new_hmac, sign, verify,
}

abbrev pub error_text : HmacError → String
error_text invalid_key = "hmac: key cannot be empty"
error_text invalid_message = "hmac: message cannot be empty"
error_text invalid_signature = "hmac: invalid signature"

-- `if err != nil { log.Fatalf(…) }`
abbrev pub must : {A : Type 0} → String → Fallible HmacError A → Script (Unit {0}) A
must what (ok a) = pure a
must what (err e) = fatal (what <> ": " <> error_text e)

abbrev pub message : List ℕ
message = codes "This is a sensitive message that needs verification"

abbrev pub tampered_message : List ℕ
tampered_message = codes "This is a sensitive message that was tampered with"

-- The key from the environment, or the default one.
unfoldable pub secret_key : List ℕ → List ℕ
secret_key env = if length env == 0 then codes "your-secure-key" else env

module _ (c : Crypto) where
  unfoldable pub check_signature : Hmac → String → Script (Unit {0}) (Unit {0})
  check_signature h signature = elim (verify c h message signature) [
    | some e ↦ fatal ("Signature verification failed: " <> error_text e)
    | none ↦ print "Signature verified successfully!"
  ]

  unfoldable pub check_tampered : Hmac → String → Script (Unit {0}) (Unit {0})
  check_tampered h signature = elim (verify c h tampered_message signature) [
    | some e ↦ print ("Expected failure on tampered message: " <> error_text e)
    | none ↦ fatal "Security error: Tampered message was incorrectly verified!"
  ]

  -- `main`, given the variable API_SECRET_KEY.
  unfoldable pub main : List ℕ → Script (Unit {0}) (Unit {0})
  unfolding secret_key check_signature check_tampered
  main env = do
    hmac_util ← must "Failed to create HMAC utility" (new_hmac (secret_key env) sha256 hex)
    signature ← must "Failed to sign message" (sign c hmac_util message)
    print ("Generated signature (SHA256, HEX): " <> signature)
    check_signature hmac_util signature
    hmac_util512 ← must "Failed to create HMAC utility" (new_hmac (secret_key env) sha512 base64)
    signature512 ← must "Failed to sign message with SHA512" (sign c hmac_util512 message)
    print ("Generated signature (SHA512, BASE64): " <> signature512)
    check_tampered hmac_util signature
