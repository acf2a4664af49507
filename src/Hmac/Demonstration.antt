-- ===== src/Hmac/Demonstration.antt =====
-- What the demonstration of the HMAC utility prints.
use huba.Common.{
  ℕ, ◌<>◌, ◌≡◌, false, none, some, List, [], ◌∷◌, arith, eq_iff, str_eq, if◌then◌else◌,
}
use huba.Hmac.{Crypto, new_hmac, sign, verify}
use huba.Hmac.Example.{message, tampered_message, secret_key, main}

module _ (c : Crypto) where
  -- The demonstration, for every value of the variable API_SECRET_KEY, where the first signature is
  -- not empty: it prints both signatures and that the first verifies. Its last line is the expected
  -- failure on the tampered message where the hashes of the two messages are encoded differently,
  -- and otherwise the security error, which ends it.
  demonstration_lem :
      (env : List ℕ)
      → let signature = c.to_hex (c.mac_sha256 (secret_key env) message) in
        let tampered = c.to_hex (c.mac_sha256 (secret_key env) tampered_message) in
        str_eq signature "" ≡ false
        → main c env tt ≡ (
          tt,
          ("Generated signature (SHA256, HEX): " <> signature)
              ∷ "Signature verified successfully!"
              ∷ ("Generated signature (SHA512, BASE64): "
                  <> c.to_base64 (c.mac_sha512 (secret_key env) message))
              ∷ (if str_eq tampered signature
                  then "Security error: Tampered message was incorrectly verified!"
                  else "Expected failure on tampered message: hmac: invalid signature")
              ∷ [],
          if str_eq tampered signature then none else some tt,
        )
  unfolding main secret_key new_hmac sign verify
  demonstration_lem env filled =
      let signature = c.to_hex (c.mac_sha256 (secret_key env) message) in
      let tampered = c.to_hex (c.mac_sha256 (secret_key env) tampered_message) in
      ground
        (arith, eq_iff signature signature, eq_iff signature tampered, eq_iff tampered signature)
