-- ===== src/Hmac/Tests.antt =====
-- The theorems at a toy hash.
use huba.Common.{
  ℕ, ◌≡◌, ◌↔◌, ◌⊎◌, false, none, some, [], ◌∷◌, ◌==◌, str_eq, if◌then◌else◌, length, ok,
}
use huba.Hmac.{invalid_message, invalid_signature, sha256, hex, Hmac, Crypto, sign, verify}
use huba.Hmac.Laws.{verify_iff_sign}

abbrev toy : Crypto
toy = record {
  mac_sha256 = λ key message. length message ∷ [];
  mac_sha512 = λ key message. length key ∷ [];
  to_hex = λ bytes. if length bytes == 1 then "ab" else "";
  to_base64 = λ bytes. "AB==";
}

abbrev signer : Hmac
signer = record { key = 1 ∷ []; algorithm = sha256; encoding = hex }

verify_iff_sign_example :
    ((verify toy signer (7 ∷ []) "ab" ≡ none)
      ↔ ((sign toy signer (7 ∷ []) ≡ ok "ab") × (str_eq "ab" "" ≡ false)))
    × ((verify toy signer (7 ∷ []) "ab" ≡ some invalid_message) ↔ (◌≡◌ {A = ℕ} 1 0))
    × ((verify toy signer (7 ∷ []) "ab" ≡ none)
        ⊎ (verify toy signer (7 ∷ []) "ab" ≡ some invalid_message)
        ⊎ (verify toy signer (7 ∷ []) "ab" ≡ some invalid_signature))
verify_iff_sign_example = verify_iff_sign toy signer (7 ∷ []) "ab"
