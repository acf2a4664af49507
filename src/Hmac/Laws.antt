-- ===== src/Hmac/Laws.antt =====
-- When a signature is accepted.
use huba.Common.{
  ℕ, String, ◌≡◌, ◌↔◌, ◌⊎◌, false, none, some, List, arith, eq_iff, str_eq, length, ok,
}
use huba.Hmac.{invalid_message, invalid_signature, Hmac, Crypto, mac_of, encode, sign, verify}

module _ (c : Crypto) where
  -- `Verify` accepts exactly the signature that `Sign` makes of the same message under the same key
  -- and settings, if that is not empty; for an empty message it returns `ErrInvalidMessage`, and in
  -- every other case `ErrInvalidSignature`.
  pub verify_iff_sign :
      (h : Hmac) (message : List ℕ) (provided : String)
      → ((verify c h message provided ≡ none)
          ↔ ((sign c h message ≡ ok provided) × (str_eq provided "" ≡ false)))
        × ((verify c h message provided ≡ some invalid_message) ↔ (length message ≡ 0))
        × ((verify c h message provided ≡ none)
            ⊎ (verify c h message provided ≡ some invalid_message)
            ⊎ (verify c h message provided ≡ some invalid_signature))
  unfolding verify sign
  verify_iff_sign h message provided = ground (
    arith,
    eq_iff provided "",
    eq_iff (encode c h.encoding (mac_of c h.algorithm h.key message)) provided,
  )
