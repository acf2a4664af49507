-- ===== src/Hmac.antt =====
-- cryptoutils/hmac/hmac.go. The hash functions and the text encodings of Go's library are
-- parameters.
pub mod Laws
pub mod Example
pub mod Demonstration
mod Tests
use huba.Common.{
  ℕ, zero, suc, ◌+◌, ◌-◌, ◌*◌, ◌/◌, ◌%◌, ◌^◌, ◌≤◌, ◌<◌, String, ◌<>◌, ◌≡◌, refl, sym, ap, ◌∙◌, ◌≢◌,
  ◌↔◌, ◌⊎◌, inl, inr, Bool, true, false, not, ◌&&◌, ◌||◌, Option, none, some, List, [], ◌∷◌, ◌++◌,
  map, arith, eq_iff, eq_refl, ltb, leb, ◌==◌, str_eq, if◌then◌else◌, ltb→lt, lt→ltb, leb→le,
  ==_iff, tests, Bool-cases, Option-cases, is_some, length, get_elem?, set, erase_idx, take,
  replicate, All, length-append, length-set, length-replicate, length-erase_idx, Fallible, ok, err,
  ◌>>=◌, ◌>>◌, map_err, Fallible-cases,
}

pub data HmacError : Type 0 where
  invalid_key invalid_message invalid_signature : HmacError

-- `HashAlgorithm` and `Encoding` are integers: `other` is any value without a name.
pub data HashAlgorithm : Type 0 where
  sha256 sha512 other : HashAlgorithm

pub data Encoding : Type 0 where
  hex base64 other : Encoding

pub record Hmac : Type 0 where
  pub key : List ℕ
  pub algorithm : HashAlgorithm
  pub encoding : Encoding

-- `hmac.New` with each hash, applied to a key and a message, and the two encodings.
pub record Crypto : Type 0 where
  pub mac_sha256 : List ℕ → List ℕ → List ℕ
  pub mac_sha512 : List ℕ → List ℕ → List ℕ
  pub to_hex : List ℕ → String
  pub to_base64 : List ℕ → String

unfoldable pub new_hmac : List ℕ → HashAlgorithm → Encoding → Fallible HmacError Hmac
new_hmac key algorithm encoding =
    if length key == 0
    then err invalid_key
    else ok (record { key = key; algorithm = algorithm; encoding = encoding })

module _ (c : Crypto) where
  -- `getHashFunc`
  unfoldable pub mac_of : HashAlgorithm → List ℕ → List ℕ → List ℕ
  mac_of sha512 = c.mac_sha512
  mac_of _ = c.mac_sha256

  unfoldable pub encode : Encoding → List ℕ → String
  encode base64 = c.to_base64
  encode _ = c.to_hex

  unfoldable pub sign : Hmac → List ℕ → Fallible HmacError String
  unfolding encode mac_of
  sign h message =
      if length message == 0
      then err invalid_message
      else ok (encode h.encoding (mac_of h.algorithm h.key message))

  -- The error of `Verify`; `none` is nil.
  unfoldable pub verify : Hmac → List ℕ → String → Option HmacError
  verify h message provided =
      if length message == 0
      then some invalid_message
      else if str_eq provided ""
      then some invalid_signature
      else elim (sign h message) [
        | err e ↦ some e
        | ok expected ↦ if not (str_eq expected provided) then some invalid_signature else none
      ]

-- `decode`, over the decoders of the two encodings; nothing in the package calls it.
unfoldable pub decode :
    (of_hex of_base64 : String → Fallible String (List ℕ))
    → Encoding
    → String
    → Fallible String (List ℕ)
decode of_hex of_base64 base64 = of_base64
decode of_hex of_base64 _ = of_hex
