-- ===== src/Ecdsa.antt =====
-- cryptoutils/ecdsa/ecdsa.go. The cryptographic library, its encodings and the files of the operating
-- system are parameters. A nil key is `none`.
pub mod Laws
pub mod Service
pub mod Example
pub mod Demonstration
mod Tests
use huba.Common.{
  ℕ, zero, suc, ◌+◌, ◌-◌, ◌*◌, ◌/◌, ◌%◌, ◌^◌, ◌≤◌, ◌<◌, String, ◌<>◌, ◌≡◌, refl, sym, ap, ◌∙◌, ◌≢◌,
  ◌↔◌, ◌⊎◌, inl, inr, Bool, true, false, not, ◌&&◌, ◌||◌, Option, none, some, List, [], ◌∷◌, ◌++◌,
  map, arith, eq_iff, eq_refl, ltb, leb, ◌==◌, str_eq, if◌then◌else◌, ltb→lt, lt→ltb, leb→le,
  ==_iff, tests, Bool-cases, Option-cases, is_some, length, get_elem?, set, erase_idx, take,
  replicate, All, length-append, length-set, length-replicate, length-erase_idx, Fallible, ok, err,
  ◌>>=◌, ◌>>◌, map_err, Fallible-cases,
}

-- The errors, each with the error that it wraps.
pub data EcdsaError : Type 0 where
  private_key_nil public_key_nil no_pem_block not_ecdsa_key : EcdsaError
  generate_failed sign_failed marshal_failed unmarshal_failed : String → EcdsaError
  key_marshal_failed create_failed write_failed read_failed parse_failed : String → EcdsaError

pub record EcdsaSignature (BigInt : Type 0) : Type 0 where
  pub r : BigInt
  pub s : BigInt

pub record KeyPair (PrivateKey PublicKey : Type 0) : Type 0 where
  pub private_key : PrivateKey
  pub public_key : PublicKey

-- `pem.Block` without headers.
pub record Block : Type 0 where
  pub type : String
  pub bytes : List ℕ

-- crypto/ecdsa with P-256, SHA-256, encoding/asn1, x509, pem and base64. What the random source
-- gives is an argument. A parsed key is `none` where it is of another kind than ECDSA.
pub record Crypto : Type 1 where
  pub PrivateKey : Type 0
  pub PublicKey : Type 0
  pub BigInt : Type 0
  pub Random : Type 0
  pub public_of : PrivateKey → PublicKey
  pub generate : Random → Fallible String PrivateKey
  pub sha256 : List ℕ → List ℕ
  pub sign_hash : Random → PrivateKey → List ℕ → Fallible String (BigInt × BigInt)
  pub verify_hash : PublicKey → List ℕ → BigInt → BigInt → Bool
  pub marshal : EcdsaSignature BigInt → Fallible String (List ℕ)
  pub unmarshal : List ℕ → Fallible String (EcdsaSignature BigInt × List ℕ)
  pub marshal_private : PrivateKey → Fallible String (List ℕ)
  pub parse_private : List ℕ → Fallible String (Option PrivateKey)
  pub marshal_public : PublicKey → Fallible String (List ℕ)
  pub parse_public : List ℕ → Fallible String (Option PublicKey)
  pub pem_encode : Block → Fallible String (List ℕ)
  pub pem_decode : List ℕ → Option Block
  pub to_base64 : List ℕ → String
  pub of_base64 : String → Fallible String (List ℕ)

-- Files: `create` opens for writing with permissions, empty; `write` fills the file that is open.
pub record Files : Type 1 where
  pub Disk : Type 0
  pub create : String → ℕ → Disk → Disk × Fallible String (Unit {0})
  pub write : String → List ℕ → Disk → Disk × Fallible String (Unit {0})
  pub read_file : String → Disk → Fallible String (List ℕ)

module _ (c : Crypto) where
  unfoldable pub generate_key_pair :
      c.Random → Fallible EcdsaError (KeyPair c.PrivateKey c.PublicKey)
  generate_key_pair rand = elim (c.generate rand) [
    | err e ↦ err (generate_failed e)
    | ok key ↦ ok (record { private_key = key; public_key = c.public_of key })
  ]

  unfoldable pub sign : c.Random → Option c.PrivateKey → List ℕ → Fallible EcdsaError (List ℕ)
  sign rand none message = err private_key_nil
  sign rand (some key) message = do
    (r, s) ← map_err sign_failed (c.sign_hash rand key (c.sha256 message))
    map_err marshal_failed (c.marshal (record { r = r; s = s }))

  unfoldable pub verify : Option c.PublicKey → List ℕ → List ℕ → Fallible EcdsaError Bool
  verify none message signature = err public_key_nil
  verify (some key) message signature = do
    (parsed, rest) ← map_err unmarshal_failed (c.unmarshal signature)
    ok (c.verify_hash key (c.sha256 message) parsed.r parsed.s)

  unfoldable pub encode_signature_base64 : List ℕ → String
  encode_signature_base64 signature = c.to_base64 signature

  unfoldable pub decode_signature_base64 : String → Fallible String (List ℕ)
  decode_signature_base64 encoded = c.of_base64 encoded

  module _ (f : Files) where
    -- From the file's creation on, which both kinds of keys share.
    unfoldable pub save_block :
        ℕ → Block → String → f.Disk → f.Disk × Fallible EcdsaError (Unit {0})
    save_block permissions block filename disk =
        let (disk', created) = f.create filename permissions disk in
        elim created [
          | err e ↦ (disk', err (create_failed e))
          | ok done ↦ elim (c.pem_encode block) [
            | err e ↦ (disk', err (write_failed e))
            | ok text ↦
                let (disk'', written) = f.write filename text disk' in
                (disk'', map_err write_failed written)
          ]
        ]

    unfoldable pub save_private_key_to_pem :
        Option c.PrivateKey → String → f.Disk → f.Disk × Fallible EcdsaError (Unit {0})
    save_private_key_to_pem none filename disk = (disk, err private_key_nil)
    save_private_key_to_pem (some key) filename disk = elim (c.marshal_private key) [
      | err e ↦ (disk, err (key_marshal_failed e))
      | ok bytes ↦ save_block 0o600 (record { type = "PRIVATE KEY"; bytes = bytes }) filename disk
    ]

    unfoldable pub save_public_key_to_pem :
        Option c.PublicKey → String → f.Disk → f.Disk × Fallible EcdsaError (Unit {0})
    save_public_key_to_pem none filename disk = (disk, err public_key_nil)
    save_public_key_to_pem (some key) filename disk = elim (c.marshal_public key) [
      | err e ↦ (disk, err (key_marshal_failed e))
      | ok bytes ↦ save_block 0o666 (record { type = "PUBLIC KEY"; bytes = bytes }) filename disk
    ]

    -- From the read to the PEM block.
    unfoldable pub load_block : String → f.Disk → Fallible EcdsaError Block
    load_block filename disk = do
      text ← map_err read_failed (f.read_file filename disk)
      elim (c.pem_decode text) [ none ↦ err no_pem_block | some block ↦ ok block ]

    abbrev pub ecdsa_key : {K : Type 0} → Option K → Fallible EcdsaError K
    ecdsa_key none = err not_ecdsa_key
    ecdsa_key (some key) = ok key

    unfoldable pub load_private_key_from_pem : String → f.Disk → Fallible EcdsaError c.PrivateKey
    load_private_key_from_pem filename disk = do
      block ← load_block filename disk
      parsed ← map_err parse_failed (c.parse_private block.bytes)
      ecdsa_key parsed

    unfoldable pub load_public_key_from_pem : String → f.Disk → Fallible EcdsaError c.PublicKey
    load_public_key_from_pem filename disk = do
      block ← load_block filename disk
      parsed ← map_err parse_failed (c.parse_public block.bytes)
      ecdsa_key parsed
