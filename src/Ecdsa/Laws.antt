-- ===== src/Ecdsa/Laws.antt =====
-- Round trips of signatures and of keys in files.
use huba.Common.{ℕ, String, ◌≡◌, inl, inr, true, some, List, ◌++◌, arith, ok, Fallible-cases}
use huba.Ecdsa.{
  EcdsaSignature, KeyPair, Block, Crypto, Files, generate_key_pair, sign, verify,
  encode_signature_base64, decode_signature_base64, save_block, save_private_key_to_pem,
  save_public_key_to_pem, load_block, load_private_key_from_pem, load_public_key_from_pem,
}

-- What the libraries promise: signatures verify, decoding undoes encoding, and `asn1.Unmarshal`
-- hands back what follows the value.
pub record IsSound (c : Crypto) : Type 0 where
  pub verify-sign :
      (rand : c.Random) (key : c.PrivateKey) (hash : List ℕ) (r s : c.BigInt)
      → c.sign_hash rand key hash ≡ ok (r, s)
      → c.verify_hash (c.public_of key) hash r s ≡ true
  pub unmarshal-marshal :
      (v : EcdsaSignature c.BigInt) (bytes rest : List ℕ)
      → c.marshal v ≡ ok bytes
      → c.unmarshal (bytes ++ rest) ≡ ok (v, rest)
  pub of-to_base64 : (bytes : List ℕ) → c.of_base64 (c.to_base64 bytes) ≡ ok bytes
  pub parse-marshal_private :
      (key : c.PrivateKey) (bytes : List ℕ)
      → c.marshal_private key ≡ ok bytes
      → c.parse_private bytes ≡ ok (some key)
  pub parse-marshal_public :
      (key : c.PublicKey) (bytes : List ℕ)
      → c.marshal_public key ≡ ok bytes
      → c.parse_public bytes ≡ ok (some key)
  pub pem_decode-encode :
      (block : Block) (text : List ℕ)
      → c.pem_encode block ≡ ok text
      → c.pem_decode text ≡ some block

-- A file that was created and written is read as it was written.
pub record IsFileSystem (f : Files) : Type 0 where
  pub read_file-write :
      (name : String) (permissions : ℕ) (text : List ℕ) (disk disk' disk'' : f.Disk)
      → f.create name permissions disk ≡ (disk', ok tt)
      → f.write name text disk' ≡ (disk'', ok tt)
      → f.read_file name disk'' ≡ ok text

module _ (c : Crypto) (sound : IsSound c) where
  -- What a key pair of `GenerateKeyPair` signs, its public key verifies, also after the way through
  -- Base64, and also where any bytes follow the signature.
  pub verify-sign_pair :
      (rand rand' : c.Random) (pair : KeyPair c.PrivateKey c.PublicKey)
      (message signature trailing : List ℕ)
      → generate_key_pair c rand ≡ ok pair
      → sign c rand' (some pair.private_key) message ≡ ok signature
      → (decode_signature_base64 c (encode_signature_base64 c signature) ≡ ok signature)
        × (verify c (some pair.public_key) message (signature ++ trailing) ≡ ok true)
  unfolding generate_key_pair sign verify encode_signature_base64 decode_signature_base64
  verify-sign_pair rand rand' pair message signature trailing generated signed =
      let hash = c.sha256 message in
      elim (Fallible-cases (c.generate rand)) [
        | inr (e, g) ↦ absurd (ground arith)
        | inl (key, g) ↦ elim (Fallible-cases (c.sign_hash rand' pair.private_key hash)) [
          | inr (e, h) ↦ absurd (ground arith)
          | inl ((r, s), h) ↦ ground (
            arith,
            sound.of-to_base64 signature,
            sound.verify-sign rand' pair.private_key hash r s,
            sound.unmarshal-marshal (record { r = r; s = s }) signature trailing,
          )
        ]
      ]

  module _ (f : Files) (lawful : IsFileSystem f) where
    load-save_block :
        (permissions : ℕ) (block : Block) (filename : String) (disk : f.Disk)
        → (save_block c f permissions block filename disk).1 ≡ ok tt
        → load_block c f filename (save_block c f permissions block filename disk).0 ≡ ok block
    unfolding save_block load_block
    load-save_block permissions block filename disk saved =
        let (disk', created) = f.create filename permissions disk in
        elim (Fallible-cases created) [
          | inr (e, q) ↦ absurd (ground arith)
          | inl (tt, q) ↦ elim (Fallible-cases (c.pem_encode block)) [
            | inr (e, q') ↦ absurd (ground arith)
            | inl (text, q') ↦ elim (Fallible-cases (f.write filename text disk').1) [
              | inr (e, q'') ↦ absurd (ground arith)
              | inl (tt, q'') ↦ ground (
                arith,
                lawful.read_file-write filename permissions text disk disk'
                    (f.write filename text disk').0,
                sound.pem_decode-encode block text,
              )
            ]
          ]
        ]

    -- A key that was saved without an error is loaded again as it was, whether private or public.
    pub load-save :
        (private_key : c.PrivateKey) (public_key : c.PublicKey) (name1 name2 : String)
        (disk : f.Disk)
        → (save_private_key_to_pem c f (some private_key) name1 disk).1 ≡ ok tt
        → (save_public_key_to_pem c f (some public_key) name2 disk).1 ≡ ok tt
        → (load_private_key_from_pem c f name1
              (save_private_key_to_pem c f (some private_key) name1 disk).0
            ≡ ok private_key)
          × (load_public_key_from_pem c f name2
                (save_public_key_to_pem c f (some public_key) name2 disk).0
              ≡ ok public_key)
    unfolding save_private_key_to_pem save_public_key_to_pem load_private_key_from_pem
        load_public_key_from_pem
    load-save private_key public_key name1 name2 disk saved1 saved2 = (
      elim (Fallible-cases (c.marshal_private private_key)) [
        | inr (e, q) ↦ absurd (ground arith)
        | inl (bytes, q) ↦ ground (
          arith,
          load-save_block 0o600 (record { type = "PRIVATE KEY"; bytes = bytes }) name1 disk,
          sound.parse-marshal_private private_key bytes,
        )
      ],
      elim (Fallible-cases (c.marshal_public public_key)) [
        | inr (e, q) ↦ absurd (ground arith)
        | inl (bytes, q) ↦ ground (
          arith,
          load-save_block 0o666 (record { type = "PUBLIC KEY"; bytes = bytes }) name2 disk,
          sound.parse-marshal_public public_key bytes,
        )
      ],
    )
