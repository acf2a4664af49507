-- ===== src/Ecdsa/Service.antt =====
-- cryptoutils/ecdsa/ecdsa.go: the interface `ECDSAService` and its default implementation, whose
-- methods call the package's functions.
use huba.Common.{ℕ, String, Bool, Option, List, Fallible}
use huba.Ecdsa.{
  EcdsaError, KeyPair, Crypto, Files, generate_key_pair, sign, verify, encode_signature_base64,
  decode_signature_base64, save_private_key_to_pem, save_public_key_to_pem,
  load_private_key_from_pem, load_public_key_from_pem,
}

pub record EcdsaService (c : Crypto) (f : Files) : Type 0 where
  pub generate_key_pair : c.Random → Fallible EcdsaError (KeyPair c.PrivateKey c.PublicKey)
  pub sign : c.Random → Option c.PrivateKey → List ℕ → Fallible EcdsaError (List ℕ)
  pub verify : Option c.PublicKey → List ℕ → List ℕ → Fallible EcdsaError Bool
  pub save_private_key_to_pem :
      Option c.PrivateKey → String → f.Disk → f.Disk × Fallible EcdsaError (Unit {0})
  pub load_private_key_from_pem : String → f.Disk → Fallible EcdsaError c.PrivateKey
  pub save_public_key_to_pem :
      Option c.PublicKey → String → f.Disk → f.Disk × Fallible EcdsaError (Unit {0})
  pub load_public_key_from_pem : String → f.Disk → Fallible EcdsaError c.PublicKey
  pub encode_signature_base64 : List ℕ → String
  pub decode_signature_base64 : String → Fallible String (List ℕ)

unfoldable pub new_ecdsa_service : (c : Crypto) (f : Files) → EcdsaService c f
new_ecdsa_service c f = record {
  generate_key_pair = generate_key_pair c;
  sign = sign c;
  verify = verify c;
  save_private_key_to_pem = save_private_key_to_pem c f;
  load_private_key_from_pem = load_private_key_from_pem c f;
  save_public_key_to_pem = save_public_key_to_pem c f;
  load_public_key_from_pem = load_public_key_from_pem c f;
  encode_signature_base64 = encode_signature_base64 c;
  decode_signature_base64 = decode_signature_base64 c;
}
