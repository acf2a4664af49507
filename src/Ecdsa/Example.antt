-- ===== src/Ecdsa/Example.antt =====
-- cryptoutils/ecdsa/example/main.go. What the random source gives is an argument.
use huba.Common.{ℕ, String, ◌<>◌, some, List, Fallible, ok, err}
use huba.Common.Script.{Script, ◌>>=◌, pure, print, fatal, show_bool, codes}
use huba.Ecdsa.{
  EcdsaError, private_key_nil, public_key_nil, generate_failed, sign_failed, marshal_failed,
  unmarshal_failed, Crypto, Files,
}
use huba.Ecdsa.Service.{new_ecdsa_service}

-- The texts of the errors; those of files and keys do not reach this program.
abbrev pub error_text : EcdsaError → String
error_text private_key_nil = "private key cannot be nil"
error_text public_key_nil = "public key cannot be nil"
error_text (generate_failed e) = "failed to generate ECDSA key pair: " <> e
error_text (sign_failed e) = "failed to sign message: " <> e
error_text (marshal_failed e) = "failed to marshal signature: " <> e
error_text (unmarshal_failed e) = "failed to unmarshal signature: " <> e
error_text e = ""

-- `if err != nil { log.Fatalf(…) }`
abbrev pub must : {A : Type 0} → String → Fallible EcdsaError A → Script (Unit {0}) A
must what (ok a) = pure a
must what (err e) = fatal (what <> ": " <> error_text e)

abbrev pub message : List ℕ
message = codes "This is a secure message"

module _ (c : Crypto) (f : Files) where
  unfoldable pub main : c.Random → c.Random → Script (Unit {0}) (Unit {0})
  unfolding new_ecdsa_service
  main rand rand' = do
    let service = new_ecdsa_service c f
    key_pair ← must "Failed to generate key pair" (service.generate_key_pair rand)
    signature ←
        must "Failed to sign message" (service.sign rand' (some key_pair.private_key) message)
    valid ←
        must "Failed to verify signature"
          (service.verify (some key_pair.public_key) message signature)
    print ("Signature verified: " <> show_bool valid)
