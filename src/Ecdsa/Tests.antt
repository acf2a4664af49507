-- ===== src/Ecdsa/Tests.antt =====
-- The theorems at a toy library and a disk that is a function.
use huba.Common.{◌⊎◌, none, ◌<>◌}
use huba.Ecdsa.{EcdsaError}
use huba.Ecdsa.Example.{error_text, message, main}
use huba.Ecdsa.Demonstration.{main_ends}
use huba.Common.{
  ℕ, zero, suc, ◌+◌, String, ◌≡◌, refl, ap, true, Option, none, some, List, [], ◌∷◌, arith, eq_iff,
  ◌==◌, str_eq, if◌then◌else◌, Fallible, ok, err,
}
use huba.Ecdsa.{
  EcdsaSignature, KeyPair, Block, Crypto, Files, generate_key_pair, sign, verify,
  encode_signature_base64, decode_signature_base64, save_private_key_to_pem, save_public_key_to_pem,
  load_private_key_from_pem, load_public_key_from_pem, save_block,
}
use huba.Ecdsa.Laws.{IsSound, IsFileSystem, verify-sign_pair, load-save}
use Prim.Native.Char.{code}

-- Each number as strokes and a comma.
abbrev marks : ℕ → String → String
marks zero rest = String.◌∷◌ "," rest
marks (suc n) rest = String.◌∷◌ "|" (marks n rest)

abbrev to_text : List ℕ → String
to_text [] = ""
to_text (n ∷ ns) = marks n (to_text ns)

abbrev of_text : ℕ → String → List ℕ
of_text n String.[] = []
of_text n (String.◌∷◌ c s) =
    let closed = n ∷ of_text 0 s in
    let longer = of_text (n + 1) s in if code c == b',' then closed else longer

of_text-marks :
    (n acc : ℕ) (rest : String) → of_text acc (marks n rest) ≡ (acc + n) ∷ of_text 0 rest
of_text-marks zero acc rest = ground arith
of_text-marks (suc n) acc rest = ground (arith, of_text-marks n (acc + 1) rest)

of-to_text : (ns : List ℕ) → of_text 0 (to_text ns) ≡ ns
of-to_text [] = refl
of-to_text (n ∷ ns) = ground (arith, of_text-marks n 0 (to_text ns), of-to_text ns)

abbrev two_numbers : List ℕ → Fallible String (EcdsaSignature ℕ × List ℕ)
two_numbers (r ∷ s ∷ rest) = ok (record { r = r; s = s }, rest)
two_numbers other = err "too short"

abbrev one_number : List ℕ → Fallible String (Option ℕ)
one_number (k ∷ rest) = ok (some k)
one_number [] = err "too short"

abbrev block_of : List ℕ → Option Block
block_of [] = none
block_of (zero ∷ bytes) = some (record { type = "PRIVATE KEY"; bytes = bytes })
block_of (suc n ∷ bytes) = some (record { type = "PUBLIC KEY"; bytes = bytes })

abbrev toy : Crypto
toy = record {
  PrivateKey = ℕ;
  PublicKey = ℕ;
  BigInt = ℕ;
  Random = ℕ;
  public_of = λ key. key;
  generate = λ rand. ok rand;
  sha256 = λ message. message;
  sign_hash = λ rand key hash. ok (key, rand);
  verify_hash = λ key hash r s. r == key;
  marshal = λ v. ok (v.r ∷ v.s ∷ []);
  unmarshal = two_numbers;
  marshal_private = λ key. ok (key ∷ []);
  parse_private = one_number;
  marshal_public = λ key. ok (key ∷ []);
  parse_public = one_number;
  pem_encode = λ b.
      if str_eq b.type "PRIVATE KEY"
      then ok (0 ∷ b.bytes)
      else if str_eq b.type "PUBLIC KEY"
      then ok (1 ∷ b.bytes)
      else err "type";
  pem_decode = block_of;
  to_base64 = to_text;
  of_base64 = λ text. ok (of_text 0 text);
}

toy-IsSound : IsSound toy
toy-IsSound = record {
  verify-sign = λ rand key hash r s h. ground arith;
  unmarshal-marshal = λ v bytes rest h. ground arith;
  of-to_base64 = λ bytes. ap ok (of-to_text bytes);
  parse-marshal_private = λ key bytes h. ground arith;
  parse-marshal_public = λ key bytes h. ground arith;
  pem_decode-encode = λ block text h.
      ground (arith, eq_iff block.type "PRIVATE KEY", eq_iff block.type "PUBLIC KEY");
}

abbrev disks : Files
disks = record {
  Disk = String → List ℕ;
  create = λ name permissions disk. ((λ j. if str_eq name j then [] else disk j), ok tt);
  write = λ name text disk. ((λ j. if str_eq name j then text else disk j), ok tt);
  read_file = λ name disk. ok (disk name);
}

disks-IsFileSystem : IsFileSystem disks
disks-IsFileSystem = record {
  read_file-write = λ name permissions text disk disk' disk'' h h'.
      let there : (if str_eq name name then text else disk' name) ≡ disk'' name =
        ap (λ (p : (String → List ℕ) × Fallible String (Unit {0})). p.0 name) h' in
      ground (arith, eq_iff name name);
}

abbrev pair : KeyPair ℕ ℕ
pair = record { private_key = 5; public_key = 5 }

pair_generated : generate_key_pair toy 5 ≡ ok pair
unfolding generate_key_pair
pair_generated = refl

pair_signed : sign toy 8 (some 5) (1 ∷ 2 ∷ []) ≡ ok (5 ∷ 8 ∷ [])
unfolding sign
pair_signed = refl

verify-sign_pair_example :
    (decode_signature_base64 toy (encode_signature_base64 toy (5 ∷ 8 ∷ [])) ≡ ok (5 ∷ 8 ∷ []))
    × (verify toy (some 5) (1 ∷ 2 ∷ []) (5 ∷ 8 ∷ 9 ∷ []) ≡ ok true)
verify-sign_pair_example =
    verify-sign_pair toy toy-IsSound 5 8 pair (1 ∷ 2 ∷ []) (5 ∷ 8 ∷ []) (9 ∷ []) pair_generated
      pair_signed

abbrev blank : String → List ℕ
blank name = []

private_saved : (save_private_key_to_pem toy disks (some 5) "key.pem" blank).1 ≡ ok tt
unfolding save_private_key_to_pem save_block
private_saved = refl

public_saved : (save_public_key_to_pem toy disks (some 6) "pub.pem" blank).1 ≡ ok tt
unfolding save_public_key_to_pem save_block
public_saved = refl

load-save_example :
    (load_private_key_from_pem toy disks "key.pem"
        (save_private_key_to_pem toy disks (some 5) "key.pem" blank).0
      ≡ ok 5)
    × (load_public_key_from_pem toy disks "pub.pem"
          (save_public_key_to_pem toy disks (some 6) "pub.pem" blank).0
        ≡ ok 6)
load-save_example =
    load-save toy toy-IsSound disks disks-IsFileSystem 5 6 "key.pem" "pub.pem" blank private_saved
      public_saved

main_ends_example :
    (main toy disks 5 8 tt ≡ (tt, "Signature verified: true" ∷ [], some tt))
    ⊎ ((e : EcdsaError) × (generate_key_pair toy 5 ≡ err e)
        × (main toy disks 5 8 tt
            ≡ (tt, ("Failed to generate key pair" <> ": " <> error_text e) ∷ [], none)))
    ⊎ ((p : KeyPair ℕ ℕ) × ((e : EcdsaError) × (sign toy 8 (some p.private_key) message ≡ err e)
          × (main toy disks 5 8 tt
              ≡ (tt, ("Failed to sign message" <> ": " <> error_text e) ∷ [], none))))
main_ends_example = main_ends toy disks toy-IsSound 5 8
