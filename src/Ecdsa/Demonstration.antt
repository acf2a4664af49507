-- ===== src/Ecdsa/Demonstration.antt =====
-- What the demonstration of the signatures prints.
use huba.Common.{
  ℕ, ◌<>◌, ◌≡◌, ap, ◌∙◌, ◌⊎◌, inl, inr, Bool, true, none, some, List, [], ◌∷◌, ok, err, Fallible,
  Fallible-cases,
}
use huba.Common.Script.{Script, ◌>>=◌, print, show_bool}
use mathlib.Core.List.{append-nil}
use huba.Ecdsa.{EcdsaError, KeyPair, Crypto, Files, generate_key_pair, sign, verify}
use huba.Ecdsa.Laws.{IsSound, verify-sign_pair}
use huba.Ecdsa.Service.{new_ecdsa_service}
use huba.Ecdsa.Example.{error_text, message, main, must}

-- The program from a point on, given what the call there returns.
module _ (c : Crypto) (f : Files) (rand' : c.Random) where
  abbrev verified : Fallible EcdsaError Bool → Script (Unit {0}) (Unit {0})
  verified o = do
    valid ← must "Failed to verify signature" o
    print ("Signature verified: " <> show_bool valid)

  abbrev signed :
      KeyPair c.PrivateKey c.PublicKey → Fallible EcdsaError (List ℕ) → Script (Unit {0}) (Unit {0})
  signed pair o = do
    signature ← must "Failed to sign message" o
    verified (verify c (some pair.public_key) message signature)

  abbrev generated :
      Fallible EcdsaError (KeyPair c.PrivateKey c.PublicKey) → Script (Unit {0}) (Unit {0})
  generated o = do
    pair ← must "Failed to generate key pair" o
    signed pair (sign c rand' (some pair.private_key) message)

-- The demonstration ends in one of three ways: it prints that the signature verifies, and that only;
-- or it ends with the error of generating the key pair, or of signing. It never fails to verify, and
-- never prints that a signature does not verify.
pub main_ends :
    (c : Crypto) (f : Files) (sound : IsSound c) (rand rand' : c.Random)
    → (main c f rand rand' tt ≡ (tt, "Signature verified: true" ∷ [], some tt))
      ⊎ ((e : EcdsaError) × (generate_key_pair c rand ≡ err e)
          × (main c f rand rand' tt
              ≡ (tt, ("Failed to generate key pair" <> ": " <> error_text e) ∷ [], none)))
      ⊎ ((pair : KeyPair c.PrivateKey c.PublicKey) × ((e : EcdsaError) × (sign c rand'
                (some pair.private_key)
                message
              ≡ err e)
            × (main c f rand rand' tt
                ≡ (tt, ("Failed to sign message" <> ": " <> error_text e) ∷ [], none))))
unfolding main new_ecdsa_service
main_ends c f sound rand rand' = elim (Fallible-cases (generate_key_pair c rand)) [
  | inr (e, g) ↦ inr (inl (e, g, ap (λ o. generated c f rand' o tt) g))
  | inl (pair, g) ↦
      let begun = ap (λ o. generated c f rand' o tt) g in
      elim (Fallible-cases (sign c rand' (some pair.private_key) message)) [
        | inr (e, h) ↦ inr (inr (pair, (e, h, begun ∙ ap (λ o. signed c f rand' pair o tt) h)))
        | inl (signature, h) ↦
            let valid = (verify-sign_pair c sound rand rand' pair message signature [] g h).1 in
            let same : verify c (some pair.public_key) message signature ≡ ok true =
              rw (append-nil signature) at valid in
            inl (
              begun
              ∙ ap (λ o. signed c f rand' pair o tt) h
              ∙ ap (λ o. verified c f rand' o tt) same)
      ]
]
