-- ===== src/Common/Lists.antt =====
-- Lists measured and indexed by native numbers, under the library's names.
use Prim.Native.Nat.{ℕ, zero, suc, ◌+◌, ◌<◌}
use mathlib.Core.Path.{◌≡◌, refl, ap}
use mathlib.Core.Logic.{◌≢◌}
use mathlib.Core.List.{List, [], ◌∷◌, ◌++◌}
use mathlib.Core.Option.{Option, none, some}
use native.Mathlib.Omega.{arith}

module _ {ℓ} {A : Type ℓ} where
  abbrev pub length : List A → ℕ
  length [] = 0
  length (x ∷ xs) = suc (length xs)

  abbrev pub get_elem? : List A → ℕ → Option A
  get_elem? [] i = none
  get_elem? (x ∷ xs) zero = some x
  get_elem? (x ∷ xs) (suc i) = get_elem? xs i

  -- A write out of bounds changes nothing.
  abbrev pub set : List A → ℕ → A → List A
  set [] i v = []
  set (x ∷ xs) zero v = v ∷ xs
  set (x ∷ xs) (suc i) v = x ∷ set xs i v

  -- The list without the element at a position.
  abbrev pub erase_idx : List A → ℕ → List A
  erase_idx [] i = []
  erase_idx (x ∷ xs) zero = xs
  erase_idx (x ∷ xs) (suc i) = x ∷ erase_idx xs i

  abbrev pub replicate : ℕ → A → List A
  replicate zero a = []
  replicate (suc n) a = a ∷ replicate n a

  abbrev pub take : ℕ → List A → List A
  take zero xs = []
  take (suc n) [] = []
  take (suc n) (x ∷ xs) = x ∷ take n xs

  -- Every element meets the predicate.
  abbrev pub All {κ} : (A → Type κ) → List A → Type κ
  All P [] = Unit
  All P (x ∷ xs) = P x × All P xs

module _ {ℓ} {A : Type ℓ} where
  pub length-append : (xs ys : List A) → length (xs ++ ys) ≡ length xs + length ys
  length-append [] ys = omega arith
  length-append (x ∷ xs) ys = omega (arith, length-append xs ys)

  pub length-set : (xs : List A) (i : ℕ) (v : A) → length (set xs i v) ≡ length xs
  length-set [] i v = refl
  length-set (x ∷ xs) zero v = refl
  length-set (x ∷ xs) (suc i) v = ap suc (length-set xs i v)

  pub length-replicate : (n : ℕ) (a : A) → length (replicate n a) ≡ n
  length-replicate zero a = refl
  length-replicate (suc n) a = ap suc (length-replicate n a)

  pub length-erase_idx :
      (xs : List A) (i : ℕ) {a : A}
      → get_elem? xs i ≡ some a
      → length (erase_idx xs i) + 1 ≡ length xs
  length-erase_idx [] i h = absurd (ground arith)
  length-erase_idx (x ∷ xs) zero h = omega arith
  length-erase_idx (x ∷ xs) (suc i) h = omega (arith, length-erase_idx xs i h)

module _ {ℓ} {A : Type ℓ} where
  pub get_elem?-set_self :
      (xs : List A) (i : ℕ) {x : A} (v : A)
      → get_elem? xs i ≡ some x
      → get_elem? (set xs i v) i ≡ some v
  get_elem?-set_self [] i v h = absurd (ground arith)
  get_elem?-set_self (y ∷ xs) zero v h = refl
  get_elem?-set_self (y ∷ xs) (suc i) v h = get_elem?-set_self xs i v h

  pub set-set : (xs : List A) (i : ℕ) (u v : A) → set (set xs i u) i v ≡ set xs i v
  set-set [] i u v = refl
  set-set (y ∷ xs) zero u v = refl
  set-set (y ∷ xs) (suc i) u v = ap (λ (t : List A). y ∷ t) (set-set xs i u v)

  pub set-get_elem? : (xs : List A) (i : ℕ) (v : A) → get_elem? xs i ≡ some v → set xs i v ≡ xs
  set-get_elem? [] i v h = refl
  set-get_elem? (y ∷ xs) zero v h = ground arith
  set-get_elem? (y ∷ xs) (suc i) v h = ap (λ (t : List A). y ∷ t) (set-get_elem? xs i v h)

  pub get_elem?-below : (ws : List A) (i : ℕ) → i < length ws → (w : A) × (get_elem? ws i ≡ some w)
  get_elem?-below [] i h = absurd (omega arith)
  get_elem?-below (w ∷ ws) zero h = (w, refl)
  get_elem?-below (w ∷ ws) (suc i) h = get_elem?-below ws i (omega arith)

  pub get_elem?-set_ne :
      (ws : List A) (i j : ℕ) (v : A) → j ≢ i → get_elem? (set ws i v) j ≡ get_elem? ws j
  get_elem?-set_ne [] i j v h = refl
  get_elem?-set_ne (w ∷ ws) zero zero v h = absurd (h refl)
  get_elem?-set_ne (w ∷ ws) zero (suc j) v h = refl
  get_elem?-set_ne (w ∷ ws) (suc i) zero v h = refl
  get_elem?-set_ne (w ∷ ws) (suc i) (suc j) v h = get_elem?-set_ne ws i j v (λ e. h (ap suc e))
