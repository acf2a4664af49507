-- ===== src/Common/Calls.antt =====
-- Calls that return `(value, error)` in the source: a value or an error, never both.
use mathlib.Core.Path.{◌≡◌, refl}
use mathlib.Core.Logic.{◌⊎◌, inl, inr}

pub data Fallible (E : Type 0) (A : Type 0) : Type 0 where
  ok : A → Fallible E A
  err : E → Fallible E A

infixl 5 ◌>>=◌ ◌>>◌
abbrev pub ◌>>=◌ : {E A B : Type 0} → Fallible E A → (A → Fallible E B) → Fallible E B
ok a >>= f = f a
err e >>= f = err e

abbrev pub ◌>>◌ : {E B : Type 0} → Fallible E (Unit {0}) → Fallible E B → Fallible E B
m >> k = m >>= λ _. k

-- `fmt.Errorf("…: %w", err)`: the same call with its error wrapped.
abbrev pub map_err : {E F A : Type 0} → (E → F) → Fallible E A → Fallible F A
map_err f (ok a) = ok a
map_err f (err e) = err (f e)

pub Fallible-cases :
    {E A : Type 0} (m : Fallible E A) → ((a : A) × (m ≡ ok a)) ⊎ ((e : E) × (m ≡ err e))
Fallible-cases (ok a) = inl (a, refl)
Fallible-cases (err e) = inr (e, refl)
