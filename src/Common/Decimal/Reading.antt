-- ===== src/Common/Decimal/Reading.antt =====
-- Decimal texts are read back, so that different numbers have different ones.
use Prim.Native.Nat.{ℕ, zero, suc, ◌+◌, ◌-◌, ◌*◌, ◌/◌, ◌%◌, ◌^◌, ◌<◌}
use Prim.Native.Char.{code}
use Prim.Native.String.{String, ◌++◌ as ◌<>◌}
use mathlib.Core.Path.{◌≡◌, sym, ap, ◌∙◌}
use mathlib.Core.Logic.{inl, inr}
use native.Mathlib.Omega.{arith}
use text.Mathlib.TextLemmas.{nil-append, cons-append}
use native.Mathlib.Nat.{pow-succ'}
use huba.Common.Tests.{ltb, Bool-cases, ltb→lt}
use huba.Common.Int.{pos}
use huba.Common.Decimal.{digit, decimal_digits, decimal, format_int}

-- The number that a text of digits stands for, after the digits of `acc`.
pub read_digits : ℕ → String → ℕ
read_digits acc String.[] = acc
read_digits acc (String.◌∷◌ c s) = read_digits (acc * 10 + (code c - 48)) s

read_digits-append :
    (acc : ℕ) (s t : String) → read_digits acc (s <> t) ≡ read_digits (read_digits acc s) t
unfolding read_digits
read_digits-append acc String.[] t = ap (read_digits acc) (nil-append t)
read_digits-append acc (String.◌∷◌ c s) t =
    ap (read_digits acc) (cons-append c s t) ∙ read_digits-append (acc * 10 + (code c - 48)) s t

read_digits-digit : (acc d : ℕ) → d < 10 → read_digits acc (digit d) ≡ acc * 10 + d
unfolding read_digits digit
read_digits-digit acc zero h = omega arith
read_digits-digit acc (suc zero) h = omega arith
read_digits-digit acc (suc (suc zero)) h = omega arith
read_digits-digit acc (suc (suc (suc zero))) h = omega arith
read_digits-digit acc (suc (suc (suc (suc zero)))) h = omega arith
read_digits-digit acc (suc (suc (suc (suc (suc zero))))) h = omega arith
read_digits-digit acc (suc (suc (suc (suc (suc (suc zero)))))) h = omega arith
read_digits-digit acc (suc (suc (suc (suc (suc (suc (suc zero))))))) h = omega arith
read_digits-digit acc (suc (suc (suc (suc (suc (suc (suc (suc zero)))))))) h = omega arith
read_digits-digit acc (suc (suc (suc (suc (suc (suc (suc (suc (suc zero))))))))) h = omega arith
read_digits-digit acc (suc (suc (suc (suc (suc (suc (suc (suc (suc (suc d)))))))))) h =
    absurd (omega arith)

read-decimal_digits : (f n : ℕ) → n < 10 ^ f → read_digits 0 (decimal_digits f n) ≡ n
unfolding decimal_digits read_digits
read-decimal_digits zero n h = omega arith
read-decimal_digits (suc f) n h = elim (Bool-cases (ltb n 10)) [
  | inl e ↦ rw e (read_digits-digit 0 n (ltb→lt n 10 e) ∙ omega arith)
  | inr e ↦ rw e (
      read_digits-append 0 (decimal_digits f (n / 10)) (digit (n % 10))
      ∙ read_digits-digit (read_digits 0 (decimal_digits f (n / 10))) (n % 10) (omega arith)
      ∙ omega (arith, read-decimal_digits f (n / 10) (omega (arith, pow-succ' 10 f, h))))
]

-- An int64 has at most nineteen digits.
pub format_int-injective :
    (m n : ℕ) → m < 2 ^ 64 → n < 2 ^ 64 → format_int (pos m) ≡ format_int (pos n) → m ≡ n
unfolding format_int decimal
format_int-injective m n hm hn e =
    sym (read-decimal_digits 20 m (omega arith))
    ∙ ap (read_digits 0) e
    ∙ read-decimal_digits 20 n (omega arith)
