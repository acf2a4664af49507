-- ===== src/Common/Decimal.antt =====
-- `%d` of `fmt.Sprintf` and `strconv.FormatInt(n, 10)`.
pub mod Reading
use Prim.Native.Nat.{ℕ, zero, suc, ◌/◌, ◌%◌}
use Prim.Native.String.{String, ◌++◌ as ◌<>◌}
use huba.Common.Tests.{ltb, ◌==◌, if◌then◌else◌}
use huba.Common.Int.{ℤ, pos, negsuc}

digit : ℕ → String
digit d =
    if d == 0
    then "0"
    else if d == 1
    then "1"
    else if d == 2
    then "2"
    else if d == 3
    then "3"
    else if d == 4
    then "4"
    else if d == 5
    then "5"
    else if d == 6
    then "6"
    else if d == 7
    then "7"
    else if d == 8
    then "8"
    else "9"

-- With fuel for the digits.
decimal_digits : ℕ → ℕ → String
decimal_digits zero n = ""
decimal_digits (suc f) n =
    let rest = decimal_digits f (n / 10) in if ltb n 10 then digit n else rest <> digit (n % 10)

-- An int64 has at most nineteen digits.
decimal : ℕ → String
unfolding decimal_digits digit
decimal n = decimal_digits 20 n

unfoldable pub format_int : ℤ → String
unfolding decimal
format_int (pos n) = decimal n
format_int (negsuc n) = "-" <> decimal (suc n)
