-- ===== src/Prelude/Decimal.antt =====
-- Go's `%d` on an `int64`.
use Prim.Native.Nat.{ℕ, zero, suc, ◌/◌, ◌%◌}
use Prim.Native.String
use pay_fast_processor.Prelude.Tests.{ltb, eqb, if◌then◌else◌}
use pay_fast_processor.Prelude.Int.{ℤ, pos, negsuc}

abbrev digit : ℕ → String.String
digit n =
    if eqb n 0
    then "0"
    else if eqb n 1
    then "1"
    else if eqb n 2
    then "2"
    else if eqb n 3
    then "3"
    else if eqb n 4
    then "4"
    else if eqb n 5
    then "5"
    else if eqb n 6
    then "6"
    else if eqb n 7
    then "7"
    else if eqb n 8
    then "8"
    else "9"

-- The last digits of a number, at most so many.
abbrev digits : ℕ → ℕ → String.String
digits zero n = ""
digits (suc k) n =
    let rest = digits k (n / 10) in if ltb n 10 then digit n else String.◌++◌ rest (digit (n % 10))

-- An `int64` has at most 19 digits.
abbrev pub decimal : ℤ → String.String
decimal (pos n) = digits 19 n
decimal (negsuc n) = String.◌++◌ "-" (digits 19 (suc n))
