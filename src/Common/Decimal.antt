-- ===== src/Common/Decimal.antt =====
-- `%d` of `fmt` for a number that is not negative.
use Prim.Native.Nat.{ℕ, zero, suc, ◌/◌, ◌%◌}
use Prim.Native.String.{String, ◌++◌}
use mathlib.Core.Path.{◌≡◌, refl}
use toll_mesh_store.Common.Tests.{ltb, ◌==◌, if◌then◌else◌}

abbrev digit : ℕ → String
digit d =
    if d == 0
    then "0"
    else if d == 1
    then "1"
    else if d == 2
    then "2"
    else if d == 3
    then "3"
    else if d == 4
    then "4"
    else if d == 5
    then "5"
    else if d == 6
    then "6"
    else if d == 7
    then "7"
    else if d == 8
    then "8"
    else "9"

abbrev decimal_from : ℕ → ℕ → String
decimal_from zero n = ""
decimal_from (suc fuel) n =
    let rest = decimal_from fuel (n / 10) in if ltb n 10 then digit n else rest ++ digit (n % 10)

-- A number of 64 bits has at most 20 digits.
unfoldable pub decimal : ℕ → String
decimal n = decimal_from 20 n

decimal_1700000000123 : decimal 1_700_000_000_123 ≡ "1700000000123"
unfolding decimal
decimal_1700000000123 = refl
