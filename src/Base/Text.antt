-- ===== src/Base/Text.antt =====
-- Numbers printed into texts, as template literals do.
use Prim.Native.Nat.{ℕ, zero, suc, ◌+◌, ◌/◌, ◌%◌}
use Prim.Native.String.{String, ◌++◌, slice}
use my_build.Base.Tests.{ltb, if◌then◌else◌}

abbrev pub digit : ℕ → String
digit d = slice "0123456789" d (d + 1)

-- The last `width` decimal digits, with leading zeros.
unfoldable pub padded : ℕ → ℕ → String
padded zero n = ""
padded (suc width) n = padded width (n / 10) ++ digit (n % 10)

-- The decimal digits on fuel; a number has fewer digits than its successor's value.
unfoldable pub decimal_from : ℕ → ℕ → String
decimal_from zero n = ""
decimal_from (suc fuel) n =
    let front = decimal_from fuel (n / 10) in
    if ltb n 10 then digit n else (front ++ digit (n % 10))

unfoldable pub decimal : ℕ → String
unfolding decimal_from
decimal n = decimal_from (suc n) n
