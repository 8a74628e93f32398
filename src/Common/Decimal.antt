-- ===== src/Common/Decimal.antt =====
-- `%d` of a number that is not negative.
use Prim.Native.Nat.{ℕ, zero, suc, ◌+◌, ◌/◌, ◌%◌}
use mathlib.Core.List.{[], ◌∷◌, ◌++◌}
use hosting.Common.Tests.{ltb, if◌then◌else◌}
use hosting.Common.Text.{Bytes}

-- The first argument is fuel: a round divides `n` by ten, so `n` rounds are enough.
decimal_from : ℕ → ℕ → Bytes
decimal_from zero n = (b'0' + n) ∷ []
decimal_from (suc fuel) n =
    let more = decimal_from fuel (n / 10) ++ ((b'0' + n % 10) ∷ []) in
    if ltb n 10 then (b'0' + n) ∷ [] else more

unfoldable pub decimal : ℕ → Bytes
unfolding decimal_from
decimal n = decimal_from n n
