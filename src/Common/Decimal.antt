-- ===== src/Common/Decimal.antt =====
-- std::to_string of an unsigned number: its decimal digits.
use Prim.Native.Nat.{ℕ, zero, suc, ◌+◌, ◌/◌, ◌%◌}
use mathlib.Core.List.{List, [], ◌∷◌, ◌++◌}
use pong_pp.Common.Tests.{ltb, if◌then◌else◌}

-- With a round for each digit; a number has no more digits than `suc n`.
unfoldable pub digits_of : ℕ → ℕ → List ℕ
digits_of zero n = []
digits_of (suc fuel) n =
    let high = digits_of fuel (n / 10) in
    if ltb n 10 then (48 + n) ∷ [] else high ++ (48 + n % 10) ∷ []

unfoldable pub to_string : ℕ → List ℕ
unfolding digits_of
to_string n = digits_of (suc n) n
