-- ===== src/Common/Table.antt =====
-- Facts about all small numbers, by evaluation.
use Prim.Native.Nat.{ℕ, zero, suc, ◌<◌}
use mathlib.Core.Path.{◌≡◌}
use mathlib.Core.Bool.{Bool, true, ◌&&◌}
use native.Mathlib.Omega.{arith}
use pong_pp.Common.Tests.{◌==◌, ==_iff}

-- The test holds of each number below the bound.
unfoldable pub for_all_below : ℕ → (ℕ → Bool) → Bool
for_all_below zero test = true
for_all_below (suc n) test = for_all_below n test && test n

pub for_all_below_sound :
    (n : ℕ) (test : ℕ → Bool) (i : ℕ) → for_all_below n test ≡ true → i < n → test i ≡ true
unfolding for_all_below
for_all_below_sound zero test i h below = absurd (omega arith)
for_all_below_sound (suc n) test i h below = ground (arith, for_all_below_sound n test i)

-- Two functions that agree on a table agree below its bound.
pub agree_below :
    (n : ℕ) (f g : ℕ → ℕ) (i : ℕ) → for_all_below n (λ j. f j == g j) ≡ true → i < n → f i ≡ g i
agree_below n f g i h below =
    (==_iff (f i) (g i)).0 (for_all_below_sound n (λ j. f j == g j) i h below)
