-- ===== src/Base/Tables.antt =====
-- Facts over a small range of numbers, checked at every value by evaluation.
use Prim.Native.Nat.{ℕ, zero, suc, ◌<◌}
use mathlib.Core.Path.{◌≡◌}
use mathlib.Core.Bool.{Bool, true, ◌&&◌}
use native.Mathlib.Omega.{arith}
use m45_gamma_firmware.Base.Tests.{◌==◌, ==_iff}

unfoldable pub all_below : ℕ → (ℕ → Bool) → Bool
all_below zero test = true
all_below (suc bound) test = all_below bound test && test bound

pub all_below_sound :
    (test : ℕ → Bool) (i bound : ℕ) → i < bound → all_below bound test ≡ true → test i ≡ true
unfolding all_below
all_below_sound test i zero lt table = absurd (omega arith)
all_below_sound test i (suc bound) lt table = ground (arith, all_below_sound test i bound)

pub eq_below : (f g : ℕ → ℕ) (n x : ℕ) → all_below n (λ i. f i == g i) ≡ true → x < n → f x ≡ g x
eq_below f g n x h lt = (==_iff (f x) (g x)).0 (all_below_sound (λ i. f i == g i) x n lt h)
