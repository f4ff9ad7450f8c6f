-- ===== src/Base/Bits.antt =====
-- Facts about masks, by running through all values of a small word.
use Prim.Native.Nat.{ℕ, zero, suc, ◌<◌}
use mathlib.Core.Path.{◌≡◌}
use mathlib.Core.Bool.{Bool, true, ◌&&◌}
use native.Mathlib.Omega.{arith}

abbrev pub holds_below : (ℕ → Bool) → ℕ → Bool
holds_below test zero = true
holds_below test (suc bound) = holds_below test bound && test bound

pub holds_below_lem :
    (test : ℕ → Bool) (bound : ℕ) {word : ℕ}
    → word < bound
    → holds_below test bound ≡ true
    → test word ≡ true
holds_below_lem test zero less all = absurd (omega arith)
holds_below_lem test (suc bound) {word} less all =
    ground (arith, holds_below_lem test bound {word = word})
