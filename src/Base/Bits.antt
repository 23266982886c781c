-- ===== src/Base/Bits.antt =====
-- `&` of a byte with 0xFF, the content of an erased FLASH cell, and with 0.
use Prim.Native.Nat.{ℕ, zero, suc, ◌<◌, bit_and}
use mathlib.Core.Path.{◌≡◌, refl}
use mathlib.Core.Bool.{Bool, true, false}
use native.Mathlib.Omega.{arith}
use nvol.Base.Tests.{◌==◌, if◌then◌else◌}

-- Both masks tried on every number below the bound.
masks_hold : ℕ → Bool
masks_hold zero = true
masks_hold (suc b) =
    if bit_and 255 b == b then (if bit_and b 0 == 0 then masks_hold b else false) else false

every_byte : masks_hold 256 ≡ true
unfolding masks_hold
every_byte = refl

masks_lem :
    (bound b : ℕ) → b < bound → masks_hold bound ≡ true → (bit_and 255 b ≡ b) × (bit_and b 0 ≡ 0)
unfolding masks_hold
masks_lem zero b below hold = absurd (omega arith)
masks_lem (suc bound) b below hold = ground (arith, masks_lem bound b)

-- Programming an erased cell stores the byte.
pub bit_and_erased : (x : ℕ) → x < 256 → bit_and 255 x ≡ x
bit_and_erased x h = (masks_lem 256 x h every_byte).0

-- Programming a zero clears the cell.
pub bit_and_cleared : (x : ℕ) → x < 256 → bit_and x 0 ≡ 0
bit_and_cleared x h = (masks_lem 256 x h every_byte).1
