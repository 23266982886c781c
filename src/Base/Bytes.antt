-- ===== src/Base/Bytes.antt =====
-- Little-endian words in byte buffers (the targets of the build are little-endian). A buffer is
-- the list of its bytes; a byte that lies past its end reads as 0.
use Prim.Native.Nat.{ℕ, ◌+◌, ◌*◌, ◌/◌, ◌%◌, ◌-◌, ◌<◌, ◌^◌}
use mathlib.Core.Path.{◌≡◌}
use mathlib.Core.List.{List, [], ◌∷◌, ◌++◌}
use native.Mathlib.Omega.{arith}
use nvol.Base.Lists.{get_or, length, drop}

-- `*(uint16_t*)p`
unfoldable pub load16 : List ℕ → ℕ
load16 p = get_or p 0 0 + 256 * get_or p 1 0

-- `*(uint32_t*)p`
unfoldable pub load32 : List ℕ → ℕ
load32 p = get_or p 0 0 + 256 * get_or p 1 0 + 65536 * get_or p 2 0 + 16777216 * get_or p 3 0

-- The bytes of a uint16_t and of a uint32_t.
unfoldable pub bytes16 : ℕ → List ℕ
bytes16 w = (w % 256) ∷ (w / 256 % 256) ∷ []

unfoldable pub bytes32 : ℕ → List ℕ
bytes32 w = (w % 256) ∷ (w / 256 % 256) ∷ (w / 65536 % 256) ∷ (w / 16777216 % 256) ∷ []

-- `memcpy (buf, from, length from)`: the rest of the buffer keeps its bytes.
unfoldable pub overlay : List ℕ → List ℕ → List ℕ
overlay from buf = from ++ drop (length from) buf

pub load16-bytes16 : (w : ℕ) (rest : List ℕ) → w < 2 ^ 16 → load16 (bytes16 w ++ rest) ≡ w
unfolding load16 bytes16
load16-bytes16 w rest h = omega arith

pub load32-bytes32 : (w : ℕ) (rest : List ℕ) → w < 2 ^ 32 → load32 (bytes32 w ++ rest) ≡ w
unfolding load32 bytes32
load32-bytes32 w rest h = omega arith

-- `x++` and `x--` on a uint32_t, and `x++` on a uint16_t
abbrev pub inc32 : ℕ → ℕ
inc32 x = (x + 1) % 2 ^ 32

abbrev pub dec32 : ℕ → ℕ
dec32 x = (x + 2 ^ 32 - 1) % 2 ^ 32

abbrev pub inc16 : ℕ → ℕ
inc16 x = (x + 1) % 2 ^ 16
