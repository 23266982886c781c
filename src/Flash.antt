-- ===== src/Flash.antt =====
-- `NVOL3_FLASH_IF_T` of src/nvram/nvol3.h: the FLASH access functions that a volume's configuration
-- points to, and what the volume relies on: a NOR memory, whose write can only clear bits, in
-- which every address below `capacity` can be used. src/drivers/ramdrv.c is one such driver
-- (Ramdrv/Nor.antt).
pub mod Content
use Prim.Native.Nat.{bit_and}
use nvol.Base.{
  ℕ, zero, suc, ◌+◌, ◌-◌, ◌≤◌, ◌<◌, ◌^◌, ◌≡◌, List, [], ◌∷◌, ◌&&◌, ltb, leb, if◌then◌else◌, length,
  get_or,
}
use nvol.Base.Status.{Status, eok}

-- The state of the device is an explicit argument of the access functions.
pub record Flash : Type 1 where
  pub Dev : Type 0
  pub read : ℕ → ℕ → Dev → Status × List ℕ
  pub write : ℕ → List ℕ → Dev → Status × Dev
  pub erase : ℕ → ℕ → Dev → Status × Dev

-- The bytes from an address on.
abbrev pub peek_bytes : (ℕ → ℕ) → ℕ → ℕ → List ℕ
peek_bytes m addr zero = []
peek_bytes m addr (suc n) = m addr ∷ peek_bytes m (addr + 1) n

-- The cell `a` after the bytes were programmed from `addr` on.
abbrev pub programmed : (ℕ → ℕ) → ℕ → List ℕ → ℕ → ℕ
programmed m addr bytes a =
    if leb addr a && ltb a (addr + length bytes)
    then bit_and (m a) (get_or bytes (a - addr) 255)
    else m a

-- The cell `a` after the addresses from `start` up to `end` were erased.
abbrev pub erased : (ℕ → ℕ) → ℕ → ℕ → ℕ → ℕ
erased m start end a = if leb start a && ltb a end then 255 else m a

pub record IsNor (fl : Flash) : Type 0 where
  pub peek : fl.Dev → ℕ → ℕ
  pub capacity : fl.Dev → ℕ
  pub read_lem :
      (d : fl.Dev) (addr n : ℕ)
      → addr + n < capacity d
      → fl.read addr n d ≡ (eok, peek_bytes (peek d) addr n)
  pub write_lem :
      (d : fl.Dev) (addr : ℕ) (bytes : List ℕ)
      → addr + length bytes < capacity d
      → (r : fl.Dev) × (fl.write addr bytes d ≡ (eok, r))
        × ((a : ℕ) → peek r a ≡ programmed (peek d) addr bytes a)
        × (capacity r ≡ capacity d)
  pub erase_lem :
      (d : fl.Dev) (start end : ℕ)
      → start ≤ end
      → end < capacity d
      → (r : fl.Dev) × (fl.erase start end d ≡ (eok, r))
        × ((a : ℕ) → peek r a ≡ erased (peek d) start end a)
        × (capacity r ≡ capacity d)
