-- ===== src/Ramdrv.antt =====
-- src/drivers/ramdrv.c: a FLASH memory emulated in RAM. `size` is NVRAM_SIZE and `cell` the array
-- `_ramdrv_test`. Addresses and lengths are uint32_t.
pub mod Nor
use Prim.Native.Nat.{bit_and}
use nvol.Base.{
  ℕ, zero, suc, ◌+◌, ◌-◌, ◌%◌, ◌^◌, List, [], ◌∷◌, Bool, ◌||◌, ◌&&◌, ltb, leb, ◌==◌, if◌then◌else◌,
  length,
}
use nvol.Base.Status.{Status, eok, e_parm}

pub record Ram : Type 0 where
  pub size : ℕ
  pub cell : ℕ → ℕ

pub ramdrv_init : Status
ramdrv_init = eok

pub ramdrv_start : Status
ramdrv_start = eok

pub ramdrv_stop : Status
ramdrv_stop = eok

abbrev pub store : (ℕ → ℕ) → ℕ → ℕ → ℕ → ℕ
store m a v b = if a == b then v else m b

-- `memset (p + addr, v, n)`
pub memset : (ℕ → ℕ) → ℕ → ℕ → ℕ → ℕ → ℕ
memset m addr v zero = m
memset m addr v (suc n) = memset (store m addr v) (addr + 1) v n

-- the loop of `ramdrv_write` over the rest of the data
pub write_loop : (ℕ → ℕ) → ℕ → List ℕ → ℕ → ℕ
write_loop m addr [] = m
write_loop m addr (d ∷ ds) = write_loop (store m addr (bit_and (m addr) d)) (addr + 1) ds

-- `memcpy (data, p + addr, n)`
pub read_cells : (ℕ → ℕ) → ℕ → ℕ → List ℕ
read_cells m addr zero = []
read_cells m addr (suc n) = m addr ∷ read_cells m (addr + 1) n

pub ramdrv_erase : ℕ → ℕ → Ram → Status × Ram
ramdrv_erase addr_start addr_end r =
    if ltb addr_end addr_start
    then (e_parm, r)
    else if leb r.size addr_start
    then (e_parm, r)
    else let end = if leb r.size addr_end then r.size - 1 else addr_end in
      (eok, record r { cell = memset r.cell addr_start 0xFF (end - addr_start) })

pub ramdrv_write : ℕ → List ℕ → Ram → Status × Ram
ramdrv_write addr bytes r =
    if leb r.size addr
    then (e_parm, r)
    else if leb r.size ((addr + length bytes) % 2 ^ 32)
    then (e_parm, r)
    else (eok, record r { cell = write_loop r.cell addr bytes })

-- A refused read leaves the caller's buffer alone, and no caller looks at it.
pub ramdrv_read : ℕ → ℕ → Ram → Status × List ℕ
ramdrv_read addr n r =
    if leb r.size addr
    then (e_parm, [])
    else if leb r.size ((addr + n) % 2 ^ 32)
    then (e_parm, [])
    else (eok, read_cells r.cell addr n)
