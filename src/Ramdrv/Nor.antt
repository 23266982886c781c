-- ===== src/Ramdrv/Nor.antt =====
-- `ramdrv_erase`, `ramdrv_write` and `ramdrv_read` of src/drivers/ramdrv.c at every address, and the
-- driver as the FLASH of a volume.
use Prim.Native.Nat.{bit_and, min}
use nvol.Base.{
  ℕ, zero, suc, ◌+◌, ◌-◌, ◌^◌, ◌≤◌, ◌<◌, ◌≡◌, refl, List, [], ◌∷◌, ◌&&◌, ◌⊎◌, ◌↔◌, arith, ltb, leb,
  if◌then◌else◌, length, get_or-cons, inl, inr, ap,
}
use nvol.Base.Status.{eok, e_parm}
use nvol.Flash.{Flash, IsNor, peek_bytes, programmed, erased}
use nvol.Ramdrv.{
  Ram, store, memset, write_loop, read_cells, ramdrv_erase, ramdrv_write, ramdrv_read,
}

memset_at :
    (m : ℕ → ℕ) (addr v n a : ℕ)
    → memset m addr v n a ≡ (if leb addr a && ltb a (addr + n) then v else m a)
unfolding memset
memset_at m addr v zero a = ground arith
memset_at m addr v (suc n) a = ground (arith, memset_at (store m addr v) (addr + 1) v n a)

compare_cases : (a b : ℕ) → (a < b) ⊎ ((a ≡ b) ⊎ (b < a))
compare_cases a b = omega arith

write_loop_at :
    (m : ℕ → ℕ) (addr : ℕ) (bytes : List ℕ) (a : ℕ)
    → write_loop m addr bytes a ≡ programmed m addr bytes a
unfolding write_loop
write_loop_at m addr [] a = ground arith
write_loop_at m addr (d ∷ ds) a =
    rw (write_loop_at (store m addr (bit_and (m addr) d)) (addr + 1) ds a)
      (elim (compare_cases a addr) [
        | inl below ↦ ground arith
        | inr (inl here) ↦ let z : addr - addr ≡ 0 = omega arith in rw (here, z) (ground arith)
        | inr (inr above) ↦
            let e : a - addr - 1 ≡ a - (addr + 1) = omega arith in
            let r = get_or-cons d ds (a - addr) 255 (omega arith) in rw (r, e) (ground arith)
      ])

read_cells-eq-peek_bytes : (m : ℕ → ℕ) (addr n : ℕ) → read_cells m addr n ≡ peek_bytes m addr n
unfolding read_cells
read_cells-eq-peek_bytes m addr zero = refl
read_cells-eq-peek_bytes m addr (suc n) =
    let ih = read_cells-eq-peek_bytes m (addr + 1) n in λ i. m addr ∷ ih i

-- The driver as a volume's configuration takes it.
abbrev pub ramdrv : Flash
ramdrv = record { Dev = Ram; read = ramdrv_read; write = ramdrv_write; erase = ramdrv_erase }

-- The addresses that a range may reach: below NVRAM_SIZE, and within a uint32_t.
abbrev pub usable : Ram → ℕ
usable r = min r.size (2 ^ 32)

-- What the driver's functions do at an address that they accept.
module _ (r : Ram) where
  -- A read whose range ends below the size of the memory and 2 ^ 32 succeeds and returns the bytes that are there.
  pub ramdrv_read_lem :
      (addr n : ℕ) → addr + n < usable r → ramdrv_read addr n r ≡ (eok, peek_bytes r.cell addr n)
  unfolding ramdrv_read
  ramdrv_read_lem addr n h = ground (arith, read_cells-eq-peek_bytes r.cell addr n)

  -- A write whose range ends below the size of the memory and 2 ^ 32 succeeds, ANDs its bytes into the cells of its range and leaves the rest alone.
  pub ramdrv_write_lem :
      (addr : ℕ) (bytes : List ℕ)
      → addr + length bytes < usable r
      → (r' : Ram) × (ramdrv_write addr bytes r ≡ (eok, r'))
        × ((a : ℕ) → r'.cell a ≡ programmed r.cell addr bytes a)
        × (r'.size ≡ r.size)
  unfolding ramdrv_write
  ramdrv_write_lem addr bytes h = (
    record r { cell = write_loop r.cell addr bytes },
    ground arith,
    write_loop_at r.cell addr bytes,
    refl,
  )

  -- An erase whose range ends below the size of the memory and 2 ^ 32 succeeds, sets the cells of its range to 0xFF and leaves the rest alone.
  pub ramdrv_erase_lem :
      (start end : ℕ)
      → start ≤ end
      → end < usable r
      → (r' : Ram) × (ramdrv_erase start end r ≡ (eok, r'))
        × ((a : ℕ) → r'.cell a ≡ erased r.cell start end a)
        × (r'.size ≡ r.size)
  unfolding ramdrv_erase
  ramdrv_erase_lem start end h k = (
    record r { cell = memset r.cell start 255 (end - start) },
    ground arith,
    λ a. ground (arith, memset_at r.cell start 255 (end - start) a),
    refl,
  )

  -- A write whose range does not wrap around is accepted exactly if it ends before the last byte of
  -- the memory; a refused write changes nothing.
  pub ramdrv_write_accepts :
      (addr : ℕ) (bytes : List ℕ)
      → addr + length bytes < 2 ^ 32
      → (((ramdrv_write addr bytes r).0 ≡ eok) ↔ (addr + length bytes < r.size))
        × ((addr + length bytes < r.size) ⊎ (ramdrv_write addr bytes r ≡ (e_parm, r)))
  unfolding ramdrv_write
  ramdrv_write_accepts addr bytes h = ground arith

  -- An erase that begins in the memory and goes up to its end or beyond reports success and leaves the last byte as
  -- it was.
  pub ramdrv_erase_last :
      (start end : ℕ)
      → start < r.size
      → r.size ≤ end
      → ((ramdrv_erase start end r).0 ≡ eok)
        × ((ramdrv_erase start end r).1.cell (r.size - 1) ≡ r.cell (r.size - 1))
  unfolding ramdrv_erase
  ramdrv_erase_last start end h k =
      let at = memset_at r.cell start 255 (r.size - 1 - start) (r.size - 1) in
      (ground arith, ground (arith, at))

-- The driver meets what the volume relies on.
abbrev pub ramdrv-IsNor : IsNor ramdrv
ramdrv-IsNor = record {
  peek = λ r. r.cell;
  capacity = usable;
  read_lem = ramdrv_read_lem;
  write_lem = λ r addr bytes h.
      let (r', run, cells, size) = ramdrv_write_lem r addr bytes h in
      (r', run, cells, ap (λ (n : ℕ). min n (2 ^ 32)) size);
  erase_lem = λ r start end h k.
      let (r', run, cells, size) = ramdrv_erase_lem r start end h k in
      (r', run, cells, ap (λ (n : ℕ). min n (2 ^ 32)) size);
}
