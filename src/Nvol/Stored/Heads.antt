-- ===== src/Nvol/Stored/Heads.antt =====
-- Record headers as bytes (`NVOL3_RECORD_HEAD_T` of src/nvram/nvol3.h), and records as they stand in
-- a memory.
use Prim.Native.Nat.{bit_and}
use nvol.Base.{
  ℕ, zero, suc, ◌+◌, ◌-◌, ◌/◌, ◌%◌, ◌^◌, ◌<◌, ◌≡◌, refl, ◌∙◌, List, ◌++◌, arith, length,
}
use nvol.Base.Bytes.{load16, bytes16}
use nvol.Flash.Content.{Holds, IsBytes, Holds-append_right}
use nvol.Flash.{programmed}
use nvol.Nvol.{Head, head_size, head_bytes, head_of}

-- The fields of a header are uint16_t.
pub record IsHead (h : Head) : Type 0 where
  pub flags : h.flags < 2 ^ 16
  pub length : h.length < 2 ^ 16
  pub checksum : h.checksum < 2 ^ 16
  pub reserved : h.reserved < 2 ^ 16

-- A header whose fields are uint16_t is read back from its bytes, whatever follows them.
head_of-head_bytes : (h : Head) (rest : List ℕ) → IsHead h → head_of (head_bytes h ++ rest) ≡ h
unfolding head_of head_bytes load16 bytes16
head_of-head_bytes h rest w = ground arith

pub length-head_bytes : (h : Head) → length (head_bytes h) ≡ head_size
unfolding head_bytes bytes16
length-head_bytes h = refl

pub head_bytes-IsBytes : (h : Head) → IsBytes (head_bytes h)
unfolding head_bytes bytes16
head_bytes-IsBytes h zero = omega arith
head_bytes-IsBytes h (suc zero) = omega arith
head_bytes-IsBytes h (suc (suc zero)) = omega arith
head_bytes-IsBytes h (suc (suc (suc zero))) = omega arith
head_bytes-IsBytes h (suc (suc (suc (suc zero)))) = omega arith
head_bytes-IsBytes h (suc (suc (suc (suc (suc zero))))) = omega arith
head_bytes-IsBytes h (suc (suc (suc (suc (suc (suc zero)))))) = omega arith
head_bytes-IsBytes h (suc (suc (suc (suc (suc (suc (suc zero))))))) = omega arith
head_bytes-IsBytes h (suc (suc (suc (suc (suc (suc (suc (suc i)))))))) = omega arith

pub parse : (h : Head) → IsHead h → head_of (head_bytes h) ≡ h
unfolding head_of head_bytes load16 bytes16
parse h w = ground arith

pub behind_head :
    (m : ℕ → ℕ) (addr : ℕ) (h : Head) (body : List ℕ)
    → Holds m addr (head_bytes h ++ body)
    → Holds m (addr + head_size) body
unfolding head_bytes bytes16
behind_head m addr h body st = Holds-append_right m addr (head_bytes h) body st

-- The record with this header and these bytes stands at the address.
abbrev pub Stored : (ℕ → ℕ) → ℕ → Head → List ℕ → Type 0
Stored m addr h body = Holds m addr (head_bytes h ++ body)

-- The bits of `new` are among those of `old`, so that programming `new` over `old` gives `new`.
abbrev pub Covers : ℕ → ℕ → Type 0
Covers old new =
    (bit_and (old % 256) (new % 256) ≡ new % 256)
    × (bit_and (old / 256 % 256) (new / 256 % 256) ≡ new / 256 % 256)

pub reflagged :
    (m r : ℕ → ℕ) (p : ℕ) (h : Head) (body : List ℕ) (flags : ℕ)
    → Covers h.flags flags
    → Stored m p h body
    → ((a : ℕ) → r a ≡ programmed m p (bytes16 flags) a)
    → Stored r p (record h { flags = flags }) body
unfolding head_bytes bytes16
reflagged m r p h body flags (lo, hi) st run zero q =
    let e : p + 0 - p ≡ 0 = omega arith in
    run (p + 0) ∙ rw e (ground (arith, st 0 (omega arith), lo))
reflagged m r p h body flags (lo, hi) st run (suc zero) q =
    let e : p + 1 - p ≡ 1 = omega arith in
    run (p + 1) ∙ rw e (ground (arith, st 1 (omega arith), hi))
reflagged m r p h body flags (lo, hi) st run (suc (suc i)) q =
    run (p + suc (suc i)) ∙ ground (arith, st (suc (suc i)) q)
