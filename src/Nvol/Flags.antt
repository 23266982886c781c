-- ===== src/Nvol/Flags.antt =====
-- Sector headers written and read back (`set_sector_flags` and `get_sector_version` of
-- src/nvram/nvol3.c), and the steps that a sector's flags take.
use nvol.Base.{
  ℕ, zero, suc, ◌+◌, ◌%◌, ◌^◌, ◌<◌, ◌≡◌, ap, ◌∙◌, List, ◌++◌, some, arith, drop, replicate,
}
use nvol.Base.Bytes.{load32, bytes32}
use nvol.Base.Status.{eok}
use nvol.Flash.Content.{
  Holds, IsErased, IsBytes, IsBytes-append, peek_bytes-Holds, programmed-Holds,
}
use nvol.Flash.{IsNor}
use nvol.Nvol.Sectors.{
  sector_record_size, complement32, sector_record, get_sector_version, set_sector_flags,
}
use nvol.Nvol.Slots.{Volume, flash_write}
use nvol.Nvol.{Config}

bytes32-IsBytes : (w : ℕ) → IsBytes (bytes32 w)
unfolding bytes32
bytes32-IsBytes w zero = omega arith
bytes32-IsBytes w (suc zero) = omega arith
bytes32-IsBytes w (suc (suc zero)) = omega arith
bytes32-IsBytes w (suc (suc (suc zero))) = omega arith
bytes32-IsBytes w (suc (suc (suc (suc i)))) = omega arith

IsBytes-replicate : (n v : ℕ) → v < 256 → IsBytes (replicate n v)
IsBytes-replicate zero v h i = omega arith
IsBytes-replicate (suc n) v h zero = h
IsBytes-replicate (suc n) v h (suc i) = IsBytes-replicate n v h i

sector_record-IsBytes : (flags version : ℕ) → IsBytes (sector_record flags version)
unfolding sector_record
sector_record-IsBytes flags version =
    let last = bytes32-IsBytes (complement32 version) in
    IsBytes-append (bytes32 flags) (replicate 8 85 ++ bytes32 (complement32 version))
      (bytes32-IsBytes flags)
      (IsBytes-append (replicate 8 85) (bytes32 (complement32 version))
        (IsBytes-replicate 8 85 (omega arith)) last)

parse_flags : (flags version : ℕ) → flags < 2 ^ 32 → load32 (sector_record flags version) ≡ flags
unfolding sector_record bytes32 load32
parse_flags flags version h = omega arith

parse_version :
    (flags version : ℕ)
    → version < 2 ^ 16
    → complement32 (load32 (drop 12 (sector_record flags version))) % 2 ^ 16 ≡ version
unfolding sector_record bytes32 load32
parse_version flags version h = omega arith

module _ (config : Config) (nor : IsNor config.flash) where
  -- The header of a sector with these flags stands at the address.
  abbrev pub SectorHead : config.flash.Dev → ℕ → ℕ → Type 0
  SectorHead d sector flags = Holds (nor.peek d) sector (sector_record flags config.version)

  get_sector_version-SectorHead :
      (d : config.flash.Dev) (sector flags : ℕ)
      → sector + sector_record_size < nor.capacity d
      → flags < 2 ^ 32
      → config.version < 2 ^ 16
      → SectorHead d sector flags
      → get_sector_version config d sector ≡ (config.version, flags)
  unfolding get_sector_version sector_record bytes32
  get_sector_version-SectorHead d sector flags room small short st =
      let raw = peek_bytes-Holds (nor.peek d) sector (sector_record flags config.version) st in
      let read : config.flash.read sector sector_record_size d
          ≡ (eok, sector_record flags config.version) =
        nor.read_lem d sector sector_record_size room ∙ ap (λ (b : List ℕ). (eok, b)) raw in
      rw read (λ i.
        (parse_version flags config.version short i, parse_flags flags config.version small i))

  -- `set_sector_flags` with flags of 32 bits and a version of 16 bits, on an erased header inside the
  -- memory, succeeds, and then `get_sector_version` gives the
  -- version of the configuration and the flags.
  get_sector_version-set_sector_flags :
      (s : Volume config) (sector flags : ℕ)
      → sector + sector_record_size < nor.capacity s.dev
      → flags < 2 ^ 32
      → config.version < 2 ^ 16
      → IsErased (nor.peek s.dev) sector sector_record_size
      → (d : config.flash.Dev) × (set_sector_flags config sector flags s
          ≡ some (eok, record s { dev = d }))
        × (get_sector_version config d sector ≡ (config.version, flags))
  unfolding set_sector_flags flash_write sector_record bytes32
  get_sector_version-set_sector_flags s sector flags room small short blank =
      let bytes = sector_record flags config.version in
      let (d, run, cells, size) = nor.write_lem s.dev sector bytes room in
      (
        d,
        rw run,
        get_sector_version-SectorHead d sector flags (rw size room) small short (
            programmed-Holds (nor.peek s.dev) sector bytes blank
              (sector_record-IsBytes flags config.version) (nor.peek d) cells),
      )
