-- ===== src/Nvol/Sectors.antt =====
-- Sector headers of src/nvram/nvol3.c.
use nvol.Base.{ℕ, ◌+◌, ◌-◌, ◌%◌, ◌^◌, List, ◌++◌, not, if◌then◌else◌, drop, replicate, some}
use nvol.Base.Bytes.{load32, bytes32}
use nvol.Base.Status.{Status, is_eok}
use nvol.Nvol.{Config, M}
use nvol.Nvol.Slots.{flash_write}

-- `NVOL3_SECTOR_RECORD_T`: the flags, two reserved words and the version
abbrev pub sector_record_size : ℕ
sector_record_size = 16

-- `~` on a uint32_t
abbrev pub complement32 : ℕ → ℕ
complement32 x = 2 ^ 32 - 1 - x

-- The header that `set_sector_flags` writes.
unfoldable pub sector_record : ℕ → ℕ → List ℕ
sector_record flags version = bytes32 flags ++ (replicate 8 0x55 ++ bytes32 (complement32 version))

module _ (config : Config) where
  -- `get_sector_version`: the version, and the flags as the second result; both are 0 when the header
  -- cannot be read.
  unfoldable pub get_sector_version : config.flash.Dev → ℕ → ℕ × ℕ
  get_sector_version dev sector_addr =
      let (status, raw) = config.flash.read sector_addr sector_record_size dev in
      if not (is_eok status)
      then (0, 0)
      else (complement32 (load32 (drop 12 raw)) % 2 ^ 16, load32 raw)

  -- `set_sector_flags`; what is read back there only decides on a message.
  unfoldable pub set_sector_flags : ℕ → ℕ → M config.flash.Dev Status
  set_sector_flags sector_addr flags =
      flash_write config sector_addr (sector_record flags config.version)

  -- `erase_sector`
  unfoldable pub erase_sector : ℕ → ℕ → M config.flash.Dev Status
  erase_sector sector_addr sector_size s =
      let (status, dev) =
        config.flash.erase sector_addr ((sector_addr + sector_size) % 2 ^ 32) s.dev in
      some (status, record s { dev = dev })
