-- ===== src/Nvol/Volumes.antt =====
-- Volumes as a whole (src/nvram/nvol3.c): loading with the recovery of sectors, validating, resetting,
-- deleting and unloading.
use nvol.Base.{ℕ, Bool, true, false, Option, none, some, ◌==◌, ◌||◌, if◌then◌else◌}
use nvol.Base.Status.{Status, eok, efail, e_nomem, e_version}
use nvol.Dictionary.{dictionary_init}
use nvol.Nvol.{
  Record, Config, M, pure, ◌>>=◌, ◌>>◌, get, modify, sector_empty, sector_initializing,
  sector_valid, sector_invalid,
}
use nvol.Nvol.Lookup.{construct_lookup_table}
use nvol.Nvol.Sectors.{get_sector_version, set_sector_flags, erase_sector}
use nvol.Nvol.Slots.{Volume}
use nvol.Nvol.Swap.{malloc_record, nvol3_repair}

-- The states that `init_sectors` tells apart.
pub data SectorState : Type 0 where
  empty initializing valid invalid : SectorState

-- `none` stands for flags that no sector has.
unfoldable pub sector_state : ℕ → Option SectorState
sector_state flags =
    if flags == sector_empty
    then some empty
    else if flags == sector_initializing
    then some initializing
    else if flags == sector_valid
    then some valid
    else if flags == sector_invalid
    then some invalid
    else none

module _ (config : Config) where
  unfoldable pub use_sector1 : M config.flash.Dev (Unit {0})
  use_sector1 = modify λ s. record s { sector = config.sector1_addr }

  unfoldable pub use_sector2 : M config.flash.Dev (Unit {0})
  use_sector2 = modify λ s. record s { sector = config.sector2_addr }

  unfoldable pub erase1 : M config.flash.Dev Status
  erase1 = erase_sector config config.sector1_addr config.sector_size

  unfoldable pub erase2 : M config.flash.Dev Status
  erase2 = erase_sector config config.sector2_addr config.sector_size

  -- The switch of `init_sectors`; the results of the calls are not looked at.
  unfoldable pub recover : SectorState → SectorState → M config.flash.Dev Status
  recover empty empty = do
    use_sector1
    _ ← erase1
    set_sector_flags config config.sector1_addr sector_valid
  recover empty initializing = do use_sector2; nvol3_repair config
  recover empty valid = do use_sector2; pure eok
  recover empty invalid = do use_sector2; nvol3_repair config
  recover initializing empty = do use_sector1; nvol3_repair config
  recover initializing initializing = do use_sector1; nvol3_repair config
  recover initializing valid = do use_sector2; erase1
  recover initializing invalid = do use_sector2; nvol3_repair config
  recover valid _ = do _ ← erase2; use_sector1; pure eok
  recover invalid empty = do use_sector1; nvol3_repair config
  recover invalid initializing = do use_sector1; nvol3_repair config
  recover invalid valid = do use_sector2; erase1
  recover invalid invalid = do use_sector1; nvol3_repair config

  -- A sector whose flags are none of the four is erased and then counts as empty.
  unfoldable pub settle_sector : ℕ → ℕ → M config.flash.Dev SectorState
  settle_sector sector_addr flags = elim (sector_state flags) [
    | some st ↦ pure st
    | none ↦ (erase_sector config sector_addr config.sector_size >>= λ _. pure empty)
  ]

  -- `init_sectors`
  unfoldable pub init_sectors : Record → M config.flash.Dev Status
  init_sectors scratch = do
    s ← get
    let sector1_flags = (get_sector_version config s.dev config.sector1_addr).1
    let sector2_flags = (get_sector_version config s.dev config.sector2_addr).1
    state1 ← settle_sector config.sector1_addr sector1_flags
    state2 ← settle_sector config.sector2_addr sector2_flags
    modify (λ s. record s { next_idx = 0 })
    _ ← recover state1 state2
    (status, _) ← construct_lookup_table config scratch
    pure status

  -- An old dictionary is destroyed, and a new one made.
  unfoldable pub init_dict : M config.flash.Dev Bool
  init_dict s =
      let (dict, heap) = dictionary_init config.keyspec config.hashsize s.heap in
      elim dict [
        | none ↦ some (false, record s { dict = none; heap = heap })
        | some d ↦ some (true, record s { dict = some d; heap = heap })
      ]

  unfoldable pub load_with : Record → M config.flash.Dev Status
  load_with scratch = do made ← init_dict; if made then init_sectors scratch else pure e_nomem

  -- `nvol3_load`
  unfoldable pub nvol3_load : M config.flash.Dev Status
  nvol3_load = do
    scratch ← malloc_record config
    modify (λ s. record s { sector = 0; next_idx = 0; inuse = 0; invalid = 0 })
    (elim scratch [ none ↦ pure e_nomem | some rec ↦ load_with rec ])

  -- The flags of a sector that was in use.
  unfoldable pub in_use : ℕ → Bool
  in_use flags = flags == sector_initializing || flags == sector_valid || flags == sector_invalid

  unfoldable pub check_version : ℕ → Status
  check_version version = if version == config.version then eok else e_version

  -- `nvol3_validate`
  unfoldable pub nvol3_validate : Volume config → Status
  nvol3_validate s =
      let (sector1_version, sector1_flags) = get_sector_version config s.dev config.sector1_addr in
      let (sector2_version, sector2_flags) = get_sector_version config s.dev config.sector2_addr in
      if in_use sector1_flags
      then check_version sector1_version
      else if in_use sector2_flags
      then check_version sector2_version
      else efail

  -- `nvol3_unload`
  unfoldable pub nvol3_unload : M config.flash.Dev (Unit {0})
  nvol3_unload = modify λ s. record s { dict = none }

  -- `nvol3_reset`; what is read back between the erasing and the loading only decides on a message.
  unfoldable pub nvol3_reset : M config.flash.Dev Status
  nvol3_reset = do modify (λ s. record s { dict = none }); _ ← erase1; _ ← erase2; nvol3_load

  -- `nvol3_delete`
  unfoldable pub nvol3_delete : M config.flash.Dev Status
  nvol3_delete = do _ ← erase1; _ ← erase2; modify (λ s. record s { dict = none }); pure eok
