-- ===== src/Nvol/Swap.antt =====
-- Copying the valid records of a volume to the other sector (src/nvram/nvol3.c): `move_sector` goes
-- by the slots of the sector, `swap_sectors` by the lookup table.
use nvol.Base.{
  ℕ, zero, suc, ◌+◌, true, false, not, Option, none, some, ltb, ◌==◌, if◌then◌else◌, ◌*◌, replicate,
}
use nvol.Base.Bytes.{inc16}
use nvol.Base.Heap.{heap_malloc}
use nvol.Base.Status.{Status, eok, efail, e_empty, is_eok, e_nomem}
use nvol.Dictionary.{Node, dictionary_get_value, write_value}
use nvol.Dictionary.Iterator.{It, dictionary_it_first, dictionary_it_next, walk_fuel}
use nvol.Nvol.{
  Record, Entry, Config, Instance, M, pure, ◌>>=◌, ◌>>◌, get, modify, get_dict, max_records,
  max_length, sector_empty, sector_initializing, sector_valid,
}
use nvol.Nvol.Lookup.{construct_lookup_table}
use nvol.Nvol.Sectors.{get_sector_version, set_sector_flags, erase_sector}
use nvol.Nvol.Slots.{read_variable_record, write_variable_record, variable_record_valid}

module _ (config : Config) where
  -- The opening that both functions share: the destination is erased if its flags are not those of
  -- an empty sector, and marked as being initialised.
  unfoldable pub prepare_sector : ℕ → M config.flash.Dev Status
  prepare_sector dst_addr = do
    s ← get
    status ←
        if (get_sector_version config s.dev dst_addr).1 == sector_empty
        then pure eok
        else erase_sector config dst_addr config.sector_size
    if not (is_eok status)
        then pure status
        else set_sector_flags config dst_addr sector_initializing

  -- One slot that was read as a valid record: it is copied if its checksum is right. A failed write
  -- uses up the slot of the destination all the same.
  unfoldable pub move_record : ℕ → Record → ℕ → M config.flash.Dev ℕ
  move_record dst_addr rec dst_idx =
      if is_eok (variable_record_valid rec)
      then (write_variable_record config dst_addr rec dst_idx >>= λ _. pure (inc16 dst_idx))
      else pure dst_idx

  -- The loop of `move_sector`, with fuel; the result is the buffer as the loop leaves it.
  unfoldable pub move_loop : ℕ → ℕ → ℕ → Record → ℕ → M config.flash.Dev (ℕ × Record)
  move_loop zero dst_addr idx scratch dst_idx s = none
  move_loop (suc f) dst_addr idx scratch dst_idx s = elim (ltb idx (max_records config)) [
    | false ↦ some ((dst_idx, scratch), s)
    | true ↦
        let (status, rec) = read_variable_record config s scratch idx 0 in
        elim status [
          | e_empty ↦ some ((dst_idx, rec), s)
          | eok ↦ elim (move_record dst_addr rec dst_idx s) [
            | none ↦ none
            | some (dst_idx', s') ↦ move_loop f dst_addr (inc16 idx) rec dst_idx' s'
          ]
          | _ ↦ move_loop f dst_addr (inc16 idx) rec dst_idx s
        ]
  ]

  -- `move_sector`
  unfoldable pub move_sector : Record → ℕ → M config.flash.Dev (Status × Record)
  move_sector scratch dst_addr = do
    status ← prepare_sector dst_addr
    if not (is_eok status) then pure (status, scratch) else (do
      (_, rec) ← move_loop (max_records config + 1) dst_addr 0 scratch 0
      status' ← set_sector_flags config dst_addr sector_valid
      pure (status', rec))

  -- `entry->idx = idx` through the node's address
  unfoldable pub set_entry_idx : ℕ → ℕ → M config.flash.Dev (Unit {0})
  set_entry_idx a idx s = elim s.dict [
    | none ↦ none
    | some dict ↦
        some
          (tt, record s { dict = some (write_value dict a (λ entry. record entry { idx = idx })) })
  ]

  -- The body of the loop of `swap_sectors` for one node.
  unfoldable pub swap_record : ℕ → Record → Node Entry → ℕ → M config.flash.Dev (Status × Record)
  swap_record dst_addr scratch np dst_idx = do
    s ← get
    let (status, rec) = read_variable_record config s scratch (dictionary_get_value np).idx 0
    if not (is_eok status) then pure (status, rec) else (do
      status' ← write_variable_record config dst_addr rec dst_idx
      if not (is_eok status')
          then pure (status', rec)
          else (do set_entry_idx np.addr dst_idx; pure (eok, rec)))

  -- The loop, with fuel, at the node `m`.
  unfoldable pub swap_loop :
      ℕ → ℕ → Record → Option (Node Entry) → It Entry → ℕ → M config.flash.Dev (Status × Record)
  swap_loop zero dst_addr scratch m it dst_idx s = none
  swap_loop (suc f) dst_addr scratch none it dst_idx s = some ((eok, scratch), s)
  swap_loop (suc f) dst_addr scratch (some np) it dst_idx s =
      elim (swap_record dst_addr scratch np dst_idx s) [
        | none ↦ none
        | some ((status, rec), s') ↦ elim (is_eok status) [
          | false ↦ some ((status, rec), s')
          | true ↦ elim s'.dict [
            | none ↦ none
            | some dict ↦ elim (dictionary_it_next dict it) [
              | none ↦ none
              | some (m', it') ↦ swap_loop f dst_addr rec m' it' (inc16 dst_idx) s'
            ]
          ]
        ]
      ]

  -- The sector that is not in use.
  unfoldable pub other_sector : ℕ → ℕ
  other_sector sector =
      if sector == config.sector1_addr then config.sector2_addr else config.sector1_addr

  -- The sector in use, as the address that is erased later.
  unfoldable pub this_sector : ℕ → ℕ
  this_sector sector =
      if sector == config.sector1_addr then config.sector1_addr else config.sector2_addr

  -- The walk over the lookup table.
  unfoldable pub swap_all : ℕ → Record → M config.flash.Dev (Status × Record)
  swap_all dst_addr scratch = do
    dict ← get_dict
    (λ s. elim (dictionary_it_first dict none 0) [
      | none ↦ none
      | some (m, it) ↦ swap_loop (walk_fuel dict + 1) dst_addr scratch m it 0 s
    ])

  -- What `swap_sectors` and `nvol3_repair` do when the destination is complete.
  unfoldable pub use_sector : Record → ℕ → ℕ → M config.flash.Dev Status
  use_sector scratch src_addr dst_addr = do
    modify (λ s. record s { sector = dst_addr })
    _ ← construct_lookup_table config scratch
    erase_sector config src_addr config.sector_size

  -- The destination is marked as valid; where a record could not be copied, `move_sector` begins anew.
  unfoldable pub finish_swap : Status → Record → ℕ → M config.flash.Dev (Status × Record)
  finish_swap eok rec dst_addr = do
    status ← set_sector_flags config dst_addr sector_valid
    pure (status, rec)
  finish_swap _ rec dst_addr = do
    (status, rec') ← move_sector rec dst_addr
    pure ((if is_eok status then eok else efail), rec')

  -- `swap_sectors`
  unfoldable pub swap_sectors : Record → M config.flash.Dev Status
  swap_sectors scratch = do
    s ← get
    let src_addr = this_sector s.sector
    let dst_addr = other_sector s.sector
    status ← prepare_sector dst_addr
    if not (is_eok status) then pure status else (do
      (copied, rec) ← swap_all dst_addr scratch
      (finished, rec') ← finish_swap copied rec dst_addr
      if not (is_eok finished) then pure finished else use_sector rec' src_addr dst_addr)

  -- A record buffer that was just allocated.
  unfoldable pub new_record : Instance config.flash.Dev → Record
  new_record s = record {
    head = record {
      flags = s.heap.fill + 256 * s.heap.fill;
      length = s.heap.fill + 256 * s.heap.fill;
      checksum = s.heap.fill + 256 * s.heap.fill;
      reserved = s.heap.fill + 256 * s.heap.fill;
    };
    key_and_data = replicate (max_length config) s.heap.fill;
  }

  -- `NVOL3_MALLOC (config->record_size)`
  unfoldable pub malloc_record : M config.flash.Dev (Option Record)
  malloc_record s =
      let (p, heap) = heap_malloc s.heap in
      some ((elim p [ none ↦ none | some _ ↦ some (new_record s) ]), record s { heap = heap })

  -- `nvol3_repair` with its buffer
  unfoldable pub repair_with : Record → M config.flash.Dev Status
  repair_with scratch = do
    s ← get
    let src_addr = this_sector s.sector
    let dst_addr = other_sector s.sector
    (status, rec) ← move_sector scratch dst_addr
    if not (is_eok status) then pure status else use_sector rec src_addr dst_addr

  -- `nvol3_repair`
  unfoldable pub nvol3_repair : M config.flash.Dev Status
  nvol3_repair = do
    scratch ← malloc_record
    (elim scratch [ none ↦ pure e_nomem | some rec ↦ repair_with rec ])
