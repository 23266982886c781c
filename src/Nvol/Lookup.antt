-- ===== src/Nvol/Lookup.antt =====
-- The lookup table of a volume (src/nvram/nvol3.c): the dictionary in RAM that finds the slot of a
-- key, and its construction from the records of a sector.
use nvol.Base.{
  ℕ, zero, suc, ◌+◌, ◌-◌, ◌*◌, ◌%◌, ◌^◌, true, false, Option, none, some, ltb, ◌==◌, if◌then◌else◌,
  take, drop, replicate,
}
use nvol.Base.Bytes.{inc16, inc32}
use nvol.Base.Heap.{Heap}
use nvol.Base.Status.{Status, eok, e_nomem, e_empty, e_invalid, e_timeout, e_version, is_eok}
use nvol.Dictionary.{
  Dictionary, dictionary_get, dictionary_get_value, dictionary_remove, dictionary_install_size,
  write_value, dictionary_remove_all,
}
use nvol.Nvol.{
  Record, Entry, Config, M, pure, ◌>>=◌, ◌>>◌, get, modify, get_dict, flags_invalid, max_records,
}
use nvol.Nvol.Sectors.{get_sector_version}
use nvol.Nvol.Slots.{read_variable_record, set_variable_record_flags, variable_record_valid}

-- What a round of the loop of `construct_lookup_table` does: leave the loop with a status, or go on.
pub data Round : Type 0 where
  leave : Status → Round
  next_slot : Round

module _ (config : Config) where
  -- What the memory of a new entry holds before it is written.
  unfoldable pub raw_entry : Heap → ℕ → Entry
  raw_entry heap localsize = record {
    idx = heap.fill + 256 * heap.fill;
    length = heap.fill + 256 * heap.fill;
    local = replicate localsize heap.fill;
  }

  -- The bytes of the value that the entry keeps: none where they are more than `local_size`.
  unfoldable pub local_bytes : Record → ℕ
  local_bytes rec =
      let n = (rec.head.length + 2 ^ 32 - config.key_size) % 2 ^ 32 in
      if ltb config.local_size n then 0 else n

  -- the writes to the fields of the entry
  unfoldable pub fill_entry : Record → ℕ → Entry → Entry
  fill_entry rec idx entry =
      let localsize = local_bytes rec in
      record entry {
        idx = idx;
        length = (rec.head.length + 2 ^ 16 - config.key_size) % 2 ^ 16;
        local =
            if localsize == 0
            then entry.local
            else take localsize (drop config.key_size rec.key_and_data);
      }

  -- `insert_lookup_table`: an old entry of the key goes, a new one is installed.
  unfoldable pub insert_lookup_table : Record → ℕ → M config.flash.Dev Status
  insert_lookup_table rec idx s = elim s.dict [
    | none ↦ none
    | some dict ↦
        let (_, dict') = dictionary_remove dict rec.key_and_data in
        let (m, dict'', heap) =
          dictionary_install_size dict' rec.key_and_data (raw_entry s.heap (local_bytes rec))
            s.heap in
        elim m [
          | none ↦ some (e_nomem, record s { dict = some dict''; heap = heap })
          | some a ↦ some (
            eok,
            record s { dict = some (write_value dict'' a (fill_entry rec idx)); heap = heap },
          )
        ]
  ]

  -- `retrieve_lookup_table`
  unfoldable pub retrieve_lookup_table : Dictionary Entry → Record → Option Entry
  retrieve_lookup_table dict value = elim (dictionary_get dict value.key_and_data) [
    | none ↦ none
    | some np ↦ some (dictionary_get_value np)
  ]

  unfoldable pub count_invalid : M config.flash.Dev Round
  count_invalid s = some (next_slot, record s { invalid = inc32 s.invalid })

  unfoldable pub count_error : M config.flash.Dev Round
  count_error s = some (next_slot, record s { error = inc32 s.error })

  unfoldable pub count_inserted : Status → M config.flash.Dev Round
  count_inserted eok s = some (next_slot, record s { inuse = inc32 s.inuse })
  count_inserted status s = some (leave status, s)

  unfoldable pub reject_record : ℕ → M config.flash.Dev Round
  reject_record idx = do
    s ← get
    _ ← set_variable_record_flags config s.sector flags_invalid idx
    modify (λ s. record s { error = inc32 s.error; invalid = inc32 s.invalid })
    pure next_slot

  -- A record that was read without an error goes into the table if its checksum is right, and is
  -- marked as invalid if not.
  unfoldable pub construct_record : Record → ℕ → M config.flash.Dev Round
  construct_record rec idx =
      if is_eok (variable_record_valid rec)
      then insert_lookup_table rec idx >>= count_inserted
      else reject_record idx

  unfoldable pub construct_round : Status → Record → ℕ → M config.flash.Dev Round
  construct_round e_empty rec idx = pure (leave eok)
  construct_round e_timeout rec idx = count_invalid
  construct_round e_invalid rec idx = count_invalid
  construct_round eok rec idx = construct_record rec idx
  construct_round _ rec idx = count_error

  -- The loop, with fuel; `none` is also a loop that does not end.
  unfoldable pub construct_loop : ℕ → ℕ → Record → M config.flash.Dev (Status × ℕ × Record)
  construct_loop zero idx scratch s = none
  construct_loop (suc f) idx scratch s = elim (ltb idx (max_records config)) [
    | false ↦ some ((eok, idx, scratch), s)
    | true ↦
        let (status, rec) = read_variable_record config s scratch idx 0 in
        elim (construct_round status rec idx s) [
          | none ↦ none
          | some (r, s') ↦ elim r [
            | leave st ↦ some ((st, idx, rec), s')
            | next_slot ↦ construct_loop f (inc16 idx) rec s'
          ]
        ]
  ]

  unfoldable pub clear_table : M config.flash.Dev (Unit {0})
  clear_table = do
    dict ← get_dict
    modify λ s. record s {
      dict = some (dictionary_remove_all dict);
      inuse = 0;
      invalid = 0;
      error = 0;
    }

  -- `construct_lookup_table`; the buffer is returned as the loop leaves it. A sector has room for one
  -- record at least, so the status is that of the last round.
  unfoldable pub construct_lookup_table : Record → M config.flash.Dev (Status × Record)
  construct_lookup_table scratch = do
    clear_table
    (status, idx, rec) ← construct_loop (max_records config + 1) 0 scratch
    modify
        (λ s. record s { next_idx = idx; version = (get_sector_version config s.dev s.sector).0 })
    s ← get
    pure ((if s.version == config.version then status else e_version), rec)
