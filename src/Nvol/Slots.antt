-- ===== src/Nvol/Slots.antt =====
-- Records in a sector (src/nvram/nvol3.c): reading, writing and checking one slot.
use nvol.Base.{
  ℕ, ◌+◌, ◌-◌, ◌%◌, ◌^◌, List, [], ◌∷◌, ◌++◌, not, some, ltb, ◌==◌, if◌then◌else◌, take,
}
use nvol.Base.Bytes.{bytes16, overlay}
use nvol.Base.Status.{Status, eok, efail, e_empty, e_invalid, e_unknown, is_eok}
use nvol.Nvol.{
  Head, Record, Config, Instance, M, head_size, flags_empty, flags_valid, flags_invalid, head_bytes,
  head_of, max_records, max_length, slot_addr,
}

-- `checksum += key_and_data[byte]` over the bytes given
unfoldable pub sum16 : List ℕ → ℕ → ℕ
sum16 [] acc = acc
sum16 (b ∷ r) acc = sum16 r ((acc + b) % 2 ^ 16)

-- `0x10000 - checksum` as a uint16_t
unfoldable pub negate16 : ℕ → ℕ
negate16 c = (0x10000 - c) % 2 ^ 16

-- the checksum of the first `n` bytes, as `record_set` computes it
unfoldable pub checksum : ℕ → List ℕ → ℕ
checksum n key_and_data = negate16 (sum16 (take n key_and_data) 0)

module _ (config : Config) where
  abbrev pub Volume : Type 0
  Volume = Instance config.flash.Dev

  -- The tests on a header that both read functions make.
  unfoldable pub check_head : Head → Status
  check_head h =
      if h.flags == flags_empty
      then e_empty
      else if not (h.flags == flags_valid)
      then (if h.flags == flags_invalid then e_invalid else e_unknown)
      else if ltb (max_length config) h.length
      then e_unknown
      else eok

  -- `read_variable_record_head_sector`; the header is returned as it was read.
  unfoldable pub read_variable_record_head_sector : Volume → ℕ → Head → ℕ → Status × Head
  read_variable_record_head_sector s sector_addr head idx =
      if not (ltb idx (max_records config))
      then (efail, head)
      else let (status, raw) =
          config.flash.read (slot_addr config sector_addr idx) head_size s.dev in
        if not (is_eok status) then (status, head) else let h = head_of raw in (check_head h, h)

  -- `read_variable_record_head`
  unfoldable pub read_variable_record_head : Volume → Head → ℕ → Status × Head
  read_variable_record_head s head idx = read_variable_record_head_sector s s.sector head idx

  -- The second half of `read_variable_record`: the bytes behind a header that passed the tests.
  unfoldable pub read_body : Volume → ℕ → Record → ℕ → Status × Record
  read_body s addr rec bytes =
      let n =
        if bytes == 0
        then rec.head.length
        else if ltb rec.head.length bytes
        then rec.head.length
        else bytes in
      let (status, raw) = config.flash.read ((addr + head_size) % 2 ^ 32) n s.dev in
      if is_eok status
      then (eok, record rec { key_and_data = overlay raw rec.key_and_data })
      else (status, rec)

  -- `read_variable_record` into the buffer `rec`
  unfoldable pub read_variable_record : Volume → Record → ℕ → ℕ → Status × Record
  read_variable_record s rec idx bytes =
      if not (ltb idx (max_records config))
      then (efail, rec)
      else let addr = slot_addr config s.sector idx in
        let (status, raw) = config.flash.read addr head_size s.dev in
        if not (is_eok status)
        then (status, rec)
        else let rec' = record rec { head = head_of raw } in
          if not (is_eok (check_head rec'.head))
          then (check_head rec'.head, rec')
          else if rec'.head.length == 0
          then (eok, rec')
          else read_body s addr rec' bytes

  -- A write through the FLASH interface.
  unfoldable pub flash_write : ℕ → List ℕ → M config.flash.Dev Status
  flash_write addr bytes s =
      let (status, dev) = config.flash.write addr bytes s.dev in
      some (status, record s { dev = dev })

  -- `write_variable_record`: the header and as much of the buffer as it counts
  unfoldable pub write_variable_record : ℕ → Record → ℕ → M config.flash.Dev Status
  write_variable_record sector_addr rec idx s =
      if not (ltb idx (max_records config))
      then some (efail, s)
      else if rec.head.flags == 0
      then some (efail, s)
      else flash_write (slot_addr config sector_addr idx)
          (head_bytes rec.head ++ take rec.head.length rec.key_and_data) s

  -- `set_variable_record_flags`
  unfoldable pub set_variable_record_flags : ℕ → ℕ → ℕ → M config.flash.Dev Status
  set_variable_record_flags sector_addr flags idx s =
      if not (ltb idx (max_records config))
      then some (efail, s)
      else flash_write (slot_addr config sector_addr idx) (bytes16 flags) s

-- `variable_record_valid`
unfoldable pub variable_record_valid : Record → Status
variable_record_valid rec =
    if rec.head.checksum == checksum rec.head.length rec.key_and_data then eok else e_invalid
