-- ===== src/Nvol/Api.antt =====
-- The functions of src/nvram/nvol3.c on single records, and the iterators over them.
use Prim.Native.Nat.{Ordering}
use nvol.Base.{
  ℕ, suc, ◌+◌, ◌-◌, ◌%◌, ◌^◌, List, ◌∷◌, ◌++◌, not, Option, none, some, ltb, leb, ◌==◌,
  if◌then◌else◌, take, drop,
}
use nvol.Base.Bytes.{inc16, inc32, dec32, overlay}
use nvol.Base.Status.{Status, eok, efail, e_nomem, e_notfound, is_eok, Reply, len, failed}
use nvol.Dictionary.{
  Node, dictionary_get, dictionary_get_key, dictionary_get_value, dictionary_remove,
  dictionary_count,
}
use nvol.Dictionary.Iterator.{Compare}
use nvol.Nvol.{
  Head, Record, Entry, Config, M, pure, ◌>>=◌, ◌>>◌, get, modify, get_dict, headroom,
  invalid_var_idx, flags_new, flags_valid, flags_invalid, max_records, max_length,
}
use nvol.Nvol.Lookup.{insert_lookup_table, retrieve_lookup_table}
use nvol.Nvol.Slots.{
  Volume, checksum, read_variable_record, read_variable_record_head, write_variable_record,
  set_variable_record_flags,
}
use nvol.Nvol.Swap.{malloc_record, swap_sectors}

-- The loop of `record_set` that compares the new bytes with the old ones, over the first `n`.
unfoldable pub same_bytes : ℕ → List ℕ → List ℕ → ℕ
same_bytes (suc n) (a ∷ xs) (b ∷ ys) = if a == b then suc (same_bytes n xs ys) else 0
same_bytes _ _ _ = 0

-- The header that `record_set` gives to a record of `n` bytes.
unfoldable pub new_head : ℕ → List ℕ → Head
new_head n key_and_data = record {
  flags = flags_new;
  length = n % 2 ^ 16;
  checksum = checksum n key_and_data;
  reserved = 0xFFFF;
}

-- `DLIST_COMPARE_T` made of a comparison of keys, as `nvol3_cmp` makes it
abbrev pub nvol3_cmp : (List ℕ → List ℕ → Ordering) → Compare Entry
nvol3_cmp cmp first second = cmp (dictionary_get_key first) (dictionary_get_key second)

-- `nvol3_callback_tallie`
unfoldable pub nvol3_callback_tallie : Record → Status
nvol3_callback_tallie rec = eok

module _ (config : Config) where
  -- How many leading bytes of the value are those of the record in slot `idx` already.
  unfoldable pub unchanged : Volume config → Record → Record → ℕ → ℕ → ℕ
  unchanged s var value idx n =
      let (status, old) = read_variable_record config s var idx 0 in
      if not (is_eok status)
      then 0
      else if n == old.head.length
      then same_bytes n value.key_and_data old.key_and_data
      else 0

  -- The part of `record_set` that looks at the old record: `none` when there is no memory for it.
  unfoldable pub compare_old : Option Entry → Record → ℕ → M config.flash.Dev (Option ℕ)
  compare_old none value n = pure (some 0)
  compare_old (some entry) value n = do
    var ← malloc_record config
    s ← get
    (elim var [ none ↦ pure none | some v ↦ pure (some (unchanged s v value entry.idx n)) ])

  -- A write that failed uses up its slot.
  unfoldable pub write_failed : Status → M config.flash.Dev Status
  write_failed status = do
    s ← get
    _ ← set_variable_record_flags config s.sector flags_invalid s.next_idx
    modify (λ s. record s {
      next_idx = inc16 s.next_idx;
      invalid = inc32 s.invalid;
      error = inc32 s.error;
    })
    pure status

  -- The old record is marked as invalid.
  unfoldable pub retire : ℕ → M config.flash.Dev (Unit {0})
  retire idx = do
    s ← get
    _ ← set_variable_record_flags config s.sector flags_invalid idx
    modify (λ s. record s { inuse = dec32 s.inuse; invalid = inc32 s.invalid })

  -- The new record is in its slot: it is made valid, the old one invalid, and the lookup table is
  -- brought up to date.
  unfoldable pub commit : Record → ℕ → M config.flash.Dev Status
  commit rec idx = do
    s ← get
    status ← set_variable_record_flags config s.sector flags_valid s.next_idx
    modify (λ s. record s { next_idx = inc16 s.next_idx })
    if not (is_eok status) then pure status else (do
      modify (λ s. record s { inuse = inc32 s.inuse })
      (if idx == invalid_var_idx then pure tt else retire idx)
      insert_lookup_table config rec s.next_idx)

  unfoldable pub store_record : Record → ℕ → M config.flash.Dev Status
  store_record rec idx = do
    s ← get
    status ← write_variable_record config s.sector rec s.next_idx
    if is_eok status then commit rec idx else write_failed status

  -- The write callback can refuse the record.
  unfoldable pub ask_callback : Record → Status
  ask_callback rec = elim config.write_cb [ none ↦ eok | some cb ↦ cb rec ]

  -- `record_set`: `entry` is what the lookup table has for the key.
  unfoldable pub record_set : Option Entry → Record → ℕ → M config.flash.Dev Status
  record_set entry value n = do
    dict ← get_dict
    if ltb (max_length config) n
        then pure efail
        else if leb ((max_records config + 2 ^ 32 - headroom) % 2 ^ 32) (dictionary_count dict)
        then pure efail
        else (do
          same ← compare_old entry value n
          (elim same [
            | none ↦ pure e_nomem
            | some k ↦
                if k == n
                then pure eok
                else let rec : Record = record value { head = new_head n value.key_and_data } in
                  if not (is_eok (ask_callback rec))
                  then pure (ask_callback rec)
                  else store_record rec (elim entry [ none ↦ invalid_var_idx | some e ↦ e.idx ])
          ]))

  -- A full sector is swapped first: `nvol3_record_set` and `nvol3_entry_save` both begin so.
  unfoldable pub make_room : Option Record → M config.flash.Dev Status
  make_room none = pure e_nomem
  make_room (some scratch) = do
    status ← swap_sectors config scratch
    pure (if is_eok status then eok else efail)

  -- `nvol3_record_set`
  unfoldable pub nvol3_record_set : Record → ℕ → M config.flash.Dev Status
  nvol3_record_set value n = do
    s ← get
    status ←
        if leb (max_records config) s.next_idx
        then (malloc_record config >>= make_room)
        else pure eok
    if not (is_eok status)
        then pure status
        else (do dict ← get_dict; record_set (retrieve_lookup_table config dict value) value n)

  -- The head of a record buffer is cleared before it is used.
  unfoldable pub clear_head : Record → Record
  clear_head rec = record rec {
    head = record { flags = 0; length = 0; checksum = 0; reserved = 0 };
  }

  -- The value that an entry keeps in RAM, copied to a record buffer behind the key.
  unfoldable pub local_record : Node Entry → Record → Record
  local_record m rec =
      let key = take config.key_size (dictionary_get_key m) in
      let buf = overlay key rec.key_and_data in
      record rec {
        key_and_data = take config.key_size buf ++ overlay m.value.local (drop config.key_size buf);
      }

  -- `record_get`: the length of key and data, and the record buffer as it is filled.
  unfoldable pub record_get : Volume config → Record → Option (Node Entry) → Reply × Record
  record_get s rec none = (failed e_notfound, clear_head rec)
  record_get s rec (some m) =
      let entry = dictionary_get_value m in
      if leb entry.length config.local_size
      then (len (entry.length + config.key_size), local_record m (clear_head rec))
      else if entry.idx == invalid_var_idx
      then (failed e_notfound, clear_head rec)
      else let (status, out) = read_variable_record config s (clear_head rec) entry.idx 0 in
        if is_eok status then (len out.head.length, out) else (failed status, out)

  -- `nvol3_record_get`
  unfoldable pub nvol3_record_get : Record → M config.flash.Dev (Reply × Record)
  nvol3_record_get rec = do
    dict ← get_dict
    s ← get
    pure (record_get s rec (dictionary_get dict rec.key_and_data))

  -- `nvol3_record_delete`
  unfoldable pub nvol3_record_delete : Record → M config.flash.Dev Status
  nvol3_record_delete rec = do
    dict ← get_dict
    (elim (dictionary_get dict rec.key_and_data) [
      | none ↦ pure e_notfound
      | some m ↦ do
        retire (dictionary_get_value m).idx
        modify (λ s. record s { dict = some (dictionary_remove dict rec.key_and_data).1 })
        pure eok
    ])

  -- `nvol3_record_key_and_data_length`; `head` is what the local variable holds at first.
  unfoldable pub nvol3_record_key_and_data_length : List ℕ → Head → M config.flash.Dev Reply
  nvol3_record_key_and_data_length key head = do
    dict ← get_dict
    s ← get
    (elim (dictionary_get dict key) [
      | none ↦ pure (failed efail)
      | some m ↦
          let (status, h) = read_variable_record_head config s head (dictionary_get_value m).idx in
          if is_eok status then pure (len h.length) else pure (failed efail)
    ])

  -- `nvol3_record_status`
  unfoldable pub nvol3_record_status : List ℕ → M config.flash.Dev Status
  nvol3_record_status key = do
    dict ← get_dict
    (elim (dictionary_get dict key) [ none ↦ pure e_notfound | some _ ↦ pure eok ])
