-- ===== src/Nvol/Set.antt =====
-- `record_set` of src/nvram/nvol3.c for a key that the lookup table does not have, on a volume whose
-- next slot is erased.
use nvol.Base.{
  ℕ, ◌+◌, ◌-◌, ◌%◌, ◌^◌, ◌≤◌, ◌<◌, ◌≡◌, refl, ◌∙◌, List, false, none, some, arith, leb, ◌==◌, take,
  le→ltb_false, ==_ne,
}
use nvol.Base.Bytes.{inc16, inc32}
use nvol.Base.Status.{eok}
use nvol.Dictionary.Keys.Laws.{IsKey}
use nvol.Dictionary.{Dictionary, dictionary_count, dictionary_get, dict_lookup}
use nvol.Flash.Content.{IsErased}
use nvol.Flash.{IsNor}
use nvol.Nvol.Api.{ask_callback, compare_old, store_record, commit, record_set, nvol3_record_set}
use nvol.Nvol.Lookup.{retrieve_lookup_table}
use nvol.Nvol.Geometry.{IsConfig}
use nvol.Nvol.Insert.{IsTable, Enters, entry_for, insert_lookup_table_lem}
use nvol.Nvol.RoundTrip.{Fits, append-Stored, new_record_of, valid_head}
use nvol.Nvol.Slots.{Volume, write_variable_record, set_variable_record_flags}
use nvol.Nvol.Stored.Heads.{Stored}
use nvol.Nvol.Stored.{InReach, Changes}
use nvol.Nvol.{
  Record, Entry, Config, headroom, flags_valid, max_records, max_length, slot_addr, bind_run,
  get_dict, invalid_var_idx,
}

module _ (config : Config) (nor : IsNor config.flash) (c : IsConfig config) where
  -- A volume in use, with its lookup table, whose next slot is there and erased.
  pub record HasRoom (s : Volume config) (dict : Dictionary Entry) : Type 0 where
    pub loaded : s.dict ≡ some dict
    pub table : IsTable dict s.heap
    pub reach : InReach config nor c s s.sector
    pub slot : s.next_idx < max_records config
    pub blank : IsErased (nor.peek s.dev) (slot_addr config s.sector s.next_idx) config.record_size
    pub headroom : dict.count + headroom < max_records config

  -- What `record_set` leaves behind: the record stands in the slot that was next, the lookup table
  -- leads there, and the counters and the rest of the FLASH are as they should be.
  pub record Sets (s s' : Volume config) (dict dict' : Dictionary Entry) (n : ℕ) (kd : List ℕ)
      : Type 0 where
    pub loaded : s'.dict ≡ some dict'
    pub table : IsTable dict' s'.heap
    pub enters :
        Enters dict dict' kd s.heap.next
          (entry_for config s.heap (new_record_of config nor c n kd) s.next_idx)
    pub count : dict'.count ≤ dict.count + 1
    pub stored :
        Stored
          (nor.peek s'.dev)
          (slot_addr config s.sector s.next_idx)
          (valid_head n kd)
          (take n kd)
    pub changes :
        Changes config nor c s.dev s'.dev (slot_addr config s.sector s.next_idx) config.record_size
    pub sector : s'.sector ≡ s.sector
    pub next : s'.next_idx ≡ s.next_idx + 1
    pub inuse : s'.inuse ≡ inc32 s.inuse
    pub invalid : s'.invalid ≡ s.invalid
    pub error : s'.error ≡ s.error

  module _ (s : Volume config) (dict : Dictionary Entry) (room : HasRoom s dict) (n : ℕ)
      (kd : List ℕ) (f : Fits config nor c n kd) (key : IsKey kd) where
    abbrev rec : Record
    rec = new_record_of config nor c n kd

    store_record_new :
        (s' : Volume config) × (dict' : Dictionary Entry) × (store_record config rec invalid_var_idx
            s
          ≡ some (eok, s'))
        × Sets s s' dict dict' n kd
    unfolding store_record commit
    store_record_new =
        let (d1, d2, run1, run2, ch1, st, ch) =
          append-Stored config nor c s s.sector s.next_idx n kd room.reach room.slot f room.blank in
        let s2 : Volume config = record s {
          dev = d2;
          next_idx = inc16 s.next_idx;
          inuse = inc32 s.inuse;
        } in
        let (dict', heap', run, table, enters, count) =
          insert_lookup_table_lem config s2 dict rec s.next_idx room.loaded room.table key
            (omega (arith, room.headroom, c.slots_small)) in
        (
          record s2 { dict = some dict'; heap = heap' },
          dict',
          bind_run (write_variable_record config s.sector rec s.next_idx) _ s
                (record s { dev = d1 }) eok run1
              ∙ bind_run (set_variable_record_flags config s.sector flags_valid s.next_idx) _
                  (record s { dev = d1 }) (record s { dev = d2 }) eok run2
              ∙ run,
          record {
            loaded = refl;
            table = table;
            enters = enters;
            count = count;
            stored = st;
            changes = ch;
            sector = refl;
            next = omega (arith, room.slot, c.slots_small);
            inuse = refl;
            invalid = refl;
            error = refl;
          },
        )

  pub has_dict :
      (s : Volume config) (dict : Dictionary Entry)
      → s.dict ≡ some dict
      → get_dict s ≡ some (dict, s)
  has_dict s dict e = rw e

  -- `record_set`, called without an entry for the key and with a value of n bytes that fits a
  -- record and that the write callback accepts, on a volume with room: it succeeds, the record
  -- stands as valid in the slot that was next, nothing else in the FLASH changed, and the lookup table
  -- has an entry of the key that leads to the slot, and every other entry as before.
  pub record_set_new :
      (s : Volume config) (dict : Dictionary Entry) (value : Record) (n : ℕ)
      → HasRoom s dict
      → Fits config nor c n value.key_and_data
      → IsKey value.key_and_data
      → ask_callback config (new_record_of config nor c n value.key_and_data) ≡ eok
      → (s' : Volume config) × (dict' : Dictionary Entry) × (record_set config none value n s
          ≡ some (eok, s'))
        × Sets s s' dict dict' n value.key_and_data
  unfolding record_set compare_old dictionary_count
  record_set_new s dict value n room f key accepts =
      let (s', dict', run, sets) = store_record_new s dict room n value.key_and_data f key in
      let below : leb ((max_records config + 2 ^ 32 - headroom) % 2 ^ 32) (dictionary_count dict)
          ≡ false =
        ground (arith, room.headroom, c.slots_small) in
      let short = le→ltb_false (max_length config) n f.short in
      let more : (0 == n) ≡ false = ==_ne 0 n (omega (arith, f.some_bytes)) in
      (
        s',
        dict',
        bind_run get_dict _ s s dict (has_dict s dict room.loaded)
            ∙ rw (short, below, more, accepts) run,
        sets,
      )

  pub nvol3_record_set_new :
      (s : Volume config) (dict : Dictionary Entry) (value : Record) (n : ℕ)
      → HasRoom s dict
      → dict_lookup dict value.key_and_data ≡ none
      → Fits config nor c n value.key_and_data
      → IsKey value.key_and_data
      → ask_callback config (new_record_of config nor c n value.key_and_data) ≡ eok
      → (s' : Volume config) × (dict' : Dictionary Entry) × (nvol3_record_set config value n s
          ≡ some (eok, s'))
        × Sets s s' dict dict' n value.key_and_data
  unfolding nvol3_record_set retrieve_lookup_table dictionary_get
  nvol3_record_set_new s dict value n room absent f key accepts =
      let (s', dict', run, sets) = record_set_new s dict value n room f key accepts in
      let free : leb (max_records config) s.next_idx ≡ false = ground (arith, room.slot) in
      let found : retrieve_lookup_table config dict value ≡ none =
        simp (retrieve_lookup_table, dictionary_get, absent) in
      (
        s',
        dict',
        simp (nvol3_record_set, free)
            (bind_run get_dict _ s s dict (has_dict s dict room.loaded) ∙ rw found run),
        sets,
      )
