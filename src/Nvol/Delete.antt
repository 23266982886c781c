-- ===== src/Nvol/Delete.antt =====
-- `nvol3_record_delete` of src/nvram/nvol3.c.
use nvol.Base.{ℕ, ◌^◌, ◌≤◌, ◌<◌, ◌≡◌, refl, ◌∙◌, List, none, some, arith, if◌then◌else◌, lt→ltb}
use nvol.Base.Bytes.{inc32, dec32}
use nvol.Base.Status.{eok, e_invalid}
use nvol.Dictionary.Remove.{dictionary_remove_lem, remove_keeps}
use nvol.Dictionary.Table.{same, IsValid}
use nvol.Dictionary.{
  Dictionary, Node, dict_lookup, dictionary_get, dictionary_get_value, dictionary_remove,
}
use nvol.Flash.{IsNor}
use nvol.Nvol.Api.{nvol3_record_delete, retire}
use nvol.Nvol.Geometry.{IsConfig}
use nvol.Nvol.Set.{has_dict}
use nvol.Nvol.Slots.{Volume, check_head, read_variable_record, set_variable_record_flags}
use nvol.Nvol.Stored.Heads.{IsHead, Stored, parse}
use nvol.Nvol.Stored.{InReach, Changes, read_head, invalidate-Stored}
use nvol.Nvol.{
  Head, Record, Entry, Config, flags_invalid, max_records, slot_addr, bind_run, get_dict,
}

module _ (config : Config) (nor : IsNor config.flash) (c : IsConfig config) where
  -- An invalid record is refused by the reader.
  pub read_invalid :
      (s : Volume config) (idx : ℕ) (h : Head) (body : List ℕ) (var : Record)
      → InReach config nor c s s.sector
      → idx < max_records config
      → IsHead h
      → h.flags ≡ flags_invalid
      → Stored (nor.peek s.dev) (slot_addr config s.sector idx) h body
      → read_variable_record config s var idx 0 ≡ (e_invalid, record var { head = h })
  unfolding read_variable_record check_head
  read_invalid s idx h body var reach slot w dead st =
      let chk : check_head config h ≡ e_invalid = rw dead refl in
      rw (lt→ltb idx _ slot, read_head config nor c s idx slot reach h body st, parse h w, chk)

  -- The node of the key that is deleted, and the record that it leads to.
  pub record Deletable (s : Volume config) (dict : Dictionary Entry) (key : List ℕ)
      (np : Node Entry) (h : Head) (body : List ℕ) : Type 0 where
    pub loaded : s.dict ≡ some dict
    pub valid : IsValid dict
    pub counted : dict.count < 2 ^ 32
    pub there : dict_lookup dict key ≡ some np
    pub reach : InReach config nor c s s.sector
    pub slot : np.value.idx < max_records config
    pub head : IsHead h
    pub stored : Stored (nor.peek s.dev) (slot_addr config s.sector np.value.idx) h body

  pub retire_run :
      (s : Volume config) (idx : ℕ) (d : config.flash.Dev)
      → set_variable_record_flags config s.sector flags_invalid idx s
        ≡ some (eok, record s { dev = d })
      → retire config idx s
        ≡ some (tt, record s { dev = d; inuse = dec32 s.inuse; invalid = inc32 s.invalid })
  unfolding retire
  retire_run s idx d run =
      bind_run (set_variable_record_flags config s.sector flags_invalid idx) _ s
        (record s { dev = d }) eok run

  -- `nvol3_record_delete` of a key that the lookup table leads to a slot for: it succeeds, no matching
  -- key is found any more and every other key as before, reading the slot reports an invalid record,
  -- nothing outside of the slot changed, one record is counted from those in use to the invalid ones, and
  -- the sector in use and the next slot stay the same, and the table stays well formed and does not grow.
  pub nvol3_record_delete_lem :
      (s : Volume config) (dict : Dictionary Entry) (rec : Record) (np : Node Entry) (h : Head)
      (body : List ℕ)
      → Deletable s dict rec.key_and_data np h body
      → (s' : Volume config) × (dict' : Dictionary Entry) × (nvol3_record_delete config rec s
          ≡ some (eok, s'))
        × (s'.dict ≡ some dict')
        × ((q : List ℕ)
            → dict_lookup dict' q
              ≡ (if same dict rec.key_and_data q then none else dict_lookup dict q))
        × ((var : Record)
            → read_variable_record config s' var np.value.idx 0
              ≡ (e_invalid, record var { head = record h { flags = flags_invalid } }))
        × Changes config nor c s.dev s'.dev
            (slot_addr config s.sector np.value.idx)
            config.record_size
        × (s'.inuse ≡ dec32 s.inuse)
        × (s'.invalid ≡ inc32 s.invalid)
        × (s'.sector ≡ s.sector)
        × (s'.next_idx ≡ s.next_idx)
        × IsValid dict'
        × (dict'.count ≤ dict.count)
  unfolding nvol3_record_delete dictionary_get dictionary_get_value
  nvol3_record_delete_lem s dict rec np h body t =
      let idx = np.value.idx in
      let (d, run, st, ch) =
        invalidate-Stored config nor c s s.sector idx t.slot t.reach h body t.stored in
      let (_, seen, valid) = dictionary_remove_lem dict t.valid rec.key_and_data t.counted in
      let (_, _, fewer) = remove_keeps dict t.valid rec.key_and_data t.counted in
      let dict' = (dictionary_remove dict rec.key_and_data).1 in
      let s' : Volume config = record s {
        dev = d;
        inuse = dec32 s.inuse;
        invalid = inc32 s.invalid;
        dict = some dict';
      } in
      (
        s',
        dict',
        bind_run get_dict _ s s dict (has_dict config nor c s dict t.loaded)
            ∙ rw t.there (
                bind_run (retire config idx) _ s
                  (record s { dev = d; inuse = dec32 s.inuse; invalid = inc32 s.invalid }) tt
                  (retire_run s idx d run)),
        refl,
        seen,
        λ var.
            read_invalid s' idx (record h { flags = flags_invalid }) body var
              (record { capacity = rw ch.capacity t.reach.capacity; address = t.reach.address })
              t.slot
              (record {
                flags = omega arith;
                length = t.head.length;
                checksum = t.head.checksum;
                reserved = t.head.reserved;
              })
              refl st,
        ch,
        refl,
        refl,
        refl,
        refl,
        valid,
        fewer,
      )
