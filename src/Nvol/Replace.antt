-- ===== src/Nvol/Replace.antt =====
-- `store_record`, the writing part of `record_set` of src/nvram/nvol3.c, for a key that has a record
-- already.
use nvol.Base.{
  ℕ, ◌+◌, ◌^◌, ◌≤◌, ◌<◌, ◌≡◌, ◌≢◌, ◌⊎◌, refl, ◌∙◌, List, some, arith, ◌==◌, if◌then◌else◌, length,
  take, ==_ne,
}
use nvol.Base.Bytes.{bytes16, inc16, inc32, dec32}
use nvol.Base.Status.{eok}
use nvol.Dictionary.Keys.Laws.{IsKey}
use nvol.Dictionary.{Dictionary}
use nvol.Flash.{IsNor}
use nvol.Nvol.Api.{retire, commit, store_record}
use nvol.Nvol.Delete.{retire_run}
use nvol.Nvol.Geometry.{IsConfig, slot_addr_lem, slots_apart, max_length_lem}
use nvol.Nvol.Insert.{IsTable, Enters, entry_for, insert_lookup_table_lem}
use nvol.Nvol.RoundTrip.{Fits, append-Stored, new_record_of, valid_head, length-take_all}
use nvol.Nvol.Set.{HasRoom}
use nvol.Nvol.Slots.{Volume, write_variable_record, set_variable_record_flags}
use nvol.Nvol.Stored.Heads.{Stored}
use nvol.Nvol.Stored.{InReach, Changes, invalidate-Stored}
use nvol.Nvol.{
  Head, Entry, Config, flags_valid, flags_invalid, max_records, max_length, slot_addr, head_size,
  head_bytes, bind_run, pure, invalid_var_idx,
}

module _ (config : Config) (nor : IsNor config.flash) (c : IsConfig config) where
  -- A record stays where it is while another range changes.
  pub Stored-Changes :
      (d d' : config.flash.Dev) (p q n : ℕ) (h : Head) (body : List ℕ)
      → Changes config nor c d d' q n
      → (p + (head_size + length body) ≤ q) ⊎ (q + n ≤ p)
      → Stored (nor.peek d) p h body
      → Stored (nor.peek d') p h body
  unfolding head_bytes bytes16
  Stored-Changes d d' p q n h body ch apart st i lt = ch.outside (p + i) (omega arith) ∙ st i lt

  -- Different slots of a sector are apart.
  pub slots_far :
      (sector i j : ℕ)
      → sector + config.sector_size < 2 ^ 32
      → i < max_records config
      → j < max_records config
      → i ≢ j
      → (slot_addr config sector i + config.record_size ≤ slot_addr config sector j)
        ⊎ (slot_addr config sector j + config.record_size ≤ slot_addr config sector i)
  slots_far sector i j h p q ne =
      let at_i = slot_addr_lem config c sector i h p in
      let at_j = slot_addr_lem config c sector j h q in omega (arith, slots_apart config c i j ne)

  -- The record that is replaced: it stands in a slot before the next one.
  pub record HasOld (s : Volume config) (idx : ℕ) (h : Head) (body : List ℕ) : Type 0 where
    pub slot : idx < max_records config
    pub other : idx ≢ s.next_idx
    pub short : length body ≤ max_length config
    pub stored : Stored (nor.peek s.dev) (slot_addr config s.sector idx) h body

  -- What `store_record` leaves behind: both records stand in their slots, the new one valid and the
  -- old one invalid, the lookup table leads to the new one and has one node more at most, and the rest
  -- of the FLASH is as before.
  pub record Replaces (s s' : Volume config) (dict dict' : Dictionary Entry) (n : ℕ) (kd : List ℕ)
      (idx : ℕ) (h : Head) (body : List ℕ) : Type 0 where
    pub loaded : s'.dict ≡ some dict'
    pub table : IsTable dict' s'.heap
    pub enters :
        Enters dict dict' kd s.heap.next
          (entry_for config s.heap (new_record_of config nor c n kd) s.next_idx)
    pub stored :
        Stored
          (nor.peek s'.dev)
          (slot_addr config s.sector s.next_idx)
          (valid_head n kd)
          (take n kd)
    pub old :
        Stored
          (nor.peek s'.dev)
          (slot_addr config s.sector idx)
          (record h { flags = flags_invalid })
          body
    pub outside :
        (a : ℕ)
        → (a < slot_addr config s.sector s.next_idx)
          ⊎ (slot_addr config s.sector s.next_idx + config.record_size ≤ a)
        → (a < slot_addr config s.sector idx)
          ⊎ (slot_addr config s.sector idx + config.record_size ≤ a)
        → nor.peek s'.dev a ≡ nor.peek s.dev a
    pub capacity : nor.capacity s'.dev ≡ nor.capacity s.dev
    pub count : dict'.count ≤ dict.count + 1
    pub sector : s'.sector ≡ s.sector
    pub next : s'.next_idx ≡ s.next_idx + 1
    pub inuse : s'.inuse ≡ dec32 (inc32 s.inuse)
    pub invalid : s'.invalid ≡ inc32 s.invalid

  -- `store_record` of n bytes that fit a record, on a volume with room, for a key whose old record
  -- stands in another slot: it succeeds, the new record stands as valid in the slot that was next, the
  -- old one as invalid in its own, nothing outside of the two slots changed, the lookup table leads
  -- from the key to the new slot and from every other key as before, and one more record is counted as
  -- invalid.
  pub store_record_lem :
      (s : Volume config) (dict : Dictionary Entry) (n : ℕ) (kd : List ℕ) (idx : ℕ) (h : Head)
      (body : List ℕ)
      → HasRoom config nor c s dict
      → Fits config nor c n kd
      → IsKey kd
      → HasOld s idx h body
      → (s' : Volume config) × (dict' : Dictionary Entry) × (store_record config
            (new_record_of config nor c n kd)
            idx
            s
          ≡ some (eok, s'))
        × Replaces s s' dict dict' n kd idx h body
  unfolding store_record commit
  store_record_lem s dict n kd idx h body room f key old =
      let rec = new_record_of config nor c n kd in
      let next = slot_addr config s.sector s.next_idx in
      let place = slot_addr config s.sector idx in
      let size = config.record_size in
      let far = slots_far s.sector idx s.next_idx room.reach.address old.slot room.slot old.other in
      let (d1, d2, run1, run2, ch1, st, ch) =
        append-Stored config nor c s s.sector s.next_idx n kd room.reach room.slot f room.blank in
      let s2 : Volume config = record s {
        dev = d2;
        next_idx = inc16 s.next_idx;
        inuse = inc32 s.inuse;
      } in
      let fits : head_size + length body ≤ size =
        omega (arith, old.short, max_length_lem config c, c.record_room) in
      let st2 = Stored-Changes s.dev d2 place next size h body ch (omega arith) old.stored in
      let reach2 : InReach config nor c s2 s.sector = record {
        capacity = rw ch.capacity room.reach.capacity;
        address = room.reach.address;
      } in
      let (d3, run3, st3, ch3) =
        invalidate-Stored config nor c s2 s.sector idx old.slot reach2 h body st2 in
      let s3 : Volume config = record s2 {
        dev = d3;
        inuse = dec32 s2.inuse;
        invalid = inc32 s.invalid;
      } in
      let long : head_size + length (take n kd) ≤ size =
        omega
          (arith, length-take_all n kd f.enough, f.short, max_length_lem config c, c.record_room) in
      let real = ==_ne idx invalid_var_idx (omega (arith, old.slot, c.slots_small)) in
      let (dict', heap', run, table, enters, count) =
        insert_lookup_table_lem config s3 dict rec s.next_idx room.loaded room.table key
          (omega (arith, room.headroom, c.slots_small)) in
      (
        record s3 { dict = some dict'; heap = heap' },
        dict',
        bind_run (write_variable_record config s.sector rec s.next_idx) _ s (record s { dev = d1 })
              eok run1
            ∙ bind_run (set_variable_record_flags config s.sector flags_valid s.next_idx) _
                (record s { dev = d1 }) (record s { dev = d2 }) eok run2
            ∙ bind_run (if idx == invalid_var_idx then pure tt else retire config idx) _ s2 s3 tt
                (rw real (retire_run config nor c s2 idx d3 run3))
            ∙ run,
        record {
          loaded = refl;
          table = table;
          enters = enters;
          stored =
              Stored-Changes d2 d3 next place size (valid_head n kd) (take n kd) ch3 (omega arith)
                st;
          old = st3;
          outside = λ a p q. ch3.outside a q ∙ ch.outside a p;
          capacity = ch3.capacity ∙ ch.capacity;
          count = count;
          sector = refl;
          next = omega (arith, room.slot, c.slots_small);
          inuse = refl;
          invalid = refl;
        },
      )
