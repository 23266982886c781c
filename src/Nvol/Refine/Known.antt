-- ===== src/Nvol/Refine/Known.antt =====
-- `record_set` of src/nvram/nvol3.c with a known key, on a volume that holds a map.
use nvol.Base.{
  ℕ, suc, ◌+◌, ◌-◌, ◌%◌, ◌^◌, ◌<◌, ◌≡◌, refl, sym, ap, ◌∙◌, List, [], Bool, false, some, inl, inr,
  arith, leb, ◌==◌, take, if◌then◌else◌, Bool-cases, le→ltb_false,
}
use nvol.Base.Bytes.{overlay}
use nvol.Base.Heap.{Heap}
use nvol.Base.Status.{eok}
use nvol.Dictionary.Keys.Laws.{IsKey}
use nvol.Dictionary.Table.{same, dict_lookup_congr}
use nvol.Dictionary.{Dictionary, Node, dict_lookup, dictionary_count}
use nvol.Flash.{IsNor}
use nvol.Nvol.Api.{
  same_bytes, new_head, unchanged, compare_old, store_record, ask_callback, record_set,
}
use nvol.Nvol.Geometry.{IsConfig}
use nvol.Nvol.Refine.Setting.{Refines-Puts}
use nvol.Nvol.Refine.{Map, map_set, Kept, Refines}
use nvol.Nvol.Replace.{store_record_lem}
use nvol.Nvol.RoundTrip.{
  Fits, Fits-small, new_record_of, valid_head, read_valid, take-overlay, length-take_all,
}
use nvol.Nvol.Set.{HasRoom, has_dict}
use nvol.Nvol.Slots.{Volume}
use nvol.Nvol.Swap.{new_record, malloc_record}
use nvol.Nvol.Unchanged.{malloc_record-ok}
use nvol.Nvol.{Record, Entry, Config, headroom, max_records, max_length, bind_run, get_dict}
use nvol.Nvol.Refine.Overwriting.{take-same_bytes, Replaces-Puts, Refines-heap}

module _ (config : Config) (nor : IsNor config.flash) (c : IsConfig config) where
  module _ (s : Volume config) (dict : Dictionary Entry) (m : Map) (value : Record) (n : ℕ)
      (r : Refines config nor c s dict m) (room : HasRoom config nor c s dict)
      (f : Fits config nor c n value.key_and_data) (key : IsKey value.key_and_data)
      (long : config.key_size < n)
      (accepts : ask_callback config (new_record_of config nor c n value.key_and_data) ≡ eok)
      (np : Node Entry) (bytes : List ℕ) (there : dict_lookup dict value.key_and_data ≡ some np)
      (k : Kept config nor c s np bytes) where
    abbrev kd : List ℕ
    kd = value.key_and_data

    -- The volume with the buffer for the old record.
    abbrev heap : Heap
    heap = record { next = suc s.heap.next; answers = []; fill = s.heap.fill }

    abbrev s1 : Volume config
    s1 = record s { heap = heap }

    abbrev var : Record
    var = new_record config s

    room1 : HasRoom config nor c s1 dict
    room1 = record {
      loaded = room.loaded;
      table = record {
        valid = room.table.valid;
        below = λ q np' h. omega (arith, room.table.below q np' h);
        answers = refl;
      };
      reach = record { capacity = room.reach.capacity; address = room.reach.address };
      slot = room.slot;
      blank = room.blank;
      headroom = room.headroom;
    }

    abbrev k1 : Kept config nor c s1 np bytes
    k1 = record {
      n = k.n;
      source = k.source;
      fits = k.fits;
      whole = k.whole;
      long = k.long;
      counted = k.counted;
      used = k.used;
      stored = k.stored;
    }

    abbrev equal : ℕ
    equal = unchanged config s1 var value np.value.idx n

    -- If all bytes are found unchanged, they are those of the record.
    equal-bytes : equal ≡ n → bytes ≡ take n kd
    unfolding unchanged new_head
    equal-bytes h =
        let read =
          read_valid config nor c s1 np.value.idx k.n k.source var room1.reach
            (omega (arith, k.used, room.slot)) k.fits k.stored in
        let whole : k.n % 2 ^ 16 ≡ k.n =
          omega (arith, Fits-small config nor c k.n k.source k.fits) in
        let old = overlay (take k.n k.source) var.key_and_data in
        let counted : equal ≡ (if n == k.n then same_bytes n kd old else 0) =
          rw read (rw whole refl) in
        elim (Bool-cases (n == k.n)) [
          | inl e ↦
              let sizes : n ≡ k.n = ground (arith, e) in
              let agree : same_bytes n kd old ≡ n =
                ap (λ (b : Bool). if b then same_bytes n kd old else 0) (sym e) ∙ sym counted ∙ h in
              k.whole
              ∙ sym (take-overlay k.n k.source var.key_and_data k.fits.enough)
              ∙ ap (λ (j : ℕ). take j old) (sym sizes)
              ∙ sym (take-same_bytes n kd old agree)
          | inr e ↦
              let nothing : 0 ≡ n =
                ap (λ (b : Bool). if b then same_bytes n kd old else 0) (sym e) ∙ sym counted ∙ h in
              absurd (omega (arith, f.some_bytes))
        ]

    compared : compare_old config (some np.value) value n s ≡ some (some equal, s1)
    unfolding compare_old
    compared =
        bind_run (malloc_record config) _ s s1 (some var)
          (malloc_record-ok config nor c s room.table.answers)

    -- `record_set` writes the record, unless it has these bytes already.
    record_set_run : record_set config (some np.value) value n s ≡ (
        if equal == n
        then some (eok, s1)
        else store_record config (new_record_of config nor c n kd) np.value.idx s1)
    unfolding record_set dictionary_count
    record_set_run =
        let short = le→ltb_false (max_length config) n f.short in
        let below : leb ((max_records config + 2 ^ 32 - headroom) % 2 ^ 32) (dictionary_count dict)
            ≡ false =
          ground (arith, room.headroom, c.slots_small) in
        bind_run get_dict _ s s dict (has_dict config nor c s dict room.loaded)
        ∙ rw (short, below)
            (bind_run (compare_old config (some np.value) value n) _ s s1 (some equal) compared
              ∙ elim (Bool-cases (equal == n)) [ inl e ↦ rw e refl | inr e ↦ rw (e, accepts) refl ])

    -- The bytes that are there already.
    Refines-equal : equal ≡ n → Refines config nor c s1 dict (map_set dict m kd (take n kd))
    Refines-equal e =
        let r1 = Refines-heap config nor c s dict m heap r in
        record {
          loaded = r1.loaded;
          valid = r1.valid;
          counted = r1.counted;
          reach = r1.reach;
          full = r1.full;
          agrees = λ q. elim (Bool-cases (same dict kd q)) [
            | inl matching ↦
                let same_node = sym (dict_lookup_congr dict kd q matching) ∙ there in
                rw (matching, same_node, sym (equal-bytes e)) k1
            | inr differ ↦ rw differ (r1.agrees q)
          ];
          apart = r1.apart;
        }

    pub record_set-known :
        (s' : Volume config) × (dict' : Dictionary Entry) × (record_set config
            (some np.value)
            value
            n
            s
          ≡ some (eok, s'))
        × Refines config nor c s' dict' (map_set dict m kd (take n kd))
    record_set-known = elim (Bool-cases (equal == n)) [
      | inl e ↦ (s1, dict, record_set_run ∙ rw e refl, Refines-equal (ground (arith, e)))
      | inr e ↦
          let r1 = Refines-heap config nor c s dict m heap r in
          let (s', dict', run, rep) =
            store_record_lem config nor c s1 dict n kd np.value.idx (valid_head k.n k.source)
              (take k.n k.source) room1 f key
              (record {
                slot = omega (arith, k.used, room.slot);
                other = omega (arith, k.used);
                short = omega (arith, length-take_all k.n k.source k.fits.enough, k.fits.short);
                stored = k.stored;
              }) in
          (
            s',
            dict',
            record_set_run ∙ rw e run,
            Refines-Puts config nor c s1 s' dict dict' m n kd room1 f
                (Replaces-Puts config nor c s1 s' dict dict' m n kd np bytes r1 there k1 room1 rep)
                long r1,
          )
    ]
