-- ===== src/Nvol/Unchanged.antt =====
-- `record_set` of src/nvram/nvol3.c with the bytes that the record has already.
use nvol.Base.{
  ℕ, zero, suc, ◌+◌, ◌-◌, ◌%◌, ◌^◌, ◌≤◌, ◌<◌, ◌≡◌, refl, sym, ap, ◌∙◌, List, [], ◌∷◌, ◌++◌, false,
  some, arith, leb, length, take, drop, le→ltb_false, ==_refl, length-append,
}
use nvol.Base.Bytes.{overlay}
use nvol.Base.Heap.{Heap, heap_malloc-ok}
use nvol.Base.Status.{eok}
use nvol.Dictionary.{Dictionary, dictionary_count}
use nvol.Flash.{IsNor}
use nvol.Nvol.Api.{same_bytes, new_head, unchanged, compare_old, record_set}
use nvol.Nvol.Geometry.{IsConfig}
use nvol.Nvol.RoundTrip.{Fits, Fits-small, valid_head, read_valid, take-overlay, length-take_all}
use nvol.Nvol.Set.{has_dict}
use nvol.Nvol.Slots.{Volume}
use nvol.Nvol.Stored.Heads.{Stored}
use nvol.Nvol.Stored.{InReach}
use nvol.Nvol.Swap.{new_record, malloc_record}
use nvol.Nvol.{
  Record, Entry, Config, headroom, max_records, max_length, slot_addr, bind_run, get_dict,
}

-- All of the bytes that agree are counted.
same_bytes_lem :
    (n : ℕ) (xs ys : List ℕ)
    → n ≤ length xs
    → n ≤ length ys
    → take n xs ≡ take n ys
    → same_bytes n xs ys ≡ n
unfolding same_bytes
same_bytes_lem zero xs ys h k e = refl
same_bytes_lem (suc n) [] ys h k e = absurd (omega arith)
same_bytes_lem (suc n) (x ∷ xs) [] h k e = absurd (omega arith)
same_bytes_lem (suc n) (x ∷ xs) (y ∷ ys) h k e =
    let heads : x ≡ y = cc in
    let tails : take n xs ≡ take n ys = cc in
    ground (arith, heads, same_bytes_lem n xs ys (omega arith) (omega arith) tails)

module _ (config : Config) (nor : IsNor config.flash) (c : IsConfig config) where
  -- The slot of an entry holds the bytes as a valid record.
  pub record HasRecord (s : Volume config) (dict : Dictionary Entry) (idx n : ℕ) (kd : List ℕ)
      : Type 0 where
    pub loaded : s.dict ≡ some dict
    pub answers : s.heap.answers ≡ []
    pub reach : InReach config nor c s s.sector
    pub slot : idx < max_records config
    pub stored :
        Stored (nor.peek s.dev) (slot_addr config s.sector idx) (valid_head n kd) (take n kd)
    pub headroom : dict.count + headroom < max_records config

  -- The whole value is found to be what is stored.
  unchanged_lem :
      (s : Volume config) (dict : Dictionary Entry) (idx n : ℕ) (value var : Record)
      → HasRecord s dict idx n value.key_and_data
      → Fits config nor c n value.key_and_data
      → unchanged config s var value idx n ≡ n
  unfolding unchanged new_head overlay
  unchanged_lem s dict idx n value var t f =
      let kd = value.key_and_data in
      let rest = drop (length (take n kd)) var.key_and_data in
      let read = read_valid config nor c s idx n kd var t.reach t.slot f t.stored in
      let small : n % 2 ^ 16 ≡ n = omega (arith, Fits-small config nor c n kd f) in
      let long : n ≤ length (take n kd ++ rest) =
        rw (length-append, length-take_all n kd f.enough) (omega arith) in
      let same =
        same_bytes_lem n kd (take n kd ++ rest) f.enough long
          (sym (take-overlay n kd var.key_and_data f.enough)) in
      rw read (rw (small, ==_refl) same)

  -- The buffer for the old record, while no allocation fails.
  pub malloc_record-ok :
      (s : Volume config)
      → s.heap.answers ≡ []
      → malloc_record config s
        ≡ some (
          some (new_record config s),
          record s { heap = record { next = suc s.heap.next; answers = []; fill = s.heap.fill } },
        )
  unfolding malloc_record
  malloc_record-ok s e = simp (malloc_record, heap_malloc-ok s.heap e)

  -- `record_set` with the n bytes that the slot of the key's entry holds already as a valid record
  -- succeeds and writes nothing: only the heap has changed, by the buffer for the old record.
  pub record_set_unchanged :
      (s : Volume config) (dict : Dictionary Entry) (entry : Entry) (value : Record) (n : ℕ)
      → HasRecord s dict entry.idx n value.key_and_data
      → Fits config nor c n value.key_and_data
      → (heap : Heap) × (record_set config (some entry) value n s
          ≡ some (eok, record s { heap = heap }))
  unfolding record_set compare_old dictionary_count
  record_set_unchanged s dict entry value n t f =
      let heap : Heap = record { next = suc s.heap.next; answers = []; fill = s.heap.fill } in
      let s1 : Volume config = record s { heap = heap } in
      let short = le→ltb_false (max_length config) n f.short in
      let below : leb ((max_records config + 2 ^ 32 - headroom) % 2 ^ 32) (dictionary_count dict)
          ≡ false =
        ground (arith, t.headroom, c.slots_small) in
      let t1 : HasRecord s1 dict entry.idx n value.key_and_data = record {
        loaded = t.loaded;
        answers = refl;
        reach = record { capacity = t.reach.capacity; address = t.reach.address };
        slot = t.slot;
        stored = t.stored;
        headroom = t.headroom;
      } in
      let whole = unchanged_lem s1 dict entry.idx n value (new_record config s) t1 f in
      let compared : compare_old config (some entry) value n s ≡ some (some n, s1) =
        bind_run (malloc_record config) _ s s1 (some (new_record config s))
          (malloc_record-ok s t.answers)
        ∙ ap (λ (k : ℕ). some (some k, s1)) whole in
      (
        heap,
        bind_run get_dict _ s s dict (has_dict config nor c s dict t.loaded)
            ∙ rw (short, below)
                (bind_run (compare_old config (some entry) value n) _ s s1 (some n) compared
                  ∙ rw (==_refl) refl),
      )
