-- ===== src/Nvol/SetGet.antt =====
-- `nvol3_record_get` of src/nvram/nvol3.c after `record_set` of a key that the table did not have.
use nvol.Base.{
  ℕ, ◌+◌, ◌-◌, ◌%◌, ◌^◌, ◌≤◌, ◌<◌, ◌≡◌, refl, ap, sym, ◌∙◌, List, true, false, some, arith, ltb,
  leb, length, take, drop, ==_ne, le→ltb_false, ◌++◌, length-take, length-append, length-drop,
  drop_append,
}
use nvol.Base.Bytes.{overlay}
use nvol.Base.Status.{eok, Reply, len}
use nvol.Dictionary.Fresh.{made}
use nvol.Dictionary.Table.{same}
use nvol.Dictionary.{
  Dictionary, Node, dict_lookup, dictionary_get, dictionary_get_value, dictionary_get_key,
}
use nvol.Flash.{IsNor}
use nvol.Nvol.Api.{new_head, clear_head, record_get, local_record, nvol3_record_get}
use nvol.Nvol.Geometry.{IsConfig}
use nvol.Nvol.Insert.{entry_for}
use nvol.Nvol.Lookup.{fill_entry, local_bytes}
use nvol.Nvol.RoundTrip.{Fits, Fits-small, new_record_of, read_back, read_valid, take-overlay}
use nvol.Nvol.Set.{HasRoom, Sets, has_dict}
use nvol.Nvol.Slots.{Volume, read_variable_record}
use nvol.Nvol.Stored.{InReach}
use nvol.Nvol.{Record, Entry, Config, invalid_var_idx, bind_run, get_dict}

module _ (config : Config) (nor : IsNor config.flash) (c : IsConfig config) (s s' : Volume config)
    (dict dict' : Dictionary Entry) (n : ℕ) (kd : List ℕ) (room : HasRoom config nor c s dict)
    (f : Fits config nor c n kd) (sets : Sets config nor c s s' dict dict' n kd) where
  abbrev entry : Entry
  entry = entry_for config s.heap (new_record_of config nor c n kd) s.next_idx

  -- The entry counts the bytes of the value.
  entry_length : config.key_size ≤ n → entry.length ≡ n - config.key_size
  unfolding fill_entry new_head
  entry_length h = omega (arith, Fits-small config nor c n kd f)

  entry_idx : entry.idx ≡ s.next_idx
  unfolding fill_entry
  entry_idx = refl

  pub reach' : InReach config nor c s' s'.sector
  reach' = rw sets.sector (record {
    capacity = rw sets.changes.capacity room.reach.capacity;
    address = room.reach.address;
  })

  read_new :
      (var : Record) → read_variable_record config s' var s.next_idx 0 ≡ (eok, read_back n kd var)
  read_new var =
      read_valid config nor c s' s.next_idx n kd var reach' room.slot f (rw sets.sector sets.stored)

  -- A value too long to be kept in RAM is read from its slot.
  get_remote :
      (var : Record) (np : Node Entry)
      → np.value ≡ entry
      → config.key_size ≤ n
      → config.local_size < n - config.key_size
      → record_get config s' var (some np) ≡ (len n, read_back n kd (clear_head config var))
  unfolding record_get dictionary_get_value new_head
  get_remote var np e h far =
      let size : leb entry.length config.local_size ≡ false = ground (arith, entry_length h) in
      let real = ==_ne s.next_idx invalid_var_idx (omega (arith, room.slot, c.slots_small)) in
      let same_length : n % 2 ^ 16 ≡ n = omega (arith, Fits-small config nor c n kd f) in
      rw (e, size, entry_idx, real, read_new (clear_head config var)) (rw same_length)

  -- After `record_set` stored a new record of n bytes whose value is too long to be kept in RAM,
  -- `nvol3_record_get` with any key that matches the record's gives its length n, and its n bytes in
  -- the buffer behind a header that is marked as valid; it changes nothing.
  pub record_get-record_set_remote :
      (var : Record)
      → same dict kd var.key_and_data ≡ true
      → config.key_size ≤ n
      → config.local_size < n - config.key_size
      → nvol3_record_get config var s' ≡ some ((len n, read_back n kd (clear_head config var)), s')
  unfolding nvol3_record_get dictionary_get
  record_get-record_set_remote var matching h far =
      let there : dict_lookup dict' var.key_and_data ≡ some (made dict kd s.heap.next entry) =
        sets.enters var.key_and_data ∙ rw matching in
      let got = get_remote var (made dict kd s.heap.next entry) refl h far in
      bind_run get_dict _ s' s' dict' (has_dict config nor c s' dict' sets.loaded)
      ∙ rw there (ap (λ (r : Reply × Record). some (r, s')) got)

  -- The entry keeps a short value itself.
  entry_local :
      config.key_size < n
      → n - config.key_size ≤ config.local_size
      → entry.local ≡ take (n - config.key_size) (drop config.key_size kd)
  unfolding fill_entry local_bytes new_head
  entry_local h near =
      let small = Fits-small config nor c n kd f in
      let count : (n % 2 ^ 16 + 2 ^ 32 - config.key_size) % 2 ^ 32 ≡ n - config.key_size =
        omega (arith, small) in
      let kept : ltb config.local_size (n - config.key_size) ≡ false =
        le→ltb_false config.local_size _ near in
      rw (count, kept, ==_ne (n - config.key_size) 0 (omega arith))

  -- Where the value goes in the buffer.
  local_value :
      (key value buf local : List ℕ) (ks m : ℕ)
      → local ≡ take m value
      → ks ≤ length buf
      → m ≤ length value
      → take m (drop ks (take ks (overlay key buf) ++ overlay local (drop ks (overlay key buf))))
        ≡ take m value
  unfolding overlay
  local_value key value buf local ks m kept h k =
      let whole = overlay key buf in
      let e : length (take ks whole) ≡ ks =
        rw (length-take, length-append, length-drop) (omega arith) in
      let skip : drop ks (take ks whole ++ overlay (take m value) (drop ks whole))
          ≡ overlay (take m value) (drop ks whole) =
        ap (λ (j : ℕ). drop j (take ks whole ++ overlay (take m value) (drop ks whole))) (sym e)
        ∙ drop_append (take ks whole) (overlay (take m value) (drop ks whole)) in
      rw kept (ap (λ (r : List ℕ). take m r) skip ∙ take-overlay m value (drop ks whole) k)

  -- After `record_set` stored a new record of n bytes whose value is short enough to be kept in RAM,
  -- `nvol3_record_get` with any key that matches the record's and a buffer with room for a key gives
  -- its length n, and the bytes of its value behind the key; it changes nothing.
  pub record_get-record_set_local :
      (var : Record)
      → same dict kd var.key_and_data ≡ true
      → config.key_size < n
      → n - config.key_size ≤ config.local_size
      → config.key_size ≤ length var.key_and_data
      → (out : Record) × (nvol3_record_get config var s' ≡ some ((len n, out), s'))
        × (take (n - config.key_size) (drop config.key_size out.key_and_data)
            ≡ take (n - config.key_size) (drop config.key_size kd))
  unfolding nvol3_record_get dictionary_get record_get dictionary_get_value local_record clear_head
  record_get-record_set_local var matching h near wide =
      let np = made dict kd s.heap.next entry in
      let there : dict_lookup dict' var.key_and_data ≡ some np =
        sets.enters var.key_and_data ∙ rw matching in
      let size : leb entry.length config.local_size ≡ true = ground (arith, entry_length) in
      let total : entry.length + config.key_size ≡ n = omega (arith, entry_length) in
      let key = take config.key_size (dictionary_get_key np) in
      let got : record_get config s' var (some np)
          ≡ (len n, local_record config np (clear_head config var)) =
        rw size (rw total) in
      (
        local_record config np (clear_head config var),
        bind_run get_dict _ s' s' dict' (has_dict config nor c s' dict' sets.loaded)
            ∙ rw there (ap (λ (r : Reply × Record). some (r, s')) got),
        local_value key (drop config.key_size kd) var.key_and_data entry.local config.key_size
            (n - config.key_size) (entry_local h near) wide
            (rw length-drop (omega (arith, f.enough))),
      )
