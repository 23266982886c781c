-- ===== src/Nvol/Refine/Reading.antt =====
-- `nvol3_record_get` of src/nvram/nvol3.c on a volume that holds a map.
use nvol.Base.{
  ℕ, ◌%◌, ◌^◌, ◌≡◌, refl, sym, ap, ◌∙◌, List, Option, false, none, some, arith, leb, length, take,
  ==_ne,
}
use nvol.Base.Status.{e_notfound, Reply, len, failed}
use nvol.Dictionary.{Dictionary, Node, dict_lookup, dictionary_get, dictionary_get_value}
use nvol.Flash.{IsNor}
use nvol.Nvol.Api.{record_get, clear_head, nvol3_record_get, new_head}
use nvol.Nvol.Geometry.{IsConfig}
use nvol.Nvol.Refine.{Map, Kept, Agrees, Refines}
use nvol.Nvol.RoundTrip.{Fits-small, read_back, read_valid, take-overlay, length-take_all}
use nvol.Nvol.Set.{has_dict}
use nvol.Nvol.Slots.{Volume}
use nvol.Nvol.{Record, Entry, Config, invalid_var_idx, bind_run, get_dict}

-- What a map has for a key, as the reply and the record buffer.
abbrev pub Answers : Option (List ℕ) → Reply × Record → Type 0
Answers none (reply, out) = reply ≡ failed e_notfound
Answers (some bytes) (reply, out) =
    (reply ≡ len (length bytes)) × (take (length bytes) out.key_and_data ≡ bytes)

module _ (config : Config) (nor : IsNor config.flash) (c : IsConfig config) (s : Volume config)
    (dict : Dictionary Entry) (m : Map) (r : Refines config nor c s dict m)
    (remote : config.local_size ≡ 0) where
  -- A node's record is read from its slot.
  get_Kept :
      (var : Record) (np : Node Entry) (bytes : List ℕ) (k : Kept config nor c s np bytes)
      → record_get config s var (some np)
        ≡ (len k.n, read_back k.n k.source (clear_head config var))
  unfolding record_get dictionary_get_value new_head
  get_Kept var np bytes k =
      let far : leb np.value.length config.local_size ≡ false = ground (arith, k.counted, k.long) in
      let real =
        ==_ne np.value.idx invalid_var_idx (omega (arith, k.used, r.full, c.slots_small)) in
      let whole : k.n % 2 ^ 16 ≡ k.n = omega (arith, Fits-small config nor c k.n k.source k.fits) in
      let read =
        read_valid config nor c s np.value.idx k.n k.source (clear_head config var) r.reach
          (omega (arith, k.used, r.full)) k.fits k.stored in
      rw (far, real, read) (rw whole)

  get_Answers :
      (var : Record) (o : Option (Node Entry)) (b : Option (List ℕ))
      → Agrees config nor c s o b
      → Answers b (record_get config s var o)
  unfolding record_get clear_head
  get_Answers var none none a = refl
  get_Answers var none (some bytes) a = absurd a
  get_Answers var (some np) none a = absurd a
  get_Answers var (some np) (some bytes) a =
      let size : length bytes ≡ a.n =
        ap length a.whole ∙ length-take_all a.n a.source a.fits.enough in
      rw (get_Kept var np bytes a) (
        ap len (sym size),
        rw size (take-overlay a.n a.source var.key_and_data a.fits.enough ∙ sym a.whole),
      )

  -- A volume in use holds a map, and keeps no value in RAM. `nvol3_record_get` of any key answers as
  -- the map does: if it has no record for the key, with E_NOTFOUND, and otherwise with the number of
  -- its bytes, which are then in the record buffer; the volume does not change.
  pub nvol3_record_get-Refines :
      (var : Record)
      → (answer : Reply × Record) × (nvol3_record_get config var s ≡ some (answer, s))
        × Answers (m var.key_and_data) answer
  unfolding nvol3_record_get dictionary_get
  nvol3_record_get-Refines var =
      let node = dict_lookup dict var.key_and_data in
      (
        record_get config s var node,
        bind_run get_dict _ s s dict (has_dict config nor c s dict r.loaded),
        get_Answers var node (m var.key_and_data) (r.agrees var.key_and_data),
      )
