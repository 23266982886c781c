-- ===== src/Nvol/Refine/Replacing.antt =====
-- `nvol3_record_set` of src/nvram/nvol3.c on a volume that holds a map.
use nvol.Base.{ℕ, ◌<◌, ◌≡◌, ◌∙◌, false, some, inl, inr, arith, leb, take, Option-cases}
use nvol.Base.Status.{eok}
use nvol.Dictionary.Keys.Laws.{IsKey}
use nvol.Dictionary.{Dictionary, dict_lookup, dictionary_get, dictionary_get_value}
use nvol.Flash.{IsNor}
use nvol.Nvol.Api.{ask_callback, nvol3_record_set}
use nvol.Nvol.Geometry.{IsConfig}
use nvol.Nvol.Lookup.{retrieve_lookup_table}
use nvol.Nvol.Refine.Setting.{Sets-Puts, Refines-Puts}
use nvol.Nvol.Refine.{Map, map_set, Agrees-some, Refines}
use nvol.Nvol.RoundTrip.{Fits, new_record_of}
use nvol.Nvol.Set.{HasRoom, has_dict, nvol3_record_set_new}
use nvol.Nvol.Slots.{Volume}
use nvol.Nvol.{Record, Entry, Config, max_records, bind_run, get_dict}
use nvol.Nvol.Refine.Known.{record_set-known}

module _ (config : Config) (nor : IsNor config.flash) (c : IsConfig config) where
  -- A volume with room holds a map. `nvol3_record_set` of n bytes of a
  -- record that fits, with a value of at least one byte, that the write callback accepts, succeeds
  -- whether the map has a record for the key or not, and then the volume holds the map with these
  -- bytes for the keys that match, and with what it had for all others.
  pub nvol3_record_set-Refines :
      (s : Volume config) (dict : Dictionary Entry) (m : Map) (value : Record) (n : ℕ)
      → Refines config nor c s dict m
      → HasRoom config nor c s dict
      → Fits config nor c n value.key_and_data
      → IsKey value.key_and_data
      → config.key_size < n
      → ask_callback config (new_record_of config nor c n value.key_and_data) ≡ eok
      → (s' : Volume config) × (dict' : Dictionary Entry) × (nvol3_record_set config value n s
          ≡ some (eok, s'))
        × Refines config nor c s' dict'
            (map_set dict m value.key_and_data (take n value.key_and_data))
  unfolding nvol3_record_set retrieve_lookup_table dictionary_get dictionary_get_value
  nvol3_record_set-Refines s dict m value n r room f key long accepts =
      let kd = value.key_and_data in
      elim (Option-cases (dict_lookup dict kd)) [
        | inl absent ↦
            let (s', dict', run, sets) =
              nvol3_record_set_new config nor c s dict value n room absent f key accepts in
            (
              s',
              dict',
              run,
              Refines-Puts config nor c s s' dict dict' m n kd room f
                  (Sets-Puts config nor c s s' dict dict' n kd room sets) long r,
            )
        | inr (np, there) ↦
            let (bytes, _, k) =
              Agrees-some config nor c s (dict_lookup dict kd) (m kd) np (r.agrees kd) there in
            let (s', dict', run, after) =
              record_set-known config nor c s dict m value n r room f key long accepts np bytes
                there k in
            let free : leb (max_records config) s.next_idx ≡ false = ground (arith, room.slot) in
            let found : retrieve_lookup_table config dict value ≡ some np.value =
              simp (retrieve_lookup_table, dictionary_get, there) in
            (
              s',
              dict',
              simp (nvol3_record_set, free)
                  (bind_run get_dict _ s s dict (has_dict config nor c s dict room.loaded)
                    ∙ rw found run),
              after,
            )
      ]
