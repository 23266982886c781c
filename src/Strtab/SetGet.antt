-- ===== src/Strtab/SetGet.antt =====
-- `strtab_get` and `strtab_valid` of src/registry/strtab.c after `strtab_set` of a new key.
use Prim.Native.Nat.{min}
use nvol.Base.{
  ℕ, zero, suc, ◌+◌, ◌-◌, ◌≤◌, ◌<◌, ◌≡◌, refl, ap, ◌∙◌, List, ◌++◌, Option, true, false, none, some,
  arith, ltb, length, take, drop, le→ltb_false,
}
use nvol.Base.Bytes.{overlay, bytes32}
use nvol.Base.State.{bind_run}
use nvol.Base.Status.{eok, Reply, len}
use nvol.Dictionary.{Dictionary, dict_lookup}
use nvol.Flash.Content.{IsBytes, IsBytes-append, IsBytes-drop}
use nvol.Nvol.Api.{
  nvol3_callback_tallie, ask_callback, nvol3_record_set, nvol3_record_get, clear_head,
}
use nvol.Nvol.Geometry.{IsConfig}
use nvol.Nvol.Keyed
use nvol.Nvol.RoundTrip.{new_record_of, read_back}
use nvol.Nvol.Set.{Sets}
use nvol.Nvol.{Record, Entry, Instance, max_records}
use nvol.Ramdrv.Nor.{ramdrv-IsNor}
use nvol.Ramdrv.{Ram}
use nvol.Registry.Texts.{strncpy, length-strncpy, strncpy-strncpy, strncpy-IsBytes}
use nvol.Strtab.{
  Strtab, strtab_key_size, strtab_lengt_max, repo3_string_config, on_volume, on_volume_run, set_key,
  set_value, get_record, copy_value, strtab_get, strtab_set, when_loaded, is_loaded,
}

pub repo3_string_config-IsConfig : IsConfig repo3_string_config
unfolding max_records
repo3_string_config-IsConfig = record {
  record_small = omega arith;
  record_room = omega arith;
  sector_small = omega arith;
  sector_room = omega arith;
  slots_small = omega arith;
}

-- A string table in use whose volume has room, with a lookup table of keys of four bytes.
pub record IsOpen (t : Strtab) (dict : Dictionary Entry) : Type 0 where
  pub volume :
      Keyed.IsOpen repo3_string_config ramdrv-IsNor repo3_string_config-IsConfig t.volume dict
  pub bytes : IsBytes t.buffer.key_and_data

accepted : (rec : Record) → ask_callback repo3_string_config rec ≡ eok
unfolding ask_callback nvol3_callback_tallie
accepted rec = refl

module _ {A : Type 0} (unexpected : A) (m : Strtab → Option (A × Strtab)) where
  -- The check passes on a volume in use.
  pub when_loaded_run :
      (t : Strtab) (dict : Dictionary Entry)
      → t.volume.dict ≡ some dict
      → when_loaded unexpected m t ≡ m t
  unfolding when_loaded is_loaded
  when_loaded_run t dict e = simp (when_loaded, is_loaded, e)

bytes32-IsBytes : (w : ℕ) → IsBytes (bytes32 w)
unfolding bytes32
bytes32-IsBytes w zero = omega arith
bytes32-IsBytes w (suc zero) = omega arith
bytes32-IsBytes w (suc (suc zero)) = omega arith
bytes32-IsBytes w (suc (suc (suc zero))) = omega arith
bytes32-IsBytes w (suc (suc (suc (suc i)))) = omega arith

take-set_key :
    (key : ℕ) (rec : Record) → take strtab_key_size (set_key key rec).key_and_data ≡ bytes32 key
unfolding set_key bytes32 overlay
take-set_key key rec = refl

module _ (t : Strtab) (dict : Dictionary Entry) (key : ℕ) (value : List ℕ) (n : ℕ)
    (is : IsOpen t dict) (content : IsBytes value) (some_bytes : 0 < n)
    (short : n ≤ strtab_lengt_max) where
  abbrev rest : List ℕ
  rest = drop n (drop strtab_key_size t.buffer.key_and_data)

  abbrev pub bytes : List ℕ
  bytes = bytes32 key ++ (strncpy n value ++ rest)

  pair : Keyed.IsPair repo3_string_config (bytes32 key) (strncpy n value) n
  unfolding bytes32
  pair = record {
    width = refl;
    count = length-strncpy n value;
    some_bytes = some_bytes;
    short = omega (arith, short);
  }

  small : IsBytes bytes
  small = IsBytes-append (bytes32 key) _ (bytes32-IsBytes key) (
      IsBytes-append (strncpy n value) rest (strncpy-IsBytes n value content)
        (IsBytes-drop n _ (IsBytes-drop strtab_key_size t.buffer.key_and_data is.bytes)))

  -- `strtab_set` fills the buffer.
  set_value-set_key :
      set_value value n (set_key key t.buffer)
      ≡ record { head = t.buffer.head; key_and_data = bytes }
  unfolding set_value set_key overlay bytes32
  set_value-set_key = rw (length-strncpy n value) refl

  abbrev pub SetsPair : Instance Ram → Dictionary Entry → Type 0
  SetsPair s' dict' =
      Sets repo3_string_config ramdrv-IsNor repo3_string_config-IsConfig t.volume s' dict dict'
        (n + strtab_key_size) bytes

  -- The key is not in the table yet.
  abbrev pub IsNew : Type 0
  IsNew = dict_lookup dict (set_key key t.buffer).key_and_data ≡ none

  pub strtab_set_new :
      IsNew
      → (s' : Instance Ram) × (dict' : Dictionary Entry) × (strtab_set key value n t
          ≡ some (
            eok,
            record t {
              volume = s';
              buffer = record { head = t.buffer.head; key_and_data = bytes };
            },
          ))
        × SetsPair s' dict'
  unfolding strtab_set
  strtab_set_new absent =
      let v : Record = record { head = t.buffer.head; key_and_data = bytes } in
      let size = n + strtab_key_size in
      let (s', dict', run, sets) =
        Keyed.set_stored repo3_string_config ramdrv-IsNor repo3_string_config-IsConfig t.volume dict
          is.volume (bytes32 key) (strncpy n value) rest n pair small t.buffer.head
          (set_key key t.buffer).key_and_data (take-set_key key t.buffer) absent
          (accepted (
            new_record_of repo3_string_config ramdrv-IsNor repo3_string_config-IsConfig size
              bytes)) in
      let below : ltb strtab_lengt_max n ≡ false = le→ltb_false strtab_lengt_max n short in
      (
        s',
        dict',
        when_loaded_run _ _ t dict is.volume.room.loaded
            ∙ simp (below, set_value-set_key)
                (on_volume_run (nvol3_record_set repo3_string_config v size)
                  (record t { buffer = v }) eok s' run),
        sets,
      )

  get_record_run :
      (s' : Instance Ram) (dict' : Dictionary Entry)
      → SetsPair s' dict'
      → (t' : Strtab) → t'.volume ≡ s'
      → take strtab_key_size t'.buffer.key_and_data ≡ bytes32 key
      → get_record t'
        ≡ some (
          len (n + strtab_key_size),
          record t' {
            volume = s';
            buffer =
                read_back (n + strtab_key_size) bytes (clear_head repo3_string_config t'.buffer);
          },
        )
  unfolding get_record
  get_record_run s' dict' sets t' at named =
      let reply = len (n + strtab_key_size) in
      let out = read_back (n + strtab_key_size) bytes (clear_head repo3_string_config t'.buffer) in
      bind_run (on_volume (nvol3_record_get repo3_string_config t'.buffer)) _ t'
        (record t' { volume = s' }) (reply, out)
        (on_volume_run (nvol3_record_get repo3_string_config t'.buffer) t' (reply, out) s'
          (rw at (
            Keyed.get_stored repo3_string_config ramdrv-IsNor repo3_string_config-IsConfig t.volume
              dict is.volume (bytes32 key) (strncpy n value) rest n pair small s' dict' sets
              t'.buffer named)))

  copy_lem :
      (length : ℕ) (other : Record)
      → copy_value (len (n + strtab_key_size)) length (read_back (n + strtab_key_size) bytes other)
        ≡ (len n, strncpy (min n length) value)
  unfolding copy_value bytes32
  copy_lem length other =
      let long : ltb strtab_key_size (n + strtab_key_size) ≡ true = ground (arith, some_bytes) in
      let size : n + strtab_key_size - strtab_key_size ≡ n = omega arith in
      let got =
        Keyed.value_read (bytes32 key) (strncpy n value) rest other.key_and_data strtab_key_size n
          refl (length-strncpy n value) in
      let whole =
        strncpy-strncpy (min n length) n value (drop (n + strtab_key_size) other.key_and_data)
          (omega arith) in
      simp (copy_value, long, size, got, whole)

  -- A string of 1 to 500 bytes set under a key that a string table in use with room does not have is
  -- stored: the call succeeds, and from then on `strtab_get` with this key, whatever the static
  -- buffer holds by then, returns the length it was set with, copies the characters of the string up
  -- to the smaller of the two lengths to the caller's buffer, and leaves the volume as it is.
  pub strtab_get-strtab_set :
      IsNew
      → (t' : Strtab) × (strtab_set key value n t ≡ some (eok, t'))
        × ((buffer : Record) (length : ℕ)
            → (t'' : Strtab) × (strtab_get key true length (record t' { buffer = buffer })
                ≡ some ((len n, strncpy (min n length) value), t''))
              × (t''.volume ≡ t'.volume))
  unfolding strtab_get
  strtab_get-strtab_set absent =
      let (s', dict', run, sets) = strtab_set_new absent in
      (
        record t { volume = s'; buffer = record { head = t.buffer.head; key_and_data = bytes } },
        run,
        λ buffer length.
            let t1 : Strtab = record t { volume = s'; buffer = set_key key buffer } in
            let other = clear_head repo3_string_config t1.buffer in
            let t2 : Strtab = record t1 { buffer = read_back (n + strtab_key_size) bytes other } in
            (
              t2,
              when_loaded_run _ _ (record t1 { buffer = buffer }) dict' sets.loaded
                  ∙ bind_run get_record _ t1 t2 (len (n + strtab_key_size))
                      (get_record_run s' dict' sets t1 refl (take-set_key key buffer))
                  ∙ ap (λ (x : Reply × List ℕ). some (x, t2)) (copy_lem length other),
              refl,
            ),
      )
