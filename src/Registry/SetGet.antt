-- ===== src/Registry/SetGet.antt =====
-- `registry_value_get` of src/registry/registry.c after `registry_value_set` of a new name.
use nvol.Base.{
  ℕ, ◌+◌, ◌-◌, ◌^◌, ◌≤◌, ◌<◌, ◌≡◌, refl, ap, ◌∙◌, List, true, false, Option, none, some, arith, ltb,
  length, take, drop, replicate, le→ltb_false, lt→ltb,
}
use Prim.Native.Nat.{min}
use nvol.Base.Bytes.{overlay}
use nvol.Base.State.{bind_run, lift}
use nvol.Base.Status.{eok, Reply, len}
use nvol.Dictionary.Table.{same}
use nvol.Dictionary.{Dictionary, dict_lookup}
use nvol.Flash.Content.{IsBytes}
use nvol.Nvol.Api.{
  nvol3_callback_tallie, ask_callback, nvol3_record_set, nvol3_record_get, clear_head,
}
use nvol.Nvol.Keyed
use nvol.Nvol.Keyed.{take-append-at}
use nvol.Nvol.Geometry.{IsConfig}
use nvol.Nvol.RoundTrip.{new_record_of, read_back, length-take_all}
use nvol.Nvol.Set.{Sets}
use nvol.Nvol.{Record, Entry, Instance, max_records}
use nvol.Ramdrv.Nor.{ramdrv-IsNor}
use nvol.Ramdrv.{Ram}
use nvol.Registry.Buffer.{
  filled, set_key_lem, set_value-set_key, filled-IsBytes, filled-value, key_length,
}
use nvol.Registry.Texts.{strncpy}
use nvol.Registry.{
  Registry, on_volume_run, registry_key_length, registry_value_length_max, registry_config,
  on_volume, set_key, get_value, copy_value, registry_value_get, registry_value_set,
}

pub registry_config-IsConfig : IsConfig registry_config
unfolding max_records
registry_config-IsConfig = record {
  record_small = omega arith;
  record_room = omega arith;
  sector_small = omega arith;
  sector_room = omega arith;
  slots_small = omega arith;
}

-- A registry in use whose volume has room, with a lookup table of keys of 24 bytes.
pub record IsOpen (r : Registry) (dict : Dictionary Entry) : Type 0 where
  pub volume : Keyed.IsOpen registry_config ramdrv-IsNor registry_config-IsConfig r.volume dict
  pub bytes : IsBytes r.value.key_and_data

-- A name and a value as the callers pass them.
pub record IsPair (id value : List ℕ) (n : ℕ) : Type 0 where
  pub name : IsBytes id
  pub content : IsBytes value
  pub some_bytes : 0 < n
  pub short : n ≤ registry_value_length_max
  pub there : n ≤ length value

accepted : (rec : Record) → ask_callback registry_config rec ≡ eok
unfolding ask_callback nvol3_callback_tallie
accepted rec = refl

take-set_key :
    (id : List ℕ) (rec : Record)
    → take registry_key_length (set_key id rec).key_and_data ≡ strncpy registry_key_length id
take-set_key id rec =
    ap (λ t. take registry_key_length t) (set_key_lem id rec)
    ∙ take-append-at registry_key_length (strncpy registry_key_length id) _ (key_length id)

module _ (r : Registry) (dict : Dictionary Entry) (id value : List ℕ) (n : ℕ) (is : IsOpen r dict)
    (pair : IsPair id value n) where
  abbrev bytes : List ℕ
  bytes = filled id value n r.value.key_and_data

  abbrev rest : List ℕ
  rest = drop n (drop registry_key_length r.value.key_and_data)

  fits : Keyed.IsPair registry_config (strncpy registry_key_length id) (take n value) n
  fits = record {
    width = key_length id;
    count = length-take_all n value pair.there;
    some_bytes = pair.some_bytes;
    short = omega (arith, pair.short);
  }

  small : IsBytes bytes
  small = filled-IsBytes id value n r.value.key_and_data pair.name pair.content is.bytes

  -- The record in the volume.
  abbrev pub SetsPair : Instance Ram → Dictionary Entry → Type 0
  SetsPair s' dict' =
      Sets registry_config ramdrv-IsNor registry_config-IsConfig r.volume s' dict dict'
        (n + registry_key_length) bytes

  copy_lem :
      (size : ℕ) (other : Record)
      → 0 < size
      → size < 2 ^ 31
      → copy_value
          (len (n + registry_key_length))
          size
          (read_back (n + registry_key_length) bytes other)
        ≡ some (len (min size n), overlay (take (min size n) value) (replicate size 0))
  unfolding copy_value
  copy_lem size other more positive =
      let long : ltb registry_key_length (n + registry_key_length) ≡ true =
        ground (arith, pair.some_bytes) in
      let some_room : ltb 0 size ≡ true = ground arith in
      let as_int : ltb size (2 ^ 31) ≡ true = lt→ltb size (2 ^ 31) positive in
      let rest : n + registry_key_length - registry_key_length ≡ n = omega arith in
      let got =
        filled-value id value n (min size n) r.value.key_and_data other.key_and_data pair.there
          (omega arith) in
      simp (copy_value, long, some_room, as_int, rest, got)

  pub get_value_run :
      (s' : Instance Ram) (dict' : Dictionary Entry)
      → SetsPair s' dict'
      → (r' : Registry) → r'.volume ≡ s'
      → take registry_key_length r'.value.key_and_data ≡ strncpy registry_key_length id
      → get_value r'
        ≡ some (
          len (n + registry_key_length),
          record r' {
            volume = s';
            value = read_back (n + registry_key_length) bytes (clear_head registry_config r'.value);
          },
        )
  unfolding get_value
  get_value_run s' dict' sets r' at named =
      let reply = len (n + registry_key_length) in
      let out = read_back (n + registry_key_length) bytes (clear_head registry_config r'.value) in
      bind_run (on_volume (nvol3_record_get registry_config r'.value)) _ r'
        (record r' { volume = s' }) (reply, out)
        (on_volume_run (nvol3_record_get registry_config r'.value) r' (reply, out) s'
          (rw at (
            Keyed.get_stored registry_config ramdrv-IsNor registry_config-IsConfig r.volume dict
              is.volume (strncpy registry_key_length id) (take n value) rest n fits small s' dict'
              sets r'.value named)))

  pub get_value_lem :
      (s' : Instance Ram) (dict' : Dictionary Entry)
      → SetsPair s' dict'
      → (r' : Registry) (size : ℕ) → r'.volume ≡ s'
      → 0 < size
      → size < 2 ^ 31
      → (r'' : Registry) × (registry_value_get (some id) size r'
          ≡ some ((len (min size n), overlay (take (min size n) value) (replicate size 0)), r''))
        × (r''.volume ≡ s')
  unfolding registry_value_get
  get_value_lem s' dict' sets r' size at more positive =
      let r1 : Registry = record r' { value = set_key id r'.value } in
      let other = clear_head registry_config r1.value in
      let r2 : Registry = record r1 {
        volume = s';
        value = read_back (n + registry_key_length) bytes other;
      } in
      (
        r2,
        bind_run get_value _ r1 r2 (len (n + registry_key_length))
              (get_value_run s' dict' sets r1 at (take-set_key id r'.value))
            ∙ ap (λ (x : Option (Reply × List ℕ)). lift x r2) (copy_lem size other more positive),
        refl,
      )

  -- The name is not in the table yet.
  abbrev pub IsNew : Type 0
  IsNew = dict_lookup dict (set_key id r.value).key_and_data ≡ none

  pub registry_value_set_new :
      IsNew
      → (s' : Instance Ram) × (dict' : Dictionary Entry) × (registry_value_set
            (some id)
            (some value)
            n
            r
          ≡ some (
            eok,
            record r { volume = s'; value = record { head = r.value.head; key_and_data = bytes } },
          ))
        × SetsPair s' dict'
  unfolding registry_value_set
  registry_value_set_new absent =
      let v : Record = record { head = r.value.head; key_and_data = bytes } in
      let size = n + registry_key_length in
      let (s', dict', run, sets) =
        Keyed.set_stored registry_config ramdrv-IsNor registry_config-IsConfig r.volume dict
          is.volume (strncpy registry_key_length id) (take n value) rest n fits small r.value.head
          (set_key id r.value).key_and_data (take-set_key id r.value) absent
          (accepted
            (new_record_of registry_config ramdrv-IsNor registry_config-IsConfig size bytes)) in
      let below : ltb registry_value_length_max n ≡ false =
        le→ltb_false registry_value_length_max n pair.short in
      (
        s',
        dict',
        simp (registry_value_set, below, set_value-set_key id value n r.value pair.there)
            (on_volume_run (nvol3_record_set registry_config v size) (record r { value = v }) eok s'
              run),
        sets,
      )

  -- A value of 1 to 224 bytes set under a name that an open registry with room does not have is
  -- stored: the call succeeds, and from then on `registry_value_get` with this name and a buffer of
  -- `size` bytes, at least one and fewer than 2 ^ 31, whatever the static record buffer `rec` holds by
  -- then, returns the smaller of the two lengths, fills the caller's buffer with that many bytes of the value and with zeros behind
  -- them, and leaves the volume as it is.
  pub registry_value_get-registry_value_set :
      (rec : Record) (size : ℕ)
      → IsNew
      → 0 < size
      → size < 2 ^ 31
      → (r' r'' : Registry) × (registry_value_set (some id) (some value) n r ≡ some (eok, r'))
        × (registry_value_get (some id) size (record r' { value = rec })
            ≡ some ((len (min size n), overlay (take (min size n) value) (replicate size 0)), r''))
        × (r''.volume ≡ r'.volume)
  registry_value_get-registry_value_set rec size absent more positive =
      let (s', dict', run, sets) = registry_value_set_new absent in
      let r' : Registry = record r {
        volume = s';
        value = record { head = r.value.head; key_and_data = bytes };
      } in
      let (r'', got, same) =
        get_value_lem s' dict' sets (record r' { value = rec }) size refl more positive in
      (r', r'', run, got, same)
