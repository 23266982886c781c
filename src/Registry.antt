-- ===== src/Registry.antt =====
-- src/registry/registry.c: values under names of up to 24 characters, in a volume on the RAM driver.
-- The functions work on the module's static variables. A null `id`, and a null `value` of
-- `registry_value_set`, is `none`; the other pointers that callers pass are not null, and their lengths
-- not negative.
pub mod Texts
pub mod Words
pub mod Buffer
pub mod SetGet
pub mod WordValue
pub mod Text
pub mod Commands
use Prim.Native.Nat.{Ordering, min}
use nvol.Base.{
  ℕ, zero, suc, ◌+◌, ◌-◌, ◌*◌, ◌%◌, ◌^◌, ◌≡◌, ap, List, [], ◌∷◌, ◌++◌, Bool, true, false, Option,
  none, some, ltb, leb, ◌==◌, not, if◌then◌else◌, take, drop, replicate,
}
use nvol.Base.Bytes.{overlay}
use nvol.Base.State.{State, ◌>>=◌, ◌>>◌, pure, lift, get, modify, on_part, on_part_run}
use nvol.Base.Status.{Status, eok, efail, e_parm, e_inval, is_eok, Reply, len, failed}
use nvol.Dictionary.Iterator.{It}
use nvol.Nvol.Api.{
  nvol3_callback_tallie, nvol3_record_set, nvol3_record_get, nvol3_record_delete,
  nvol3_record_key_and_data_length,
}
use nvol.Nvol.Entries.{nvol3_record_first, nvol3_record_next}
use nvol.Nvol.Volumes.{nvol3_validate, nvol3_reset, nvol3_load, nvol3_unload}
use nvol.Nvol.{Head, Record, Entry, Config, Instance, M}
use nvol.Ramdrv.Nor.{ramdrv}
use nvol.Ramdrv.{Ram}
use Texts.{strncpy, strcmp}

-- `REGISTRY_KEY_LENGTH`, `REGISTRY_VALUE_LENGT_MAX`
abbrev pub registry_key_length : ℕ
registry_key_length = 24

abbrev pub registry_value_length_max : ℕ
registry_value_length_max = 224

-- `_regdef_nvol3_entry_config`: the volume begins at the start of the memory, with two sectors of 32 KiB
-- and slots of 256 bytes, and keeps no value in RAM.
abbrev pub registry_config : Config
registry_config = record {
  flash = ramdrv;
  sector1_addr = 0;
  sector2_addr = 32 * 1024;
  sector_size = 32 * 1024;
  record_size = 8 + registry_key_length + registry_value_length_max;
  local_size = 0;
  key_size = registry_key_length;
  hashsize = 53;
  keyspec = 4 * 2 ^ 16 + 6;
  version = 0x0155;
  write_cb = some nvol3_callback_tallie;
}

-- The static variables: the volume, `_registry_value` and the iterator with its key. The key and the
-- value of `_registry_value` are the 248 bytes behind its header.
pub record Registry : Type 0 where
  pub volume : Instance Ram
  pub value : Record
  pub it : It Entry
  pub key : List ℕ

abbrev R : Type 0 → Type 0
R = State Registry

-- A call on the volume.
abbrev pub on_volume : {A : Type 0} → M Ram A → R A
on_volume m = on_part (λ r. r.volume) (λ volume r. record r { volume = volume }) m

pub on_volume_run :
    {A : Type 0} (m : M Ram A) (r : Registry) (a : A) (volume : Instance Ram)
    → m r.volume ≡ some (a, volume)
    → on_volume m r ≡ some (a, record r { volume = volume })
on_volume_run m r a volume e =
    on_part_run (λ r. r.volume) (λ volume r. record r { volume = volume }) m r a volume e

-- `_setkey`
unfoldable pub set_key : List ℕ → Record → Record
unfolding strncpy
set_key id rec = record rec {
  key_and_data = strncpy registry_key_length id ++ drop registry_key_length rec.key_and_data;
}

unfoldable pub registry_init : Status
registry_init = eok

-- The loading in `registry_start`: a volume that is not valid is reset.
unfoldable pub start_volume : R Status
start_volume r =
    if is_eok (nvol3_validate registry_config r.volume)
    then on_volume (nvol3_load registry_config) r
    else on_volume (nvol3_reset registry_config) r

-- `registry_erase`
unfoldable pub registry_erase : R Status
registry_erase = on_volume (nvol3_reset registry_config)

-- `registry_value_delete`
unfoldable pub registry_value_delete : Option (List ℕ) → R Status
unfolding set_key
registry_value_delete none = pure e_parm
registry_value_delete (some id) = do
  modify (λ r. record r { value = set_key id r.value })
  r ← get
  on_volume (nvol3_record_delete registry_config r.value)

-- `nvol3_record_get` with `_registry_value`
unfoldable pub get_value : R Reply
get_value = do
  r ← get
  (reply, value) ← on_volume (nvol3_record_get registry_config r.value)
  modify (λ r. record r { value = value })
  pure reply

-- Whether a reply is a length beyond that of a key.
unfoldable pub has_value : Reply → Bool
has_value (len n) = ltb registry_key_length n
has_value (failed status) = false

-- `registry_value_valid`; the code E_PARM, as a `bool`, is true.
unfoldable pub registry_value_valid : Option (List ℕ) → R Bool
unfolding set_key get_value has_value
registry_value_valid none = pure true
registry_value_valid (some id) = do
  modify (λ r. record r { value = set_key id r.value })
  reply ← get_value
  pure (has_value reply)

-- A length without that of the key.
unfoldable pub value_length : Reply → Reply
value_length (len n) = len (n - registry_key_length)
value_length (failed status) = failed status

-- `registry_value_length`; `head` is what a local variable holds at first.
unfoldable pub registry_value_length : Head → Option (List ℕ) → R Reply
unfolding set_key value_length
registry_value_length head none = pure (failed e_parm)
registry_value_length head (some id) = do
  modify (λ r. record r { value = set_key id r.value })
  r ← get
  reply ← on_volume (
      nvol3_record_key_and_data_length registry_config
        (take registry_key_length r.value.key_and_data) head)
  pure (value_length reply)

-- The end of `registry_value_get`: the reply, and the `length` bytes of the caller's buffer. As an int
-- a `length` from 2 ^ 31 on is negative: it is the smaller one, and `memcpy` would run away with it.
unfoldable pub copy_value : Reply → ℕ → Record → Option (Reply × List ℕ)
copy_value (failed status) length value = some (failed status, replicate length 0)
copy_value (len n) length value =
    if not (ltb registry_key_length n)
    then some (failed e_inval, replicate length 0)
    else if not (ltb 0 length)
    then some (len (n - registry_key_length), [])
    else if ltb length (2 ^ 31)
    then (let res = min length (n - registry_key_length) in
        some (
          len res,
          overlay (take res (drop registry_key_length value.key_and_data)) (replicate length 0),
        ))
    else none

-- `registry_value_get`
unfoldable pub registry_value_get : Option (List ℕ) → ℕ → R (Reply × List ℕ)
unfolding set_key get_value copy_value
registry_value_get none length = pure (failed e_parm, [])
registry_value_get (some id) length = do
  modify (λ r. record r { value = set_key id r.value })
  reply ← get_value
  r ← get
  lift (copy_value reply length r.value)

-- `memcpy (_registry_value.value, value, length)`
unfoldable pub set_value : List ℕ → ℕ → Record → Record
set_value value length rec = record rec {
  key_and_data =
      take registry_key_length rec.key_and_data
      ++ overlay (take length value) (drop registry_key_length rec.key_and_data);
}

-- `registry_value_set`
unfoldable pub registry_value_set : Option (List ℕ) → Option (List ℕ) → ℕ → R Status
unfolding set_key set_value
registry_value_set id none length = pure e_parm
registry_value_set none (some value) length = pure e_parm
registry_value_set (some id) (some value) length =
    if ltb registry_value_length_max length then pure e_parm else (do
      modify (λ r. record r { value = set_value value length (set_key id r.value) })
      r ← get
      on_volume (nvol3_record_set registry_config r.value (length + registry_key_length)))

-- What `registry_first` and `registry_next` return: the reply, the key and the bytes of the value.
abbrev pub Item : Type 0
Item = Reply × Option (List ℕ) × List ℕ

-- Their end: the key is copied for the caller.
unfoldable pub take_item : Reply → ℕ → R Item
unfolding strncpy
take_item (failed status) length = pure (failed status, none, [])
take_item (len n) length =
    if ltb registry_key_length n
    then (do
      modify λ r. record r {
        key = strncpy registry_key_length (take registry_key_length r.value.key_and_data) ++ 0 ∷ [];
      }
      r ← get
      pure (
        len (n - registry_key_length),
        some r.key,
        take (min length (n - registry_key_length)) (drop registry_key_length r.value.key_and_data),
      ))
    else pure (failed e_inval, none, [])

-- `registry_first`; `junk` is an uninitialised variable of the iterator.
unfoldable pub registry_first : ℕ → ℕ → R Item
unfolding take_item strcmp
registry_first junk length = do
  r ← get
  (reply, value, it) ← on_volume (nvol3_record_first registry_config r.value (some strcmp) junk)
  modify (λ r. record r { value = value; it = it })
  take_item reply length

-- `registry_next`
unfoldable pub registry_next : ℕ → R Item
unfolding take_item
registry_next length = do
  r ← get
  (reply, value, it) ← on_volume (nvol3_record_next registry_config r.value r.it)
  modify (λ r. record r { value = value; it = it })
  take_item reply length
