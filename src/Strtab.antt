-- ===== src/Strtab.antt =====
-- src/registry/strtab.c: strings under 16-bit numbers, in a volume on the RAM driver.
-- The functions work on the module's static variables. The lengths that callers pass are not negative.
pub mod Words
pub mod SetGet
pub mod Commands
pub mod Valid
use Prim.Native.Nat.{Ordering, compare, min}
use nvol.Base.{
  ℕ, ◌≡◌, ◌+◌, ◌-◌, ◌*◌, ◌%◌, ◌^◌, List, [], ◌++◌, Bool, true, false, not, ◌&&◌, Option, none, some,
  ltb, if◌then◌else◌, take, drop,
}
use nvol.Base.Bytes.{load16, bytes16, bytes32, overlay}
use nvol.Base.State.{State, ◌>>=◌, ◌>>◌, pure, lift, get, modify, on_part, on_part_run}
use nvol.Base.Status.{Status, eok, e_parm, e_inval, e_unexp, is_eok, Reply, len, failed}
use nvol.Dictionary.Iterator.{It}
use nvol.Dictionary.{Dictionary, Node, deref, dictionary_get_key}
use nvol.Nvol.Api.{
  nvol3_callback_tallie, nvol3_record_set, nvol3_record_get, nvol3_record_status,
  nvol3_record_key_and_data_length,
}
use nvol.Nvol.Entries.{nvol3_record_first, nvol3_record_next}
use nvol.Nvol.Volumes.{nvol3_validate, nvol3_reset, nvol3_load, nvol3_unload}
use nvol.Nvol.{Head, Record, Entry, Config, Instance, M}
use nvol.Ramdrv.Nor.{ramdrv}
use nvol.Ramdrv.{Ram}
use nvol.Registry.Texts.{strncpy}
use nvol.Shell.Lists.{corshell_install, corshell_uninstall}
use nvol.Shell.{Lists}

-- `STRTAB_LENGT_MAX`, and the size of the key of a record
abbrev pub strtab_lengt_max : ℕ
strtab_lengt_max = 500

abbrev pub strtab_key_size : ℕ
strtab_key_size = 4

-- `_repo3_string_config`: the volume lies behind that of the registry, with two sectors of 32 KiB and
-- slots of 512 bytes, and keeps no value in RAM.
abbrev pub repo3_string_config : Config
repo3_string_config = record {
  flash = ramdrv;
  sector1_addr = 64 * 1024;
  sector2_addr = 96 * 1024;
  sector_size = 32 * 1024;
  record_size = 8 + strtab_key_size + strtab_lengt_max;
  local_size = 0;
  key_size = strtab_key_size;
  hashsize = 17;
  keyspec = 4 * 2 ^ 16 + 1;
  version = 0x0155;
  write_cb = some nvol3_callback_tallie;
}

-- The static variables: the volume, `_strtab_buffer` and the iterator. The key and the value of the
-- buffer are the 504 bytes behind its header.
pub record Strtab : Type 0 where
  pub volume : Instance Ram
  pub buffer : Record
  pub it : It Entry

abbrev R : Type 0 → Type 0
R = State Strtab

-- A call on the volume.
abbrev pub on_volume : {A : Type 0} → M Ram A → R A
on_volume m = on_part (λ t. t.volume) (λ volume t. record t { volume = volume }) m

pub on_volume_run :
    {A : Type 0} (m : M Ram A) (t : Strtab) (a : A) (volume : Instance Ram)
    → m t.volume ≡ some (a, volume)
    → on_volume m t ≡ some (a, record t { volume = volume })
on_volume_run m t a volume e =
    on_part_run (λ t. t.volume) (λ volume t. record t { volume = volume }) m t a volume e

-- `STRTAB_IS_LOADED`
unfoldable pub is_loaded : Strtab → Bool
is_loaded t = elim t.volume.dict [ none ↦ false | some dict ↦ true ]

-- `DBG_CHECK_T (STRTAB_IS_LOADED (), E_UNEXP, ...)`
unfoldable pub when_loaded : {A : Type 0} → A → R A → R A
unfolding is_loaded
when_loaded unexpected m = do t ← get; if is_loaded t then m else pure unexpected

-- `_strtab_buffer.key = key`
unfoldable pub set_key : ℕ → Record → Record
set_key key rec = record rec { key_and_data = overlay (bytes32 key) rec.key_and_data }

-- The loading in `strtab_start`: a volume that is not valid is reset, and the volume is loaded.
unfoldable pub load_table : R Status
load_table = do
  t ← get
  _ ←
      if is_eok (nvol3_validate repo3_string_config t.volume)
      then pure eok
      else on_volume (nvol3_reset repo3_string_config)
  on_volume (nvol3_load repo3_string_config)

-- `strtab_start`; `list` is the address of the table's list of commands, which is appended to the
-- shell's by a walk of `walk` nodes at most.
unfoldable pub strtab_start : ℕ → ℕ → Lists → R (Status × Lists)
unfolding load_table corshell_install
strtab_start walk list lists = do
  status ← load_table
  lists' ← lift (corshell_install walk lists list)
  pure (status, lists')

-- `strtab_stop`; `DBG_CHECKV_T` leaves the function where `NDEBUG` is defined, and only then.
unfoldable pub strtab_stop : Bool → ℕ → ℕ → Lists → R Lists
unfolding is_loaded corshell_uninstall
strtab_stop ndebug walk list lists = do
  t ← get
  if ndebug && not (is_loaded t) then pure lists else (do
    lists' ← lift (corshell_uninstall walk lists list)
    _ ← on_volume (nvol3_unload repo3_string_config)
    pure lists')

unfoldable pub strtab_erase : R Status
unfolding when_loaded
strtab_erase = when_loaded e_unexp (on_volume (nvol3_reset repo3_string_config))

-- `strtab_valid`: the volume is given the address of a uint16_t for a key of four bytes, so that it
-- reads the two bytes that lie `beyond` it as well.
unfoldable pub strtab_valid : List ℕ → ℕ → R Status
unfolding when_loaded bytes16
strtab_valid beyond key =
    when_loaded e_unexp
      (on_volume (nvol3_record_status repo3_string_config (bytes16 key ++ beyond)))

-- A length without that of the key.
unfoldable pub value_length : Reply → Reply
value_length (len n) = len (n - strtab_key_size)
value_length (failed status) = failed status

-- `strtab_length`, with the same key; `head` is what a local variable of the volume holds at first.
unfoldable pub strtab_length : Head → List ℕ → ℕ → R Reply
unfolding when_loaded bytes16 value_length
strtab_length head beyond key = when_loaded (failed e_unexp) (do
  reply ←
      on_volume (nvol3_record_key_and_data_length repo3_string_config (bytes16 key ++ beyond) head)
  pure (value_length reply))

-- `nvol3_record_get` with `_strtab_buffer`
unfoldable pub get_record : R Reply
get_record = do
  t ← get
  (reply, buffer) ← on_volume (nvol3_record_get repo3_string_config t.buffer)
  modify (λ t. record t { buffer = buffer })
  pure reply

-- The end of `strtab_get`: what is returned, and the bytes that the caller's buffer gets.
unfoldable pub copy_value : Reply → ℕ → Record → Reply × List ℕ
unfolding strncpy
copy_value (failed status) length buffer = (failed status, [])
copy_value (len n) length buffer =
    if ltb strtab_key_size n
    then (
      len (n - strtab_key_size),
      strncpy (min (n - strtab_key_size) length) (drop strtab_key_size buffer.key_and_data),
    )
    else (failed e_inval, [])

-- `strtab_get`; `writable` tells whether `value` is not null.
unfoldable pub strtab_get : ℕ → Bool → ℕ → R (Reply × List ℕ)
unfolding when_loaded set_key get_record copy_value
strtab_get key writable length =
    when_loaded (failed e_unexp, [])
      (if not writable then pure (failed e_parm, []) else (do
        modify (λ t. record t { buffer = set_key key t.buffer })
        reply ← get_record
        t ← get
        pure (copy_value reply length t.buffer)))

-- `strncpy (_strtab_buffer.value, value, length)`
unfoldable pub set_value : List ℕ → ℕ → Record → Record
unfolding strncpy
set_value value length buffer = record buffer {
  key_and_data =
      take strtab_key_size buffer.key_and_data
      ++ overlay (strncpy length value) (drop strtab_key_size buffer.key_and_data);
}

-- `strtab_set`
unfoldable pub strtab_set : ℕ → List ℕ → ℕ → R Status
unfolding when_loaded set_key set_value
strtab_set key value length = when_loaded e_unexp (
    if ltb strtab_lengt_max length then pure e_parm else (do
      modify (λ t. record t { buffer = set_value value length (set_key key t.buffer) })
      t ← get
      on_volume (nvol3_record_set repo3_string_config t.buffer (length + strtab_key_size))))

-- `strtab_cmp`, by the sign of its result
unfoldable pub strtab_cmp : List ℕ → List ℕ → Ordering
unfolding load16
strtab_cmp first second = compare (load16 first) (load16 second)

-- What `strtab_first` and `strtab_next` give: what is returned, and the key and the bytes of the value.
abbrev pub Item : Type 0
Item = Reply × Option (ℕ × List ℕ)

-- `*(STRTAB_KEY_T*)dictionary_get_key (_repo3_string.dict, _strtab_it.it.np)`
unfoldable pub iterator_key : R ℕ
unfolding load16
iterator_key t = elim t.volume.dict [
  | none ↦ none
  | some dict ↦ elim t.it.np [
    | none ↦ none
    | some a ↦ elim (deref dict a) [
      | none ↦ none
      | some np ↦ some (load16 (dictionary_get_key np), t)
    ]
  ]
]

-- Their end; an empty value, and a negative status, are passed on as they are.
unfoldable pub take_item : Reply → ℕ → R Item
unfolding strncpy iterator_key
take_item (failed status) length = pure (failed status, none)
take_item (len n) length =
    if ltb strtab_key_size n
    then (do
      t ← get
      key ← iterator_key
      pure (
        len (n - strtab_key_size),
        some (
          key,
          strncpy (min (n - strtab_key_size) length) (drop strtab_key_size t.buffer.key_and_data),
        ),
      ))
    else pure (len n, none)

-- `strtab_first`; `junk` is an uninitialised variable of the iterator.
unfoldable pub strtab_first : ℕ → ℕ → R Item
unfolding when_loaded take_item strtab_cmp
strtab_first junk length =
    when_loaded (failed e_unexp, none)
      (do
        t ← get
        (reply, buffer, it) ←
            on_volume (nvol3_record_first repo3_string_config t.buffer (some strtab_cmp) junk)
        modify (λ t. record t { buffer = buffer; it = it })
        take_item reply length)

-- `strtab_next`
unfoldable pub strtab_next : ℕ → R Item
unfolding when_loaded take_item
strtab_next length =
    when_loaded (failed e_unexp, none)
      (do
        t ← get
        (reply, buffer, it) ← on_volume (nvol3_record_next repo3_string_config t.buffer t.it)
        modify (λ t. record t { buffer = buffer; it = it })
        take_item reply length)
