-- ===== src/Examples.antt =====
-- Concrete volumes, dictionaries and records that the tests and examples below share.
pub mod Drivers
pub mod Tables
pub mod Volume
pub mod Stored
pub mod Deleted
pub mod Again
pub mod Replaced
pub mod Headers
pub mod Names
pub mod Strings
pub mod Maps
pub mod Words
pub mod Commands
pub mod Scripts
pub mod Shown
use nvol.Base.{
  ℕ, zero, suc, ◌+◌, ◌-◌, ◌*◌, ◌/◌, ◌%◌, ◌^◌, ◌≤◌, ◌<◌, ◌≡◌, refl, List, [], ◌∷◌, Option, none,
  some, arith,
}
use nvol.Base.Bytes.{load16}
use nvol.Base.Heap.{Heap}
use nvol.Dictionary.Keys.{ushort_key}
use nvol.Dictionary.Keys.Laws.{IsKey}
use nvol.Dictionary.{Node, Dictionary}
use nvol.Flash.Content.{IsBytes}
use nvol.Nvol.Geometry.{IsConfig}
use nvol.Nvol.{Head, Record, Entry, Config, Instance, max_records}
use nvol.Ramdrv.Nor.{ramdrv}
use nvol.Ramdrv.{Ram}

-- 1 KiB of erased memory.
abbrev pub erased_ram : Ram
erased_ram = record { size = 1024; cell = λ a. 255 }

abbrev pub calm_heap : Heap
calm_heap = record { next = 100; answers = []; fill = 0xA5 }

-- Two sectors of 256 bytes with seven records of 32 bytes each, keys of two bytes, and values of up
-- to four bytes kept in RAM.
abbrev pub small_config : Config
small_config = record {
  flash = ramdrv;
  sector1_addr = 0;
  sector2_addr = 256;
  sector_size = 256;
  record_size = 32;
  local_size = 4;
  key_size = 2;
  hashsize = 2;
  keyspec = 3 * 2 ^ 16;
  version = 1;
  write_cb = none;
}

pub small_config-IsConfig : IsConfig small_config
unfolding max_records
small_config-IsConfig = record {
  record_small = omega arith;
  record_room = omega arith;
  sector_small = omega arith;
  sector_room = omega arith;
  slots_small = omega arith;
}

-- Two empty buckets for USHORT keys.
abbrev pub empty_dict {ℓ} : {V : Type ℓ} → Dictionary V
empty_dict = record {
  key = ushort_key;
  hashsize = 2;
  keyspec = 3 * 2 ^ 16;
  count = 0;
  hashtab = [] ∷ [] ∷ [];
}

-- Key 7, and a value of two bytes or of six.
abbrev pub short_bytes : List ℕ
short_bytes = 7 ∷ 0 ∷ 11 ∷ 12 ∷ []

abbrev pub long_bytes : List ℕ
long_bytes = 7 ∷ 0 ∷ 21 ∷ 22 ∷ 23 ∷ 24 ∷ 25 ∷ 26 ∷ []

pub short_bytes-IsKey : IsKey short_bytes
unfolding load16
short_bytes-IsKey = omega arith

pub long_bytes-IsKey : IsKey long_bytes
unfolding load16
long_bytes-IsKey = omega arith

pub short_bytes-IsBytes : IsBytes short_bytes
short_bytes-IsBytes zero = omega arith
short_bytes-IsBytes (suc zero) = omega arith
short_bytes-IsBytes (suc (suc zero)) = omega arith
short_bytes-IsBytes (suc (suc (suc zero))) = omega arith
short_bytes-IsBytes (suc (suc (suc (suc i)))) = omega arith

pub long_bytes-IsBytes : IsBytes long_bytes
long_bytes-IsBytes zero = omega arith
long_bytes-IsBytes (suc zero) = omega arith
long_bytes-IsBytes (suc (suc zero)) = omega arith
long_bytes-IsBytes (suc (suc (suc zero))) = omega arith
long_bytes-IsBytes (suc (suc (suc (suc zero)))) = omega arith
long_bytes-IsBytes (suc (suc (suc (suc (suc zero))))) = omega arith
long_bytes-IsBytes (suc (suc (suc (suc (suc (suc zero)))))) = omega arith
long_bytes-IsBytes (suc (suc (suc (suc (suc (suc (suc zero))))))) = omega arith
long_bytes-IsBytes (suc (suc (suc (suc (suc (suc (suc (suc i)))))))) = omega arith

abbrev pub zero_head : Head
zero_head = record { flags = 0; length = 0; checksum = 0; reserved = 0 }

-- A buffer of four bytes that asks for key 7.
abbrev pub query : Record
query = record { head = zero_head; key_and_data = 7 ∷ 0 ∷ 0 ∷ 0 ∷ [] }

-- A volume that uses the first sector, which is erased.
abbrev pub fresh_volume : Instance Ram
fresh_volume = record {
  version = 1;
  next_idx = 0;
  sector = 0;
  dict = some empty_dict;
  inuse = 0;
  invalid = 0;
  error = 0;
  dev = erased_ram;
  heap = calm_heap;
}
