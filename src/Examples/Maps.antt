-- ===== src/Examples/Maps.antt =====
-- Examples of a volume as a map (src/nvram/nvol3.c): a record is set in an empty volume of the
-- registry, read and deleted.
use nvol.Base.{ℕ, zero, suc, ◌+◌, ◌*◌, ◌^◌, ◌≡◌, refl, List, none, some, arith, replicate}
use nvol.Base.Bytes.{load16}
use nvol.Base.Status.{eok, Reply}
use nvol.Dictionary.Init.{empty_table-absent}
use nvol.Dictionary.Keys.{key_type, binary_key}
use nvol.Dictionary.Keys.Laws.{IsKey, key_cmp_refl}
use nvol.Dictionary.{Dictionary, dict_lookup}
use nvol.Examples.Names.{no_names, no_names-IsTable, names, names-HasRoom}
use nvol.Examples.{zero_head}
use nvol.Flash.Content.{IsBytes}
use nvol.Nvol.Api.{
  nvol3_callback_tallie, ask_callback, nvol3_record_set, nvol3_record_get, nvol3_record_delete,
}
use nvol.Nvol.Refine.{Map, map_set, map_delete, Refines}
use nvol.Nvol.Refine.Deleting.{nvol3_record_delete-Refines}
use nvol.Nvol.Refine.Reading.{Answers, nvol3_record_get-Refines}
use nvol.Nvol.Refine.Replacing.{nvol3_record_set-Refines}
use nvol.Nvol.RoundTrip.{Fits, new_record_of}
use nvol.Nvol.{Record, Entry, Instance, max_records, max_length}
use nvol.Ramdrv.Nor.{ramdrv-IsNor}
use nvol.Ramdrv.{Ram}
use nvol.Registry.SetGet.{registry_config-IsConfig}
use nvol.Registry.{registry_config}

abbrev no_records : Map
no_records q = none

no_names-absent : (q : List ℕ) → dict_lookup no_names q ≡ none
unfolding key_type
no_names-absent q = empty_table-absent (4 * 2 ^ 16 + 6) 53 q

names-Refines :
    Refines registry_config ramdrv-IsNor registry_config-IsConfig names.volume no_names no_records
unfolding max_records
names-Refines = record {
  loaded = refl;
  valid = no_names-IsTable.valid;
  counted = omega arith;
  reach = names-HasRoom.reach;
  full = omega arith;
  agrees = λ q. rw (no_names-absent q) tt;
  apart = λ q q' np np' e e' h. let none_there = no_names-absent q in absurd (cc);
}

-- A key and a value of 27 bytes, each of them 1.
abbrev ones : Record
ones = record { head = zero_head; key_and_data = replicate 27 1 }

ones-IsBytes : (n : ℕ) → IsBytes (replicate n 1)
ones-IsBytes zero i = omega arith
ones-IsBytes (suc n) zero = omega arith
ones-IsBytes (suc n) (suc i) = ones-IsBytes n i

ones-Fits : Fits registry_config ramdrv-IsNor registry_config-IsConfig 27 ones.key_and_data
unfolding max_length
ones-Fits = record {
  some_bytes = omega arith;
  enough = omega arith;
  short = omega arith;
  bytes = ones-IsBytes 27;
}

ones-IsKey : IsKey ones.key_and_data
unfolding load16
ones-IsKey = omega arith

ones_accepted :
    ask_callback registry_config
      (new_record_of registry_config ramdrv-IsNor registry_config-IsConfig 27 ones.key_and_data)
    ≡ eok
unfolding ask_callback nvol3_callback_tallie
ones_accepted = refl

abbrev one_record : Map
one_record = map_set no_names no_records (replicate 27 1) (replicate 27 1)

set_ones :
    (s' : Instance Ram) × (dict' : Dictionary Entry) × (nvol3_record_set registry_config ones 27
        names.volume
      ≡ some (eok, s'))
    × Refines registry_config ramdrv-IsNor registry_config-IsConfig s' dict' one_record
set_ones =
    nvol3_record_set-Refines registry_config ramdrv-IsNor registry_config-IsConfig names.volume
      no_names no_records ones 27 names-Refines names-HasRoom ones-Fits ones-IsKey (omega arith)
      ones_accepted

nvol3_record_set-Refines_example :
    (s' : Instance Ram) × (dict' : Dictionary Entry) × (nvol3_record_set registry_config ones 27
        names.volume
      ≡ some (eok, s'))
    × Refines registry_config ramdrv-IsNor registry_config-IsConfig s' dict' one_record
nvol3_record_set-Refines_example =
    nvol3_record_set-Refines registry_config ramdrv-IsNor registry_config-IsConfig names.volume
      no_names no_records ones 27 names-Refines names-HasRoom ones-Fits ones-IsKey (omega arith)
      ones_accepted

nvol3_record_get-Refines_example :
    (answer : Reply × Record) × (nvol3_record_get registry_config ones set_ones.0
      ≡ some (answer, set_ones.0))
    × Answers (one_record ones.key_and_data) answer
nvol3_record_get-Refines_example =
    nvol3_record_get-Refines registry_config ramdrv-IsNor registry_config-IsConfig set_ones.0
      set_ones.1 one_record set_ones.3 refl ones

ones-found : one_record ones.key_and_data ≡ some (replicate 27 1)
ones-found = rw (key_cmp_refl binary_key (4 * 2 ^ 16 + 6) (replicate 27 1)) refl

nvol3_record_delete-Refines_example :
    (s' : Instance Ram) × (dict' : Dictionary Entry) × (nvol3_record_delete registry_config ones
        set_ones.0
      ≡ some (eok, s'))
    × Refines registry_config ramdrv-IsNor registry_config-IsConfig s' dict'
        (map_delete set_ones.1 one_record ones.key_and_data)
nvol3_record_delete-Refines_example =
    nvol3_record_delete-Refines registry_config ramdrv-IsNor registry_config-IsConfig set_ones.0
      set_ones.1 one_record set_ones.3 ones (replicate 27 1) ones-found
