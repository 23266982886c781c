-- ===== src/Examples/Volume.antt =====
-- Examples of src/nvram/nvol3.c on a volume of two sectors over the RAM driver.
use nvol.Base.{ℕ, ◌*◌, ◌^◌, ◌<◌, ◌≡◌, refl, List, none, some, arith}
use nvol.Base.Status.{eok}
use nvol.Dictionary.Init.{empty_table-IsValid, empty_table-absent}
use nvol.Dictionary.Keys.{key_type}
use nvol.Dictionary.{Dictionary}
use nvol.Examples.{
  calm_heap, small_config, small_config-IsConfig, empty_dict, short_bytes, long_bytes,
  short_bytes-IsKey, short_bytes-IsBytes, long_bytes-IsBytes, zero_head, query, fresh_volume,
}
use nvol.Flash.Content.{IsErased}
use nvol.Nvol.Api.{ask_callback, record_set}
use nvol.Nvol.Insert.{IsTable}
use nvol.Nvol.RoundTrip.{Fits, record_round_trip, new_record_of, read_back}
use nvol.Nvol.Set.{HasRoom, Sets, record_set_new}
use nvol.Nvol.Slots.{
  read_variable_record, variable_record_valid, write_variable_record, set_variable_record_flags,
}
use nvol.Nvol.Stored.{InReach}
use nvol.Nvol.{Record, Entry, Instance, flags_valid, max_records, max_length, slot_addr}
use nvol.Ramdrv.Nor.{ramdrv-IsNor}
use nvol.Ramdrv.{Ram}

abbrev Reaches : Type 0
Reaches = InReach small_config ramdrv-IsNor small_config-IsConfig fresh_volume 0

fresh_volume-reach : Reaches
fresh_volume-reach = record { capacity = omega arith; address = omega arith }

first_slot : 0 < max_records small_config
unfolding max_records
first_slot = omega arith

first_slot-IsErased : IsErased (λ _. 255) (slot_addr small_config 0 0) 32
first_slot-IsErased i h = refl

pub short_bytes-Fits : Fits small_config ramdrv-IsNor small_config-IsConfig 4 short_bytes
unfolding max_length
short_bytes-Fits = record {
  some_bytes = omega arith;
  enough = omega arith;
  short = omega arith;
  bytes = short_bytes-IsBytes;
}

pub long_bytes-Fits : Fits small_config ramdrv-IsNor small_config-IsConfig 8 long_bytes
unfolding max_length
long_bytes-Fits = record {
  some_bytes = omega arith;
  enough = omega arith;
  short = omega arith;
  bytes = long_bytes-IsBytes;
}

abbrev short_record : Record
short_record = new_record_of small_config ramdrv-IsNor small_config-IsConfig 4 short_bytes

record_round_trip_example :
    (d1 d2 : Ram) × (write_variable_record small_config 0 short_record 0 fresh_volume
      ≡ some (eok, record fresh_volume { dev = d1 }))
    × (set_variable_record_flags small_config 0 flags_valid 0 (record fresh_volume { dev = d1 })
        ≡ some (eok, record fresh_volume { dev = d2 }))
    × (read_variable_record small_config (record fresh_volume { dev = d2 }) query 0 0
        ≡ (eok, read_back 4 short_bytes query))
    × (variable_record_valid (read_back 4 short_bytes query) ≡ eok)
record_round_trip_example =
    record_round_trip small_config ramdrv-IsNor small_config-IsConfig fresh_volume 0 4 short_bytes
      query fresh_volume-reach first_slot short_bytes-Fits first_slot-IsErased

abbrev pub no_entries : Dictionary Entry
no_entries = empty_dict

pub no_entries-IsTable : IsTable no_entries calm_heap
unfolding key_type
no_entries-IsTable = record {
  valid = empty_table-IsValid (3 * 2 ^ 16) 2 (omega arith);
  below = λ q np h. let e = empty_table-absent {V = Entry} (3 * 2 ^ 16) 2 q in absurd (cc);
  answers = refl;
}

pub fresh_volume-HasRoom :
    HasRoom small_config ramdrv-IsNor small_config-IsConfig fresh_volume no_entries
unfolding max_records
fresh_volume-HasRoom = record {
  loaded = refl;
  table = no_entries-IsTable;
  reach = fresh_volume-reach;
  slot = first_slot;
  blank = first_slot-IsErased;
  headroom = omega arith;
}

pub accepted : (rec : Record) → ask_callback small_config rec ≡ eok
unfolding ask_callback
accepted rec = refl

-- What `record_set` makes of the bytes on the fresh volume.
abbrev pub SetsFresh : ℕ → List ℕ → Type 0
SetsFresh n kd =
    (s' : Instance Ram) × (dict' : Dictionary Entry) × (record_set small_config none
        (record { head = zero_head; key_and_data = kd }) n fresh_volume
      ≡ some (eok, s'))
    × Sets small_config ramdrv-IsNor small_config-IsConfig fresh_volume s' no_entries dict' n kd

record_set_new_example : SetsFresh 4 short_bytes
record_set_new_example =
    record_set_new small_config ramdrv-IsNor small_config-IsConfig fresh_volume no_entries
      (record { head = zero_head; key_and_data = short_bytes }) 4 fresh_volume-HasRoom
      short_bytes-Fits short_bytes-IsKey
      (accepted (new_record_of small_config ramdrv-IsNor small_config-IsConfig 4 short_bytes))
