-- ===== src/Examples/Headers.antt =====
-- Examples for the headers, the checksum and the lookup table of a volume (src/nvram/nvol3.c).
use nvol.Base.{◌≤◌, ◌<◌, ◌≡◌, refl, [], ◌∷◌, some, arith}
use nvol.Base.Heap.{Heap}
use nvol.Base.Status.{eok, e_invalid}
use nvol.Dictionary.{Dictionary}
use nvol.Examples.Volume.{no_entries, no_entries-IsTable}
use nvol.Examples.{
  calm_heap, small_config, small_config-IsConfig, short_bytes, short_bytes-IsKey, query,
  fresh_volume,
}
use nvol.Nvol.Api.{new_head}
use nvol.Nvol.Checksum.{variable_record_valid-changed}
use nvol.Nvol.Construct.{Ends, construct_lookup_table-Ends}
use nvol.Nvol.Insert.{IsTable, Enters, entry_for, insert_lookup_table_lem}
use nvol.Nvol.Lookup.{insert_lookup_table, construct_lookup_table}
use nvol.Nvol.RoundTrip.{new_record_of, valid_head}
use nvol.Nvol.Slots.{sum16, negate16, checksum, variable_record_valid}
use nvol.Nvol.{Record, Entry, max_records}
use nvol.Ramdrv.Nor.{ramdrv-IsNor}

abbrev short_record : Record
short_record = new_record_of small_config ramdrv-IsNor small_config-IsConfig 4 short_bytes

insert_lookup_table_example :
    (dict' : Dictionary Entry) × (heap' : Heap) × (insert_lookup_table small_config short_record 3
        fresh_volume
      ≡ some (eok, record fresh_volume { dict = some dict'; heap = heap' }))
    × IsTable dict' heap'
    × Enters no_entries dict' short_bytes 100 (entry_for small_config calm_heap short_record 3)
    × (dict'.count ≤ 1)
insert_lookup_table_example =
    insert_lookup_table_lem small_config fresh_volume no_entries short_record 3 refl
      no_entries-IsTable short_bytes-IsKey (omega arith)

construct_lookup_table_example :
    Ends small_config (construct_lookup_table small_config query) fresh_volume
construct_lookup_table_example =
    construct_lookup_table-Ends small_config small_config-IsConfig query fresh_volume
      (no_entries, refl)

abbrev stored_record : Record
stored_record = record { head = valid_head 4 short_bytes; key_and_data = short_bytes }

stored_record-valid : variable_record_valid stored_record ≡ eok
unfolding variable_record_valid new_head checksum negate16 sum16
stored_record-valid = refl

long_enough : 2 < stored_record.head.length
unfolding new_head
long_enough = omega arith

variable_record_valid-changed_example :
    variable_record_valid (record stored_record { key_and_data = 7 ∷ 0 ∷ 99 ∷ 12 ∷ [] }) ≡ e_invalid
variable_record_valid-changed_example =
    variable_record_valid-changed stored_record 2 99 stored_record-valid long_enough (omega arith)
      (omega arith) (omega arith) (omega arith)

last_slot : 6 < max_records small_config
unfolding max_records
last_slot = omega arith
