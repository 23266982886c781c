-- ===== src/Examples/Again.antt =====
-- An example of `record_set` (src/nvram/nvol3.c) with the bytes that were set before.
use nvol.Base.{◌≡◌, some, arith}
use nvol.Base.Heap.{Heap}
use nvol.Base.Status.{eok}
use nvol.Examples.Stored.{set_short}
use nvol.Examples.Volume.{no_entries, fresh_volume-HasRoom, short_bytes-Fits}
use nvol.Examples.{
  calm_heap, small_config, small_config-IsConfig, short_bytes, zero_head, fresh_volume,
}
use nvol.Nvol.Api.{record_set}
use nvol.Nvol.Insert.{entry_for}
use nvol.Nvol.Lookup.{fill_entry}
use nvol.Nvol.RoundTrip.{new_record_of}
use nvol.Nvol.SetGet.{reach'}
use nvol.Nvol.Unchanged.{HasRecord, record_set_unchanged}
use nvol.Nvol.{Entry, max_records}
use nvol.Ramdrv.Nor.{ramdrv-IsNor}

-- The entry of key 7.
abbrev pub short_entry : Entry
short_entry =
    entry_for small_config calm_heap
      (new_record_of small_config ramdrv-IsNor small_config-IsConfig 4 short_bytes) 0

pub set_short-HasRecord :
    HasRecord small_config ramdrv-IsNor small_config-IsConfig set_short.0 set_short.1
      short_entry.idx 4 short_bytes
unfolding fill_entry max_records
set_short-HasRecord =
    let sets = set_short.3 in
    record {
      loaded = sets.loaded;
      answers = sets.table.answers;
      reach =
          reach' small_config ramdrv-IsNor small_config-IsConfig fresh_volume set_short.0 no_entries
            set_short.1 4 short_bytes fresh_volume-HasRoom short_bytes-Fits sets;
      slot = omega arith;
      stored = rw sets.sector sets.stored;
      headroom = omega (arith, sets.count);
    }

record_set_unchanged_example :
    (heap : Heap) × (record_set small_config
        (some short_entry)
        (record { head = zero_head; key_and_data = short_bytes })
        4
        set_short.0
      ≡ some (eok, record set_short.0 { heap = heap }))
record_set_unchanged_example =
    record_set_unchanged small_config ramdrv-IsNor small_config-IsConfig set_short.0 set_short.1
      short_entry (record { head = zero_head; key_and_data = short_bytes }) 4 set_short-HasRecord
      short_bytes-Fits
