-- ===== src/Examples/Replaced.antt =====
-- An example of `store_record` (src/nvram/nvol3.c): the record that was set is set to other bytes.
use nvol.Base.{◌+◌, ◌≡◌, some, arith, inr}
use nvol.Base.Status.{eok}
use nvol.Dictionary.{Dictionary}
use nvol.Examples.Again.{set_short-HasRecord}
use nvol.Examples.Stored.{set_short}
use nvol.Examples.Volume.{long_bytes-Fits}
use nvol.Examples.{small_config, small_config-IsConfig, short_bytes, long_bytes, long_bytes-IsKey}
use nvol.Flash.Content.{IsErased}
use nvol.Nvol.Api.{store_record}
use nvol.Nvol.Replace.{HasOld, Replaces, store_record_lem}
use nvol.Nvol.RoundTrip.{new_record_of, valid_head}
use nvol.Nvol.Set.{HasRoom}
use nvol.Nvol.{Entry, Instance, max_records, max_length, slot_addr}
use nvol.Ramdrv.Nor.{ramdrv-IsNor}
use nvol.Ramdrv.{Ram}

second_slot-IsErased :
    IsErased set_short.0.dev.cell
      (slot_addr small_config set_short.0.sector set_short.0.next_idx)
      32
unfolding slot_addr
second_slot-IsErased i h =
    let sets = set_short.3 in
    rw (sets.sector, sets.next) (sets.changes.outside (64 + i) (inr (omega arith)))

set_short-HasRoom : HasRoom small_config ramdrv-IsNor small_config-IsConfig set_short.0 set_short.1
unfolding max_records
set_short-HasRoom =
    let sets = set_short.3 in
    let had = set_short-HasRecord in
    record {
      loaded = sets.loaded;
      table = sets.table;
      reach = had.reach;
      slot = omega (arith, sets.next);
      blank = second_slot-IsErased;
      headroom = omega (arith, sets.count);
    }

set_short-HasOld :
    HasOld small_config ramdrv-IsNor small_config-IsConfig set_short.0 0
      (valid_head 4 short_bytes)
      short_bytes
unfolding max_records max_length
set_short-HasOld =
    let sets = set_short.3 in
    let had = set_short-HasRecord in
    record {
      slot = omega arith;
      other = omega (arith, sets.next);
      short = omega arith;
      stored = rw sets.sector sets.stored;
    }

store_record_example :
    (s' : Instance Ram) × (dict' : Dictionary Entry) × (store_record small_config
        (new_record_of small_config ramdrv-IsNor small_config-IsConfig 8 long_bytes)
        0
        set_short.0
      ≡ some (eok, s'))
    × Replaces small_config ramdrv-IsNor small_config-IsConfig set_short.0 s' set_short.1 dict' 8
        long_bytes 0
        (valid_head 4 short_bytes)
        short_bytes
store_record_example =
    store_record_lem small_config ramdrv-IsNor small_config-IsConfig set_short.0 set_short.1 8
      long_bytes 0 (valid_head 4 short_bytes) short_bytes set_short-HasRoom long_bytes-Fits
      long_bytes-IsKey set_short-HasOld
