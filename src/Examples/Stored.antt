-- ===== src/Examples/Stored.antt =====
-- Examples of reading and deleting records of a volume (src/nvram/nvol3.c).
use nvol.Base.{◌≡◌, refl, [], ◌∷◌, some, true, arith, take, drop}
use nvol.Base.Bytes.{load16}
use nvol.Base.Status.{len}
use nvol.Dictionary.Keys.{key_cmp}
use nvol.Dictionary.Table.{same}
use nvol.Examples.Volume.{
  SetsFresh, no_entries, fresh_volume-HasRoom, short_bytes-Fits, long_bytes-Fits, accepted,
}
use nvol.Examples.{
  small_config, small_config-IsConfig, short_bytes, long_bytes, short_bytes-IsKey, long_bytes-IsKey,
  zero_head, query, fresh_volume,
}
use nvol.Nvol.Api.{nvol3_record_get, clear_head}
use nvol.Nvol.RoundTrip.{new_record_of, read_back}
use nvol.Nvol.Set.{record_set_new}
use nvol.Nvol.SetGet.{record_get-record_set_remote, record_get-record_set_local}
use nvol.Nvol.{Record}
use nvol.Ramdrv.Nor.{ramdrv-IsNor}

pub set_short : SetsFresh 4 short_bytes
set_short =
    record_set_new small_config ramdrv-IsNor small_config-IsConfig fresh_volume no_entries
      (record { head = zero_head; key_and_data = short_bytes }) 4 fresh_volume-HasRoom
      short_bytes-Fits short_bytes-IsKey
      (accepted (new_record_of small_config ramdrv-IsNor small_config-IsConfig 4 short_bytes))

pub set_long : SetsFresh 8 long_bytes
set_long =
    record_set_new small_config ramdrv-IsNor small_config-IsConfig fresh_volume no_entries
      (record { head = zero_head; key_and_data = long_bytes }) 8 fresh_volume-HasRoom
      long_bytes-Fits long_bytes-IsKey
      (accepted (new_record_of small_config ramdrv-IsNor small_config-IsConfig 8 long_bytes))

pub asks_short : same no_entries short_bytes query.key_and_data ≡ true
unfolding key_cmp load16
asks_short = refl

asks_long : same no_entries long_bytes query.key_and_data ≡ true
unfolding key_cmp load16
asks_long = refl

record_get-record_set_remote_example :
    nvol3_record_get small_config query set_long.0
    ≡ some ((len 8, read_back 8 long_bytes (clear_head small_config query)), set_long.0)
record_get-record_set_remote_example =
    record_get-record_set_remote small_config ramdrv-IsNor small_config-IsConfig fresh_volume
      set_long.0 no_entries set_long.1 8 long_bytes fresh_volume-HasRoom long_bytes-Fits set_long.3
      query asks_long (omega arith) (omega arith)

record_get-record_set_local_example :
    (out : Record) × (nvol3_record_get small_config query set_short.0
      ≡ some ((len 4, out), set_short.0))
    × (take 2 (drop 2 out.key_and_data) ≡ 11 ∷ 12 ∷ [])
record_get-record_set_local_example =
    record_get-record_set_local small_config ramdrv-IsNor small_config-IsConfig fresh_volume
      set_short.0 no_entries set_short.1 4 short_bytes fresh_volume-HasRoom short_bytes-Fits
      set_short.3 query asks_short (omega arith) (omega arith) (omega arith)
