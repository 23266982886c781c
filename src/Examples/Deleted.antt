-- ===== src/Examples/Deleted.antt =====
-- An example of `nvol3_record_delete` (src/nvram/nvol3.c): the record that was set is deleted.
use nvol.Base.{ℕ, ◌≤◌, ◌≡◌, refl, ◌∙◌, List, none, some, arith, take, if◌then◌else◌}
use nvol.Base.Bytes.{inc32, dec32}
use nvol.Base.Status.{eok, e_invalid}
use nvol.Dictionary.Fresh.{made}
use nvol.Dictionary.Table.{same, IsValid}
use nvol.Dictionary.{Dictionary, Node, dict_lookup}
use nvol.Examples.Stored.{set_short, asks_short}
use nvol.Examples.Volume.{no_entries, fresh_volume-HasRoom, short_bytes-Fits}
use nvol.Examples.{calm_heap, small_config, small_config-IsConfig, short_bytes, query, fresh_volume}
use nvol.Nvol.Api.{nvol3_record_delete}
use nvol.Nvol.Delete.{Deletable, nvol3_record_delete_lem}
use nvol.Nvol.Insert.{entry_for}
use nvol.Nvol.Lookup.{fill_entry}
use nvol.Nvol.RoundTrip.{new_record_of, valid_head, valid_head-IsHead}
use nvol.Nvol.SetGet.{reach'}
use nvol.Nvol.Slots.{read_variable_record}
use nvol.Nvol.Stored.{Changes}
use nvol.Nvol.{Record, Entry, Instance, flags_invalid, max_records, slot_addr}
use nvol.Ramdrv.Nor.{ramdrv-IsNor}
use nvol.Ramdrv.{Ram}

-- The node that the lookup table has for key 7.
abbrev short_node : Node Entry
short_node = made no_entries short_bytes 100 (
    entry_for small_config calm_heap
      (new_record_of small_config ramdrv-IsNor small_config-IsConfig 4 short_bytes) 0)

short_node-Deletable :
    Deletable small_config ramdrv-IsNor small_config-IsConfig set_short.0 set_short.1
      query.key_and_data short_node
      (valid_head 4 short_bytes)
      (take 4 short_bytes)
unfolding fill_entry max_records
short_node-Deletable =
    let sets = set_short.3 in
    record {
      loaded = sets.loaded;
      valid = sets.table.valid;
      counted = omega (arith, sets.count);
      there = sets.enters query.key_and_data ∙ rw asks_short refl;
      reach =
          reach' small_config ramdrv-IsNor small_config-IsConfig fresh_volume set_short.0 no_entries
            set_short.1 4 short_bytes fresh_volume-HasRoom short_bytes-Fits sets;
      slot = omega arith;
      head = valid_head-IsHead 4 short_bytes;
      stored = rw sets.sector sets.stored;
    }

nvol3_record_delete_example :
    (s' : Instance Ram) × (dict' : Dictionary Entry) × (nvol3_record_delete small_config query
        set_short.0
      ≡ some (eok, s'))
    × (s'.dict ≡ some dict')
    × ((q : List ℕ)
        → dict_lookup dict' q
          ≡ (if same set_short.1 query.key_and_data q then none else dict_lookup set_short.1 q))
    × ((var : Record)
        → read_variable_record small_config s' var short_node.value.idx 0 ≡ (
          e_invalid,
          record var { head = record (valid_head 4 short_bytes) { flags = flags_invalid } },
        ))
    × Changes small_config ramdrv-IsNor small_config-IsConfig set_short.0.dev s'.dev
        (slot_addr small_config set_short.0.sector short_node.value.idx)
        32
    × (s'.inuse ≡ dec32 set_short.0.inuse)
    × (s'.invalid ≡ inc32 set_short.0.invalid)
    × (s'.sector ≡ set_short.0.sector)
    × (s'.next_idx ≡ set_short.0.next_idx)
    × IsValid dict'
    × (dict'.count ≤ set_short.1.count)
nvol3_record_delete_example =
    nvol3_record_delete_lem small_config ramdrv-IsNor small_config-IsConfig set_short.0 set_short.1
      query short_node (valid_head 4 short_bytes) (take 4 short_bytes) short_node-Deletable
