-- ===== src/Examples/Strings.antt =====
-- Examples of src/registry/strtab.c: a string is stored in an empty table on erased memory.
use Prim.Native.Nat.{min}
use nvol.Base.{
  ℕ, ◌+◌, ◌*◌, ◌^◌, ◌<◌, ◌≡◌, refl, [], ◌∷◌, ◌++◌, none, some, true, arith, replicate,
  get_or-replicate,
}
use nvol.Base.Bytes.{bytes16}
use nvol.Base.Status.{eok, e_notfound, len}
use nvol.Dictionary.Init.{empty_table-IsValid, empty_table-absent}
use nvol.Dictionary.Keys.{key_type, binary_key}
use nvol.Dictionary.{Dictionary, dict_lookup}
use nvol.Examples.Names.{empty_volume, content, content-IsBytes}
use nvol.Examples.{calm_heap, zero_head}
use nvol.Nvol.Insert.{IsTable}
use nvol.Nvol.Set.{HasRoom}
use nvol.Nvol.{Record, Entry, max_records}
use nvol.Ramdrv.Nor.{ramdrv-IsNor}
use nvol.Registry.Texts.{strncpy}
use nvol.Strtab.SetGet.{repo3_string_config-IsConfig, IsOpen, IsNew, strtab_get-strtab_set}
use nvol.Strtab.Valid.{strtab_valid-strtab_set}
use nvol.Strtab.{Strtab, repo3_string_config, set_key, strtab_set, strtab_get, strtab_valid}

-- Empty buckets for keys of one word.
abbrev pub no_strings : Dictionary Entry
no_strings = record {
  key = binary_key;
  hashsize = 17;
  keyspec = 4 * 2 ^ 16 + 1;
  count = 0;
  hashtab = replicate 17 [];
}

no_strings-IsTable : IsTable no_strings calm_heap
unfolding key_type
no_strings-IsTable = record {
  valid = empty_table-IsValid (4 * 2 ^ 16 + 1) 17 (omega arith);
  below = λ q np h. let e = empty_table-absent {V = Entry} (4 * 2 ^ 16 + 1) 17 q in absurd (cc);
  answers = refl;
}

abbrev pub table : Strtab
table = record {
  volume = empty_volume (64 * 1024) no_strings;
  buffer = record { head = zero_head; key_and_data = replicate 504 0 };
  it = record { np = none; prev = none; idx = 0; cmp = none };
}

table-HasRoom :
    HasRoom repo3_string_config ramdrv-IsNor repo3_string_config-IsConfig table.volume no_strings
unfolding max_records
table-HasRoom = record {
  loaded = refl;
  table = no_strings-IsTable;
  reach = record { capacity = omega arith; address = omega arith };
  slot = omega arith;
  blank = λ i h. refl;
  headroom = omega arith;
}

pub table-IsOpen : IsOpen table no_strings
table-IsOpen = record {
  volume = record { room = table-HasRoom; key = refl; keyspec = refl; words = refl; remote = refl };
  bytes = λ i. rw (get_or-replicate {A = ℕ} 504 i 0) (omega arith);
}

some_string : 0 < 3
some_string = omega arith

key-IsNew :
    IsNew table no_strings 7 content 3 table-IsOpen content-IsBytes some_string (omega arith)
unfolding key_type
key-IsNew = empty_table-absent (4 * 2 ^ 16 + 1) 17 (set_key 7 table.buffer).key_and_data

other-IsNew : dict_lookup no_strings (bytes16 7 ++ (0 ∷ 1 ∷ [])) ≡ none
unfolding key_type
other-IsNew = empty_table-absent (4 * 2 ^ 16 + 1) 17 (bytes16 7 ++ (0 ∷ 1 ∷ []))

strtab_get-strtab_set_example :
    (t' : Strtab) × (strtab_set 7 content 3 table ≡ some (eok, t'))
    × ((buffer : Record) (length : ℕ)
        → (t'' : Strtab) × (strtab_get 7 true length (record t' { buffer = buffer })
            ≡ some ((len 3, strncpy (min 3 length) content), t''))
          × (t''.volume ≡ t'.volume))
strtab_get-strtab_set_example =
    strtab_get-strtab_set table no_strings 7 content 3 table-IsOpen content-IsBytes some_string
      (omega arith) key-IsNew

-- With a byte that is not zero beyond the key.
strtab_valid-strtab_set_example :
    (t' : Strtab) × (strtab_set 7 content 3 table ≡ some (eok, t'))
    × (strtab_valid (0 ∷ 1 ∷ []) 7 t' ≡ some (e_notfound, t'))
strtab_valid-strtab_set_example =
    strtab_valid-strtab_set table no_strings 7 content 3 table-IsOpen content-IsBytes some_string
      (omega arith) 0 1 key-IsNew (omega arith) (omega arith) (omega arith) other-IsNew
