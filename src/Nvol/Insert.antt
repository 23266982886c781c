-- ===== src/Nvol/Insert.antt =====
-- `insert_lookup_table` of src/nvram/nvol3.c on a well-formed lookup table.
use nvol.Base.{ℕ, ◌+◌, ◌^◌, ◌≤◌, ◌<◌, ◌≡◌, List, [], some, if◌then◌else◌}
use nvol.Base.Heap.{Heap}
use nvol.Base.Status.{eok}
use nvol.Dictionary.Fresh.{IsBelow, made, reinstall_lem}
use nvol.Dictionary.Keys.Laws.{IsKey}
use nvol.Dictionary.Table.{same, IsValid}
use nvol.Dictionary.{Dictionary, dict_lookup, write_value}
use nvol.Nvol.Lookup.{raw_entry, local_bytes, fill_entry, insert_lookup_table}
use nvol.Nvol.Slots.{Volume}
use nvol.Nvol.{Record, Entry, Config}

-- A lookup table that can take another entry: it is well formed, its nodes stand below the next
-- address of the heap, and no allocation fails.
pub record IsTable (dict : Dictionary Entry) (heap : Heap) : Type 0 where
  pub valid : IsValid dict
  pub below : IsBelow dict heap.next
  pub answers : heap.answers ≡ []

-- The table `dict'` is `dict` with the entry `e` for the key, at the address `a`.
abbrev pub Enters : Dictionary Entry → Dictionary Entry → List ℕ → ℕ → Entry → Type 0
Enters dict dict' key a e =
    (q : List ℕ)
    → dict_lookup dict' q
      ≡ (if same dict key q then some (made dict key a e) else dict_lookup dict q)

module _ (config : Config) where
  -- The entry that the lookup table gets for a record in slot `idx`.
  abbrev pub entry_for : Heap → Record → ℕ → Entry
  entry_for heap rec idx =
      fill_entry config rec idx (raw_entry config heap (local_bytes config rec))

  -- `insert_lookup_table` succeeds on a table that can take another entry; afterwards the key of the
  -- record is found with the record's entry and every other key as before, and the table is again
  -- one that can take another entry, of at most one node more, while nothing else of the volume changes.
  pub insert_lookup_table_lem :
      (s : Volume config) (dict : Dictionary Entry) (rec : Record) (idx : ℕ)
      → s.dict ≡ some dict
      → IsTable dict s.heap
      → IsKey rec.key_and_data
      → dict.count + 1 < 2 ^ 32
      → (dict' : Dictionary Entry) × (heap' : Heap) × (insert_lookup_table config rec idx s
          ≡ some (eok, record s { dict = some dict'; heap = heap' }))
        × IsTable dict' heap'
        × Enters dict dict' rec.key_and_data s.heap.next (entry_for s.heap rec idx)
        × (dict'.count ≤ dict.count + 1)
  unfolding insert_lookup_table
  insert_lookup_table_lem s dict rec idx has t key room =
      let key_and_data = rec.key_and_data in
      let fresh = raw_entry config s.heap (local_bytes config rec) in
      let (dict', heap', run, got, valid, look, below, count) =
        reinstall_lem dict key_and_data fresh s.heap (fill_entry config rec idx) t.valid key room
          t.below t.answers in
      (
        write_value dict' s.heap.next (fill_entry config rec idx),
        heap',
        simp (insert_lookup_table, has, run),
        record { valid = valid; below = below; answers = got.0 },
        look,
        count,
      )
