-- ===== src/Nvol/Entries.antt =====
-- The iterators over a volume and the entry functions of src/nvram/nvol3.c. An iterator holds the
-- address of a node; where the node was freed in the meantime, its use is undefined behaviour.
use Prim.Native.Nat.{Ordering}
use nvol.Base.{ℕ, ◌+◌, List, ◌++◌, Option, none, some, ltb, leb, if◌then◌else◌, take, drop}
use nvol.Base.Bytes.{inc32, dec32, overlay}
use nvol.Base.Status.{Status, eok, efail, e_nomem, e_notfound, e_eof, is_eok, Reply, failed}
use nvol.Dictionary.{
  Dictionary, Node, dictionary_get_key, dictionary_get_key_size, dictionary_get_value,
  dictionary_remove, deref,
}
use nvol.Dictionary.Iterator.{It, dictionary_it_first, dictionary_it_next, dictionary_it_at}
use nvol.Nvol.{
  Record, Entry, Config, M, pure, fault, ◌>>=◌, ◌>>◌, get, modify, get_dict, flags_invalid,
  max_records,
}
use nvol.Nvol.Api.{nvol3_cmp, record_get, record_set, clear_head, make_room}
use nvol.Nvol.Slots.{set_variable_record_flags}
use nvol.Nvol.Swap.{malloc_record}

module _ (config : Config) where
  abbrev Vol : Type 0 → Type 0
  Vol A = M config.flash.Dev A

  -- The record of the node that an iterator came to.
  unfoldable pub get_at : Record → Option (Node Entry) → Vol (Reply × Record)
  get_at rec none = pure (failed e_eof, rec)
  get_at rec (some m) = do s ← get; pure (record_get config s rec (some m))

  -- `nvol3_record_first`; `junk` is the uninitialised local variable of `dictionary_it_first`.
  unfoldable pub nvol3_record_first :
      Record → Option (List ℕ → List ℕ → Ordering) → ℕ → Vol (Reply × Record × It Entry)
  nvol3_record_first rec cmp junk = do
    dict ← get_dict
    (elim (dictionary_it_first dict (elim cmp [ none ↦ none | some c ↦ some (nvol3_cmp c) ]) junk) [
      | none ↦ fault
      | some (m, it) ↦ do (reply, out) ← get_at rec m; pure (reply, out, it)
    ])

  -- `nvol3_record_next`
  unfoldable pub nvol3_record_next : Record → It Entry → Vol (Reply × Record × It Entry)
  nvol3_record_next rec it = do
    dict ← get_dict
    (elim (dictionary_it_next dict it) [
      | none ↦ fault
      | some (m, it') ↦ do (reply, out) ← get_at rec m; pure (reply, out, it')
    ])

  unfoldable pub found : Status → Option (Node Entry) → Status
  found missing none = missing
  found missing (some _) = eok

  -- `nvol3_entry_first`
  unfoldable pub nvol3_entry_first : Vol (Status × It Entry)
  nvol3_entry_first = do
    dict ← get_dict
    (elim (dictionary_it_first dict none 0) [
      | none ↦ fault
      | some (m, it) ↦ pure (found efail m, it)
    ])

  -- `nvol3_entry_next`
  unfoldable pub nvol3_entry_next : It Entry → Vol (Status × It Entry)
  nvol3_entry_next it = do
    dict ← get_dict
    (elim (dictionary_it_next dict it) [ none ↦ fault | some (m, it') ↦ pure (found efail m, it') ])

  -- `nvol3_entry_at`
  unfoldable pub nvol3_entry_at : List ℕ → It Entry → Vol (Status × It Entry)
  nvol3_entry_at key it = do
    dict ← get_dict
    let (m, it') = dictionary_it_at dict key it
    pure (found e_notfound m, it')

  -- `it->it.np`, which is followed
  unfoldable pub current : It Entry → Vol (Node Entry)
  current it = do
    dict ← get_dict
    (elim it.np [
      | none ↦ fault
      | some a ↦ elim (deref dict a) [ none ↦ fault | some np ↦ pure np ]
    ])

  -- `nvol3_entry_data`: the bytes and their count
  unfoldable pub nvol3_entry_data : It Entry → Vol (ℕ × List ℕ)
  nvol3_entry_data it = do
    np ← current it
    pure ((dictionary_get_value np).length, (dictionary_get_value np).local)

  -- `nvol3_entry_key`
  unfoldable pub nvol3_entry_key : It Entry → Vol (List ℕ)
  nvol3_entry_key it = do np ← current it; pure (dictionary_get_key np)

  -- The record that `nvol3_entry_save` puts together in its buffer.
  unfoldable pub entry_record : Dictionary Entry → Node Entry → Record → Record
  entry_record dict np buffer =
      let size = dictionary_get_key_size dict np in
      let keysize = if ltb config.key_size size then config.key_size else size in
      let entry = dictionary_get_value np in
      let buf = overlay (take keysize (dictionary_get_key np)) buffer.key_and_data in
      record (clear_head config buffer) {
        key_and_data =
            take config.key_size buf
            ++ overlay (take entry.length entry.local) (drop config.key_size buf);
      }

  unfoldable pub save_with : It Entry → Record → Vol Status
  save_with it buffer = do
    dict ← get_dict
    np ← current it
    record_set config (some (dictionary_get_value np)) (entry_record dict np buffer)
        (config.key_size + (dictionary_get_value np).length)

  -- `nvol3_entry_save`
  unfoldable pub nvol3_entry_save : It Entry → Vol Status
  nvol3_entry_save it = do
    buffer ← malloc_record config
    (elim buffer [
      | none ↦ pure e_nomem
      | some rec ↦ do
        s ← get
        status ←
            if leb (max_records config) s.next_idx then make_room config (some rec) else pure eok
        if is_eok status then save_with it rec else pure efail
    ])

  -- `nvol3_entry_delete`
  unfoldable pub nvol3_entry_delete : It Entry → Vol Status
  nvol3_entry_delete it = do
    np ← current it
    s ← get
    status ← set_variable_record_flags config s.sector flags_invalid (dictionary_get_value np).idx
    modify (λ s. record s { inuse = dec32 s.inuse; invalid = inc32 s.invalid })
    dict ← get_dict
    let (removed, dict') = dictionary_remove dict (dictionary_get_key np)
    modify (λ s. record s { dict = some dict' })
    pure (if removed then status else e_notfound)
