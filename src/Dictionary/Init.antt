-- ===== src/Dictionary/Init.antt =====
-- `dictionary_init`: the new dictionary.
use nvol.Base.{
  ℕ, zero, suc, ◌<◌, ◌≡◌, refl, List, [], none, some, arith, flatten, replicate, length-replicate,
  get_or-replicate,
}
use nvol.Base.Heap.{Heap, heap_malloc-ok}
use nvol.Dictionary.Table.{IsValid}
use nvol.Dictionary.{Node, Dictionary, hash, chain_find, dict_lookup, dictionary_init}
use nvol.Dictionary.Keys.{key_type}

module _ {ℓ} {V : Type ℓ} where
  -- The dictionary that `dictionary_init` makes.
  abbrev pub empty_table : ℕ → ℕ → Dictionary V
  empty_table keyspec hashsize = record {
    key = key_type keyspec;
    hashsize = hashsize;
    keyspec = keyspec;
    count = 0;
    hashtab = replicate hashsize [];
  }

  flatten-replicate : (n : ℕ) → flatten (replicate {A = List (Node V)} n []) ≡ []
  unfolding flatten
  flatten-replicate zero = refl
  flatten-replicate (suc n) = flatten-replicate n

  pub empty_table-IsValid :
      (keyspec hashsize : ℕ) → 0 < hashsize → IsValid (empty_table keyspec hashsize)
  empty_table-IsValid keyspec hashsize h = record {
    sized = length-replicate hashsize [];
    pos = h;
    counted = rw (flatten-replicate hashsize);
    once = λ q i. rw (get_or-replicate {A = List (Node V)} hashsize i []) (omega arith);
    home = λ q i ne. rw (get_or-replicate {A = List (Node V)} hashsize i []);
  }

  pub empty_table-absent :
      (keyspec hashsize : ℕ) (q : List ℕ) → dict_lookup (empty_table keyspec hashsize) q ≡ none
  unfolding dict_lookup chain_find
  empty_table-absent keyspec hashsize q =
      rw (get_or-replicate {A = List (Node V)} hashsize (hash (empty_table keyspec hashsize) q) [])

  -- While no allocation fails, `dictionary_init` with at least one bucket gives a well-formed
  -- dictionary in which no key is found.
  dictionary_init_lem :
      (keyspec hashsize : ℕ) (heap : Heap)
      → 0 < hashsize
      → heap.answers ≡ []
      → (dict : Dictionary V) × (heap' : Heap) × (dictionary_init keyspec hashsize heap
          ≡ (some dict, heap'))
        × IsValid dict
        × ((q : List ℕ) → dict_lookup dict q ≡ none)
  unfolding dictionary_init
  dictionary_init_lem keyspec hashsize heap h ok = (
    empty_table keyspec hashsize,
    record { next = suc heap.next; answers = []; fill = heap.fill },
    simp (dictionary_init, heap_malloc-ok heap ok),
    empty_table-IsValid keyspec hashsize h,
    empty_table-absent keyspec hashsize,
  )
