-- ===== src/Dictionary.antt =====
-- src/common/dictionary.c: a hash table with chains. A node's address stands for the pointer
-- `struct dlist *`; `V` is the type of the values.
pub mod Keys
pub mod Iterator
pub mod Chains
pub mod Table
pub mod Remove
pub mod Clear
pub mod Install
pub mod Fresh
pub mod Init
use nvol.Base.{
  ℕ, zero, suc, ◌+◌, ◌*◌, List, [], ◌∷◌, Bool, true, false, Option, none, some, ◌==◌, if◌then◌else◌,
  get_or, set, length, replicate, flatten,
}
use nvol.Base.Bytes.{inc32, dec32}
use nvol.Base.Heap.{Heap, heap_malloc}
use Keys.{
  KeyType, str_key, const_str_key, ushort_key, binary_key, key_type, key_hash, key_cmp, key_store,
  key_words, c_string,
}

-- `struct dlist`
pub record Node {ℓ} (V : Type ℓ) : Type ℓ where
  pub addr : ℕ
  pub key : List ℕ
  pub value : V

-- `struct dictionary`
pub record Dictionary {ℓ} (V : Type ℓ) : Type ℓ where
  pub key : KeyType
  pub hashsize : ℕ
  pub keyspec : ℕ
  pub count : ℕ
  pub hashtab : List (List (Node V))

module _ {ℓ} {V : Type ℓ} where
  abbrev pub hash : Dictionary V → List ℕ → ℕ
  hash dict s = key_hash dict.key dict.keyspec dict.hashsize s

  abbrev pub matches : Dictionary V → List ℕ → Node V → Bool
  matches dict s np = key_cmp dict.key dict.keyspec np.key s

  -- `dict->hashtab[i]`
  abbrev pub bucket : Dictionary V → ℕ → List (Node V)
  bucket dict i = get_or dict.hashtab i []

  abbrev pub set_bucket : Dictionary V → ℕ → List (Node V) → Dictionary V
  set_bucket dict i chain = record dict { hashtab = set dict.hashtab i chain }

  -- The first node of a chain that the test accepts, and the chain without it.
  pub chain_find : (Node V → Bool) → List (Node V) → Option (Node V)
  chain_find p [] = none
  chain_find p (np ∷ chain) = if p np then some np else chain_find p chain

  pub chain_unlink : (Node V → Bool) → List (Node V) → List (Node V)
  chain_unlink p [] = []
  chain_unlink p (np ∷ chain) = if p np then chain else np ∷ chain_unlink p chain

  pub dict_lookup : Dictionary V → List ℕ → Option (Node V)
  dict_lookup dict s = chain_find (matches dict s) (bucket dict (hash dict s))

  -- The node found is unlinked and counted down; the caller gets it back.
  pub dict_remove : Dictionary V → List ℕ → Option (Node V) × Dictionary V
  dict_remove dict s =
      let i = hash dict s in
      elim (chain_find (matches dict s) (bucket dict i)) [
        | none ↦ (none, dict)
        | some np ↦ (
          some np,
          record (set_bucket dict i (chain_unlink (matches dict s) (bucket dict i))) {
            count = dec32 dict.count;
          },
        )
      ]

  unfoldable pub dictionary_get : Dictionary V → List ℕ → Option (Node V)
  unfolding dict_lookup
  dictionary_get = dict_lookup

  -- `dictionary_init`; null when the table cannot be allocated
  pub dictionary_init : ℕ → ℕ → Heap → Option (Dictionary V) × Heap
  dictionary_init keyspec hashsize heap =
      let (p, heap') = heap_malloc heap in
      elim p [
        | none ↦ (none, heap')
        | some _ ↦ (
          some (record {
            key = key_type keyspec;
            hashsize = hashsize;
            keyspec = keyspec;
            count = 0;
            hashtab = replicate hashsize [];
          }),
          heap',
        )
      ]

  -- The tables' `alloc` functions: the address of the new node. A string key is copied into a
  -- second block, and the node is given back when there is no room for it.
  pub key_alloc : Dictionary V → Heap → Option ℕ × Heap
  key_alloc dict heap =
      let (p, heap') = heap_malloc heap in
      elim p [
        | none ↦ (none, heap')
        | some np ↦ elim dict.key [
          | str_key ↦
              let (q, heap'') = heap_malloc heap' in
              elim q [ none ↦ (none, heap'') | some _ ↦ (some np, heap'') ]
          | _ ↦ (some np, heap')
        ]
      ]

  -- The new node goes to the head of its chain.
  pub link : Dictionary V → List ℕ → Node V → Dictionary V
  link dict s np =
      let i = hash dict s in
      record (set_bucket dict i (np ∷ bucket dict i)) { count = inc32 dict.count }

  -- The node that `alloc` returns: `fresh` is what the memory of its value holds.
  pub new_node : Dictionary V → ℕ → List ℕ → V → Node V
  new_node dict a s fresh = record {
    addr = a;
    key = key_store dict.key dict.keyspec s;
    value = fresh;
  }

  -- `fresh` is what the memory of a new node's value holds before anything is written there.
  pub dictionary_install_size : Dictionary V → List ℕ → V → Heap → Option ℕ × Dictionary V × Heap
  unfolding dict_lookup key_alloc link new_node
  dictionary_install_size dict s fresh heap = elim (dict_lookup dict s) [
    | some np ↦ (some np.addr, dict, heap)
    | none ↦
        let (p, heap') = key_alloc dict heap in
        elim p [
          | none ↦ (none, dict, heap')
          | some a ↦ (some a, link dict s (new_node dict a s fresh), heap')
        ]
  ]

  -- A write to a node's value through its address.
  pub write_chain : ℕ → (V → V) → List (Node V) → List (Node V)
  write_chain a f [] = []
  write_chain a f (np ∷ chain) =
      (if np.addr == a then record np { value = f np.value } else np) ∷ write_chain a f chain

  pub write_chains : ℕ → (V → V) → List (List (Node V)) → List (List (Node V))
  unfolding write_chain
  write_chains a f [] = []
  write_chains a f (chain ∷ rest) = write_chain a f chain ∷ write_chains a f rest

  pub write_value : Dictionary V → ℕ → (V → V) → Dictionary V
  unfolding write_chains
  write_value dict a f = record dict { hashtab = write_chains a f dict.hashtab }

  -- `*np`; `none` when no node of the dictionary stands at the address.
  pub deref : Dictionary V → ℕ → Option (Node V)
  deref dict a = chain_find (λ np. np.addr == a) (flatten dict.hashtab)

  -- `dictionary_replace`: installs the key if it is not there, and sets the value.
  pub dictionary_replace : Dictionary V → List ℕ → V → V → Heap → Option ℕ × Dictionary V × Heap
  dictionary_replace dict s value fresh heap =
      let (p, dict', heap') = dictionary_install_size dict s fresh heap in
      elim p [
        | none ↦ (none, dict', heap')
        | some a ↦ (some a, write_value dict' a (λ _. value), heap')
      ]

  -- `dictionary_lookup`: installs the key with the value if it is not there.
  pub dictionary_lookup : Dictionary V → List ℕ → V → V → Heap → Option ℕ × Dictionary V × Heap
  dictionary_lookup dict s value fresh heap = elim (dict_lookup dict s) [
    | some np ↦ (some np.addr, dict, heap)
    | none ↦
        let (p, heap') = key_alloc dict heap in
        elim p [
          | none ↦ (none, dict, heap')
          | some a ↦
              (some a, write_value (link dict s (new_node dict a s fresh)) a (λ _. value), heap')
        ]
  ]

  -- 1 when a node was removed
  pub dictionary_remove : Dictionary V → List ℕ → Bool × Dictionary V
  unfolding dict_remove
  dictionary_remove dict s =
      let (np, dict') = dict_remove dict s in
      elim np [ none ↦ (false, dict') | some _ ↦ (true, dict') ]

  -- The inner loop of `dictionary_remove_all`: the chain of bucket `i` is freed from its head.
  pub remove_chain : ℕ → List (Node V) → Dictionary V → Dictionary V
  remove_chain i [] dict = dict
  remove_chain i (np ∷ next) dict =
      remove_chain i next (record (set_bucket dict i next) { count = dec32 dict.count })

  -- The outer loop, with the buckets from `i` on left.
  pub remove_all_loop : ℕ → ℕ → Dictionary V → Dictionary V
  unfolding remove_chain
  remove_all_loop zero i dict = dict
  remove_all_loop (suc n) i dict = remove_all_loop n (i + 1) (remove_chain i (bucket dict i) dict)

  -- `dictionary_remove_all` with no callback, as every caller in the program has it
  pub dictionary_remove_all : Dictionary V → Dictionary V
  unfolding remove_all_loop
  dictionary_remove_all dict = remove_all_loop dict.hashsize 0 dict

  pub dictionary_get_key : Node V → List ℕ
  dictionary_get_key np = np.key

  pub dictionary_get_key_size : Dictionary V → Node V → ℕ
  unfolding dictionary_get_key c_string
  dictionary_get_key_size dict np =
      if key_words dict.keyspec == 0
      then length (c_string (dictionary_get_key np)) + 1
      else if dict.keyspec == 3
      then 2
      else key_words dict.keyspec * 4

  unfoldable pub dictionary_get_value : Node V → V
  dictionary_get_value np = np.value

  unfoldable pub dictionary_count : Dictionary V → ℕ
  dictionary_count dict = dict.count

  pub dictionary_hashtab_size : Dictionary V → ℕ
  dictionary_hashtab_size dict = dict.hashsize

  -- the loop counts the nodes of the chain
  pub dictionary_hashtab_cnt : Dictionary V → ℕ → ℕ
  dictionary_hashtab_cnt dict idx = length (bucket dict idx)
