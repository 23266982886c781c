-- ===== src/Dictionary/Iterator.antt =====
-- The iterators of src/common/dictionary.c. `none` as a result stands for undefined behaviour: a
-- node is read through a null pointer or through the address of a node that was freed.
use Prim.Native.Nat.{Ordering}
use nvol.Base.{
  ℕ, zero, suc, ◌+◌, ◌-◌, ◌^◌, List, [], ◌∷◌, Bool, true, false, Option, none, some, ◌==◌,
  if◌then◌else◌, length, flatten, not,
}
use nvol.Base.Bytes.{inc32, dec32}
use nvol.Dictionary.{Node, Dictionary, hash, matches, bucket, set_bucket, deref, dict_lookup, link}

-- `DLIST_COMPARE_T`, by the sign of its result
abbrev pub Compare {ℓ} : Type ℓ → Type ℓ
Compare V = Node V → Node V → Ordering

-- `struct dictionary_it`; null pointers are `none`, and -1 as an index is 2 ^ 32 - 1.
pub record It {ℓ} (V : Type ℓ) : Type ℓ where
  pub np : Option ℕ
  pub prev : Option ℕ
  pub idx : ℕ
  pub cmp : Option (Compare V)

abbrev pub minus_one : ℕ
minus_one = 2 ^ 32 - 1

abbrev pub positive : Ordering → Bool
positive o = elim o [ Ordering.gt ↦ true | _ ↦ false ]

abbrev pub nonnegative : Ordering → Bool
nonnegative o = elim o [ Ordering.lt ↦ false | _ ↦ true ]

module _ {ℓ} {V : Type ℓ} where
  -- The part of a chain behind the node at an address.
  pub rest_after : ℕ → List (Node V) → Option (List (Node V))
  rest_after a [] = none
  rest_after a (np ∷ chain) = if np.addr == a then some chain else rest_after a chain

  -- `np->next` with all that follows it, for the node at the address
  pub node_rest : ℕ → List (List (Node V)) → Option (List (Node V))
  unfolding rest_after
  node_rest a [] = none
  node_rest a (chain ∷ rest) = elim (rest_after a chain) [
    | none ↦ node_rest a rest
    | some r ↦ some r
  ]

  -- The loop of `_it_next` over the buckets from `i` on.
  pub scan : ℕ → ℕ → Dictionary V → It V → Option (Node V) × It V
  scan zero i dict it = (none, record it { np = none })
  scan (suc n) i dict it = elim (bucket dict i) [
    | [] ↦ scan n (i + 1) dict it
    | np ∷ _ ↦ (some np, record it { np = some np.addr; idx = i })
  ]

  pub next_bucket : Dictionary V → It V → Option (Node V) × It V
  unfolding scan
  next_bucket dict it =
      let i = inc32 it.idx in scan (dict.hashsize - i) i dict (record it { prev = none })

  step_in : Dictionary V → It V → ℕ → List (Node V) → Option (Node V) × It V
  step_in dict it a [] = next_bucket dict it
  step_in dict it a (nx ∷ _) = (some nx, record it { prev = some a; np = some nx.addr })

  -- `_it_next`
  pub it_next : Dictionary V → It V → Option (Option (Node V) × It V)
  unfolding next_bucket node_rest step_in
  it_next dict it = elim it.np [
    | none ↦ some (next_bucket dict it)
    | some a ↦ elim (node_rest a dict.hashtab) [
      | none ↦ none
      | some rest ↦ some (step_in dict it a rest)
    ]
  ]

  -- Enough rounds for a walk over all the nodes.
  abbrev pub walk_fuel : Dictionary V → ℕ
  walk_fuel dict = length (flatten dict.hashtab) + 1

  -- The loop of `dictionary_it_first`: the least node so far and its bucket.
  pub first_loop : ℕ → Dictionary V → Compare V → Node V → ℕ → It V → Option (Node V × ℕ × It V)
  first_loop zero dict cmp least idx it = none
  first_loop (suc f) dict cmp least idx it = elim (it_next dict it) [
    | none ↦ none
    | some (np, it') ↦ elim np [
      | none ↦ some (least, idx, it')
      | some n ↦ elim (positive (cmp least n)) [
        | true ↦ first_loop f dict cmp n it'.idx it'
        | false ↦ first_loop f dict cmp least idx it'
      ]
    ]
  ]

  -- `dictionary_it_first`; `junk` is the value of the local variable `idx`, which the code does not
  -- initialise.
  pub dictionary_it_first : Dictionary V → Option (Compare V) → ℕ → Option (Option (Node V) × It V)
  unfolding it_next first_loop
  dictionary_it_first dict cmp junk =
      let start : It V = record { np = none; prev = none; idx = minus_one; cmp = cmp } in
      elim (it_next dict start) [
        | none ↦ none
        | some (np, it) ↦ elim cmp [
          | none ↦ some (np, it)
          | some c ↦ elim np [
            | none ↦ some (none, it)
            | some n ↦ elim (first_loop (walk_fuel dict) dict c n junk it) [
              | none ↦ none
              | some (least, idx, it') ↦
                  some (some least, record it' { np = some least.addr; idx = idx })
            ]
          ]
        ]
      ]

  -- One round of the loop of `dictionary_it_next`: the current node's address, the node that the
  -- walk is at, and the best node so far with its bucket.
  pub next_round :
      Dictionary V
      → Compare V
      → Option ℕ
      → Node V
      → ℕ
      → Option (Node V) × ℕ
      → Option (Option (Node V) × ℕ)
  next_round dict cmp none n at (best, idx) = none
  next_round dict cmp (some cur) n at (best, idx) =
      if cur == n.addr then some (best, idx) else elim (deref dict cur) [
        | none ↦ none
        | some c ↦ if nonnegative (cmp c n) then some (best, idx) else elim best [
          | none ↦ some (some n, at)
          | some b ↦ if positive (cmp b n) then some (some n, at) else some (some b, idx)
        ]
      ]

  pub next_loop :
      ℕ
      → Dictionary V
      → Compare V
      → Option ℕ
      → Option (Node V) × ℕ
      → It V
      → Option (Option (Node V) × ℕ)
  unfolding next_round
  next_loop zero dict cmp cur best it = none
  next_loop (suc f) dict cmp cur best it = elim (it_next dict it) [
    | none ↦ none
    | some (np, it') ↦ elim np [
      | none ↦ some best
      | some n ↦ elim (next_round dict cmp cur n it'.idx best) [
        | none ↦ none
        | some best' ↦ next_loop f dict cmp cur best' it'
      ]
    ]
  ]

  -- `dictionary_it_next`
  pub dictionary_it_next : Dictionary V → It V → Option (Option (Node V) × It V)
  unfolding it_next next_loop
  dictionary_it_next dict it = elim it.cmp [
    | none ↦ it_next dict it
    | some c ↦
        let start : It V = record { np = none; prev = none; idx = minus_one; cmp = none } in
        elim (next_loop (walk_fuel dict) dict c it.np (none, minus_one) start) [
          | none ↦ none
          | some (best, idx) ↦ elim best [
            | none ↦ some (none, record it { np = none; idx = idx })
            | some b ↦ some (some b, record it { np = some b.addr; idx = idx })
          ]
        ]
  ]

  -- The loop of `dictionary_it_at` over the rest of a chain.
  pub at_loop : (Node V → Bool) → Option ℕ → List (Node V) → Option (Node V) × Option ℕ
  at_loop p prev [] = (none, prev)
  at_loop p prev (np ∷ chain) = if p np then (some np, prev) else at_loop p (some np.addr) chain

  -- `dictionary_it_at`; the comparison function of the iterator stays as it was.
  pub dictionary_it_at : Dictionary V → List ℕ → It V → Option (Node V) × It V
  unfolding at_loop
  dictionary_it_at dict s it =
      let i = hash dict s in
      let (np, prev) = at_loop (matches dict s) none (bucket dict i) in
      elim np [
        | none ↦ (none, record it { np = none; prev = prev; idx = minus_one })
        | some n ↦ (some n, record it { np = some n.addr; prev = prev; idx = i })
      ]

  -- `dictionary_it_get`
  pub dictionary_it_get : It V → Option ℕ
  dictionary_it_get it = it.np

  -- `prev->next = rest`
  pub relink_chain : ℕ → List (Node V) → List (Node V) → List (Node V)
  relink_chain prev rest [] = []
  relink_chain prev rest (np ∷ chain) =
      if np.addr == prev then np ∷ rest else np ∷ relink_chain prev rest chain

  pub relink : ℕ → List (Node V) → List (List (Node V)) → List (List (Node V))
  unfolding relink_chain
  relink prev rest [] = []
  relink prev rest (chain ∷ chains) = relink_chain prev rest chain ∷ relink prev rest chains

  -- The unlinking that `dictionary_it_remove` and `dictionary_it_move` share: `rest` is `np->next`.
  pub unlink : Dictionary V → Option ℕ → ℕ → List (Node V) → Dictionary V
  unfolding relink
  unlink dict none idx rest = record (set_bucket dict idx rest) { count = dec32 dict.count }
  unlink dict (some prev) idx rest = record dict {
    hashtab = relink prev rest dict.hashtab;
    count = dec32 dict.count;
  }

  -- `dictionary_it_remove`; the iterator keeps its pointers.
  pub dictionary_it_remove : Dictionary V → It V → Option (Dictionary V)
  unfolding unlink
  dictionary_it_remove dict it = elim it.np [
    | none ↦ some dict
    | some a ↦ elim (node_rest a dict.hashtab) [
      | none ↦ none
      | some rest ↦ some (unlink dict it.prev it.idx rest)
    ]
  ]

  -- The part of `dictionary_it_move` behind its two early returns.
  pub move_node :
      Dictionary V → Option ℕ → ℕ → ℕ → Dictionary V → Option (Dictionary V × Dictionary V)
  move_node dict prev idx a dest = elim (deref dict a) [
    | none ↦ none
    | some np ↦ elim (node_rest a dict.hashtab) [
      | none ↦ none
      | some rest ↦ some (unlink dict prev idx rest, link dest np.key np)
    ]
  ]

  -- `dictionary_it_move`: the iterator is advanced first, then its old node goes to `dest`, unless
  -- the key types differ or `dest` has the key.
  pub dictionary_it_move :
      Dictionary V
      → It V
      → Dictionary V
      → Option (Option (Node V) × It V × Dictionary V × Dictionary V)
  unfolding dictionary_it_next move_node
  dictionary_it_move dict it dest = elim (dictionary_it_next dict it) [
    | none ↦ none
    | some (res, it') ↦ elim it.np [
      | none ↦ some (res, it', dict, dest)
      | some a ↦
          if not (dict.keyspec == dest.keyspec)
          then some (res, it', dict, dest)
          else elim (deref dict a) [
            | none ↦ none
            | some np ↦ elim (dict_lookup dest np.key) [
              | some _ ↦ some (res, it', dict, dest)
              | none ↦ elim (move_node dict it.prev it.idx a dest) [
                | none ↦ none
                | some (dict', dest') ↦ some (res, record it' { prev = it.prev }, dict', dest')
              ]
            ]
          ]
    ]
  ]
