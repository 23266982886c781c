-- ===== src/Dictionary/Fresh.antt =====
-- `dictionary_install_size` (src/common/dictionary.c) of an absent key while no allocation fails, and
-- the addresses of the nodes.
use nvol.Base.{
  ℕ, suc, ◌+◌, ◌^◌, ◌≤◌, ◌<◌, ◌≡◌, refl, sym, ◌∙◌, List, [], none, some, arith, if◌then◌else◌, ap,
  inl, inr, Bool-cases, Option-cases, ==_refl, ==_ne,
}
use nvol.Base.Heap.{Heap, heap_malloc-ok, Allocated}
use nvol.Dictionary.{
  Node, Dictionary, dict_lookup, link, new_node, key_alloc, dictionary_remove,
  dictionary_install_size, write_value,
}
use nvol.Dictionary.Keys.{
  key_store, key_cmp, KeyType, str_key, const_str_key, ushort_key, binary_key,
}
use nvol.Dictionary.Keys.Laws.{IsKey, key_cmp_refl}
use nvol.Dictionary.Install.{
  new_node-matches, install_new, dict_lookup-write_value, write_value-IsValid,
}
use nvol.Dictionary.Remove.{dictionary_remove_lem, remove_keeps}
use nvol.Dictionary.Table.{same, IsValid, dict_lookup-link, link-IsValid}

module _ {ℓ} {V : Type ℓ} where
  key_alloc-ok :
      (dict : Dictionary V) (heap : Heap)
      → heap.answers ≡ []
      → (ty : KeyType) → dict.key ≡ ty
      → (heap' : Heap) × (key_alloc dict heap ≡ (some heap.next, heap')) × Allocated heap heap'
  unfolding key_alloc
  key_alloc-ok dict heap ok str_key k =
      let next : Heap = record { next = suc heap.next; answers = []; fill = heap.fill } in
      (
        record next { next = suc (suc heap.next) },
        simp (key_alloc, k, heap_malloc-ok heap ok, heap_malloc-ok next refl),
        (refl, omega arith),
      )
  key_alloc-ok dict heap ok const_str_key k = (
    record { next = suc heap.next; answers = []; fill = heap.fill },
    simp (key_alloc, k, heap_malloc-ok heap ok),
    (refl, omega arith),
  )
  key_alloc-ok dict heap ok ushort_key k = (
    record { next = suc heap.next; answers = []; fill = heap.fill },
    simp (key_alloc, k, heap_malloc-ok heap ok),
    (refl, omega arith),
  )
  key_alloc-ok dict heap ok binary_key k = (
    record { next = suc heap.next; answers = []; fill = heap.fill },
    simp (key_alloc, k, heap_malloc-ok heap ok),
    (refl, omega arith),
  )

  -- While no allocation fails, a key that is absent gets a node at the next address, at the head of
  -- its chain.
  pub install_succeeds :
      (dict : Dictionary V) (s : List ℕ) (fresh : V) (heap : Heap)
      → dict_lookup dict s ≡ none
      → heap.answers ≡ []
      → (heap' : Heap) × (dictionary_install_size dict s fresh heap
          ≡ (some heap.next, link dict s (new_node dict heap.next s fresh), heap'))
        × Allocated heap heap'
  install_succeeds dict s fresh heap e ok =
      let (heap', got, rest) = key_alloc-ok dict heap ok dict.key refl in
      (heap', install_new dict s fresh heap e heap.next heap' got, rest)

  -- Every node that a lookup finds stands below the next address.
  abbrev pub IsBelow : Dictionary V → ℕ → Type ℓ
  IsBelow dict limit = (q : List ℕ) (np : Node V) → dict_lookup dict q ≡ some np → np.addr < limit

  -- A key is installed anew and its value written: what lookups find then.
  pub dict_lookup-install_write :
      (dict : Dictionary V) (s : List ℕ) (fresh : V) (limit : ℕ) (f : V → V)
      → IsValid dict
      → IsKey s
      → IsBelow dict limit
      → (q : List ℕ)
      → dict_lookup (write_value (link dict s (new_node dict limit s fresh)) limit f) q
        ≡ (if same dict s q then some (new_node dict limit s (f fresh)) else dict_lookup dict q)
  unfolding new_node
  dict_lookup-install_write dict s fresh limit f v key below q =
      let stored = λ (r : List ℕ). new_node-matches dict limit s fresh r key in
      dict_lookup-write_value (link dict s (new_node dict limit s fresh)) limit f q
      ∙ rw (dict_lookup-link dict v s (new_node dict limit s fresh) stored q)
          (elim (Bool-cases (same dict s q)) [
            | inl e ↦ rw (e, ==_refl)
            | inr e ↦ rw e (elim (Option-cases (dict_lookup dict q)) [
              | inl h ↦ rw h
              | inr (np, h) ↦ rw (h, ==_ne np.addr limit (omega (arith, below q np h)))
            ])
          ])

  -- The node that was made for the key.
  abbrev pub made : Dictionary V → List ℕ → ℕ → V → Node V
  made dict s a value = record { addr = a; key = key_store dict.key dict.keyspec s; value = value }

  -- Lookups that see less.
  shrink :
      (dict : Dictionary V) (s : List ℕ) (limit : ℕ) (dict1 : Dictionary V)
      → ((q : List ℕ) → dict_lookup dict1 q ≡ (if same dict s q then none else dict_lookup dict q))
      → IsBelow dict limit
      → IsBelow dict1 limit
  shrink dict s limit dict1 seen below q np h = elim (Bool-cases (same dict s q)) [
    | inl e ↦ let r : dict_lookup dict1 q ≡ none = seen q ∙ rw e in absurd (cc)
    | inr e ↦
        let r : dict_lookup dict1 q ≡ dict_lookup dict q = seen q ∙ rw e in below q np (sym r ∙ h)
  ]

  -- Lookups that see one node more, which stands below the new limit.
  grow :
      (dict : Dictionary V) (s : List ℕ) (limit limit' : ℕ) (np' : Node V) (dict2 : Dictionary V)
      → ((q : List ℕ)
          → dict_lookup dict2 q ≡ (if same dict s q then some np' else dict_lookup dict q))
      → IsBelow dict limit
      → limit < limit'
      → np'.addr ≡ limit
      → IsBelow dict2 limit'
  grow dict s limit limit' np' dict2 seen below less here q np h =
      elim (Bool-cases (same dict s q)) [
        | inl e ↦
            let r : dict_lookup dict2 q ≡ some np' = seen q ∙ rw e in
            let e' : np'.addr ≡ np.addr = cc in omega arith
        | inr e ↦
            let r : dict_lookup dict2 q ≡ dict_lookup dict q = seen q ∙ rw e in
            let old = below q np (sym r ∙ h) in omega arith
      ]

  -- The lookups of the table that the key was removed from, seen from the table before.
  merge :
      (dict : Dictionary V) (s : List ℕ) (dict1 : Dictionary V)
      → dict1.key ≡ dict.key
      → dict1.keyspec ≡ dict.keyspec
      → ((q : List ℕ) → dict_lookup dict1 q ≡ (if same dict s q then none else dict_lookup dict q))
      → (q : List ℕ) (a : ℕ) (x : V)
      → (if same dict1 s q then some (new_node dict1 a s x) else dict_lookup dict1 q)
        ≡ (if same dict s q then some (made dict s a x) else dict_lookup dict q)
  unfolding new_node
  merge dict s dict1 k1 k2 seen q a x =
      let sames : same dict1 s q ≡ same dict s q = λ i. key_cmp (k1 i) (k2 i) s q in
      let nodes : new_node dict1 a s x ≡ made dict s a x =
        λ i. record { addr = a; key = key_store (k1 i) (k2 i) s; value = x } in
      elim (Bool-cases (same dict s q)) [
        | inl e ↦ rw (sames, e) (ap some nodes)
        | inr e ↦ rw (sames, e) (seen q ∙ rw e)
      ]

  -- A key is removed, installed again, and the value of its node written, while no allocation fails
  -- and every node stands below the next address: the new node has that address, the key is found
  -- with the value written, and every other key is found as before.
  pub reinstall_lem :
      (dict : Dictionary V) (s : List ℕ) (fresh : V) (heap : Heap) (f : V → V)
      → IsValid dict
      → IsKey s
      → dict.count + 1 < 2 ^ 32
      → IsBelow dict heap.next
      → heap.answers ≡ []
      → (dict' : Dictionary V) × (heap' : Heap) × (dictionary_install_size
            (dictionary_remove dict s).1
            s
            fresh
            heap
          ≡ (some heap.next, dict', heap'))
        × Allocated heap heap'
        × IsValid (write_value dict' heap.next f)
        × ((q : List ℕ)
            → dict_lookup (write_value dict' heap.next f) q ≡ (
                if same dict s q
                then some (made dict s heap.next (f fresh))
                else dict_lookup dict q))
        × IsBelow (write_value dict' heap.next f) heap'.next
        × ((write_value dict' heap.next f).count ≤ dict.count + 1)
  unfolding new_node link write_value
  reinstall_lem dict s fresh heap f v key room below ok =
      let dict1 = (dictionary_remove dict s).1 in
      let (_, seen, v1) = dictionary_remove_lem dict v s (omega arith) in
      let (k1, k2, fewer) = remove_keeps dict v s (omega arith) in
      let sames : (q : List ℕ) → same dict1 s q ≡ same dict s q = λ q. rw (k1, k2) in
      let absent : dict_lookup dict1 s ≡ none =
        seen s ∙ rw (key_cmp_refl dict.key dict.keyspec s) in
      let below1 : IsBelow dict1 heap.next =
        λ q np h. shrink dict s heap.next dict1 seen below q np h in
      let stored = λ (q : List ℕ). new_node-matches dict1 heap.next s fresh q key in
      let (heap', run, got) = install_succeeds dict1 s fresh heap absent ok in
      let look : (q : List ℕ)
          → dict_lookup (write_value (link dict1 s (new_node dict1 heap.next s fresh)) heap.next f)
              q
            ≡ (if same dict s q
                then some (made dict s heap.next (f fresh))
                else dict_lookup dict q) =
        λ q.
          dict_lookup-install_write dict1 s fresh heap.next f v1 key below1 q
          ∙ merge dict s dict1 k1 k2 seen q heap.next (f fresh) in
      (
        link dict1 s (new_node dict1 heap.next s fresh),
        heap',
        run,
        got,
        write_value-IsValid _ heap.next f (
            link-IsValid dict1 v1 s (new_node dict1 heap.next s fresh) stored absent (omega arith)),
        look,
        grow dict s heap.next heap'.next (made dict s heap.next (f fresh)) _ look below got.1 refl,
        omega (arith, fewer),
      )
