-- ===== src/Dictionary/Install.antt =====
-- `dictionary_install_size` of src/common/dictionary.c, and writes to a value through a node's address.
use mathlib.Core.Option
use nvol.Base.{
  ℕ, zero, suc, ◌+◌, ◌^◌, ◌<◌, ◌≡◌, refl, sym, ◌∙◌, List, [], ◌∷◌, false, Option, none, some, ◌==◌,
  if◌then◌else◌, length, get_or, flatten, ap, inl, inr, Bool-cases, Option-cases, length-append,
}
use nvol.Base.Heap.{Heap}
use nvol.Dictionary.{
  Node, Dictionary, hash, matches, bucket, chain_find, dict_lookup, link, new_node, key_alloc,
  dictionary_install_size, write_chain, write_chains, write_value,
}
use nvol.Dictionary.Chains.{occurs}
use nvol.Dictionary.Keys.Laws.{IsKey, key_cmp-key_store, key_cmp_refl}
use nvol.Dictionary.Table.{same, IsValid, dict_lookup-link, link-IsValid}

module _ {ℓ} {V : Type ℓ} where
  -- A write at the address `a` as one node sees it.
  abbrev pub touched : ℕ → (V → V) → Node V → Node V
  touched a f np = if np.addr == a then record np { value = f np.value } else np

  write_bucket :
      (a : ℕ) (f : V → V) (bs : List (List (Node V))) (i : ℕ)
      → get_or (write_chains a f bs) i [] ≡ write_chain a f (get_or bs i [])
  unfolding write_chains write_chain
  write_bucket a f [] i = refl
  write_bucket a f (b ∷ bs) zero = refl
  write_bucket a f (b ∷ bs) (suc i) = write_bucket a f bs i

  touched-matches :
      (dict : Dictionary V) (a : ℕ) (f : V → V) (q : List ℕ) (np : Node V)
      → matches dict q (touched a f np) ≡ matches dict q np
  touched-matches dict a f q np = elim (Bool-cases (np.addr == a)) [ inl e ↦ rw e | inr e ↦ rw e ]

  write_find :
      (dict : Dictionary V) (a : ℕ) (f : V → V) (q : List ℕ) (c : List (Node V))
      → (chain_find (matches dict q) (write_chain a f c)
          ≡ Option.map (touched a f) (chain_find (matches dict q) c))
        × (occurs (matches dict q) (write_chain a f c) ≡ occurs (matches dict q) c)
  unfolding chain_find write_chain
  write_find dict a f q [] = (refl, refl)
  write_find dict a f q (np ∷ c) =
      let (found, counted) = write_find dict a f q c in
      elim (Bool-cases (matches dict q np)) [
        | inl e ↦
            (rw (touched-matches dict a f q np, e), rw (touched-matches dict a f q np, counted))
        | inr e ↦ (
          rw (touched-matches dict a f q np, e) found,
          rw (touched-matches dict a f q np, counted),
        )
      ]

  write_length : (a : ℕ) (f : V → V) (c : List (Node V)) → length (write_chain a f c) ≡ length c
  unfolding write_chain
  write_length a f [] = refl
  write_length a f (np ∷ c) = ap suc (write_length a f c)

  write_total :
      (a : ℕ) (f : V → V) (bs : List (List (Node V)))
      → (length (write_chains a f bs) ≡ length bs)
        × (length (flatten (write_chains a f bs)) ≡ length (flatten bs))
  unfolding write_chains flatten
  write_total a f [] = (refl, refl)
  write_total a f (b ∷ bs) =
      let (width, total) = write_total a f bs in
      (ap suc width, simp (length-append, total, write_length a f b))

  -- A write through an address changes the value of the node that stands there and nothing else.
  pub dict_lookup-write_value :
      (dict : Dictionary V) (a : ℕ) (f : V → V) (q : List ℕ)
      → dict_lookup (write_value dict a f) q ≡ Option.map (touched a f) (dict_lookup dict q)
  unfolding dict_lookup write_value
  dict_lookup-write_value dict a f q =
      rw (write_bucket a f dict.hashtab (hash dict q))
        (write_find dict a f q (bucket dict (hash dict q))).0

  pub write_value-IsValid :
      (dict : Dictionary V) (a : ℕ) (f : V → V) → IsValid dict → IsValid (write_value dict a f)
  unfolding write_value
  write_value-IsValid dict a f v =
      let (width, total) = write_total a f dict.hashtab in
      record {
        sized = width ∙ v.sized;
        pos = v.pos;
        counted = v.counted ∙ sym total;
        once = λ q i.
            rw (write_bucket a f dict.hashtab i, (write_find dict a f q (bucket dict i)).1)
              (v.once q i);
        home = λ q i ne.
            rw (write_bucket a f dict.hashtab i, (write_find dict a f q (bucket dict i)).1)
              (v.home q i ne);
      }

  module _ (dict : Dictionary V) (s : List ℕ) (fresh : V) (heap : Heap) where
    pub install_found :
        (np : Node V)
        → dict_lookup dict s ≡ some np
        → dictionary_install_size dict s fresh heap ≡ (some np.addr, dict, heap)
    unfolding dictionary_install_size
    install_found np e = rw (e, dictionary_install_size)

    pub install_full :
        dict_lookup dict s ≡ none
        → (heap' : Heap) → key_alloc dict heap ≡ (none, heap')
        → dictionary_install_size dict s fresh heap ≡ (none, dict, heap')
    unfolding dictionary_install_size
    install_full e heap' full = rw (e, dictionary_install_size, full) (rw full)

    pub install_new :
        dict_lookup dict s ≡ none
        → (a : ℕ) (heap' : Heap) → key_alloc dict heap ≡ (some a, heap')
        → dictionary_install_size dict s fresh heap
          ≡ (some a, link dict s (new_node dict a s fresh), heap')
    unfolding dictionary_install_size
    install_new e a heap' got = rw (e, dictionary_install_size, got) (rw got)

  pub new_node-matches :
      (dict : Dictionary V) (a : ℕ) (s : List ℕ) (fresh : V) (q : List ℕ)
      → IsKey s
      → matches dict q (new_node dict a s fresh) ≡ same dict s q
  unfolding new_node
  new_node-matches dict a s fresh q h = key_cmp-key_store dict.key dict.keyspec s q h

  -- What `dictionary_install_size` promises: `r` is what it returned for the key `s`.
  pub record Installs (dict : Dictionary V) (s : List ℕ) (r : Option ℕ × Dictionary V × Heap)
      : Type ℓ where
    pub valid : IsValid r.1
    pub full : r.0 ≡ none → r.1 ≡ dict
    pub there :
        (a : ℕ) → r.0 ≡ some a → (np : Node V) × (dict_lookup r.1 s ≡ some np) × (np.addr ≡ a)
    pub others : (q : List ℕ) → same dict s q ≡ false → dict_lookup r.1 q ≡ dict_lookup dict q

  -- On a well-formed dictionary whose counter has room, `dictionary_install_size` gives a well-formed
  -- dictionary; a null result means that the dictionary is unchanged, any other is the address of
  -- the node that a lookup of the key finds; and no other key is affected.
  pub dictionary_install_size_lem :
      (dict : Dictionary V) (s : List ℕ) (fresh : V) (heap : Heap)
      → IsValid dict
      → IsKey s
      → dict.count + 1 < 2 ^ 32
      → Installs dict s (dictionary_install_size dict s fresh heap)
  dictionary_install_size_lem dict s fresh heap v key room =
      elim (Option-cases (dict_lookup dict s)) [
        | inr (np, e) ↦
            rw (install_found dict s fresh heap np e) (record {
              valid = v;
              full = λ h. cc;
              there = λ a h. (np, e, cc);
              others = λ q h. refl;
            })
        | inl e ↦ elim (Option-cases (key_alloc dict heap).0) [
          | inl h ↦
              rw (install_full dict s fresh heap e _ (λ i. (h i, (key_alloc dict heap).1)))
                (record { valid = v; full = λ h. refl; there = λ a h. cc; others = λ q h. refl })
          | inr (a, h) ↦
              let stored = λ (q : List ℕ). new_node-matches dict a s fresh q key in
              let seen = dict_lookup-link dict v s (new_node dict a s fresh) stored in
              rw (install_new dict s fresh heap e a _ (λ i. (h i, (key_alloc dict heap).1)))
                (record {
                  valid = link-IsValid dict v s (new_node dict a s fresh) stored e room;
                  full = λ h. cc;
                  there = λ a' h. (
                    new_node dict a s fresh,
                    seen s ∙ rw (key_cmp_refl dict.key dict.keyspec s),
                    unfold new_node in (cc),
                  );
                  others = λ q h. seen q ∙ rw h;
                })
        ]
      ]
