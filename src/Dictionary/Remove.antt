-- ===== src/Dictionary/Remove.antt =====
-- `dictionary_remove` of src/common/dictionary.c.
use nvol.Base.{
  ℕ, ◌^◌, ◌≤◌, ◌<◌, ◌≡◌, ◌↔◌, refl, ◌∙◌, List, true, false, none, some, arith, ◌==◌, if◌then◌else◌,
  fun_ext, length-set, inl, inr, Bool-cases, Option-cases, ==_iff, ==_false,
}
use nvol.Base.Bytes.{dec32}
use nvol.Dictionary.{
  Node, Dictionary, hash, matches, bucket, set_bucket, chain_find, chain_unlink, dict_lookup,
  dict_remove, dictionary_remove,
}
use nvol.Dictionary.Chains.{
  occurs, occurs-unlink-le, length-unlink, chain_find-unlink_self, chain_find-unlink_ne,
}
use nvol.Dictionary.Keys.Laws.{key_hash-key_cmp}
use nvol.Dictionary.Table.{
  same, matches_congr, matches_via, IsValid, hash-lt, length-flatten-set, bucket-set_bucket,
  same-hash,
}

module _ {ℓ} {V : Type ℓ} (dict : Dictionary V) (v : IsValid dict) (s : List ℕ) where
  abbrev home_chain : List (Node V)
  home_chain = bucket dict (hash dict s)

  -- The table without the first node that matches `s`.
  abbrev unlinked : Dictionary V
  unlinked = record (set_bucket dict (hash dict s) (chain_unlink (matches dict s) home_chain)) {
    count = dec32 dict.count;
  }

  unlinked_chain :
      (i : ℕ)
      → bucket unlinked i
        ≡ (if hash dict s == i then chain_unlink (matches dict s) home_chain else bucket dict i)
  unlinked_chain i = bucket-set_bucket dict (hash dict s) i _ (hash-lt v s)

  home_find :
      (q : List ℕ)
      → chain_find (matches dict q) (chain_unlink (matches dict s) home_chain)
        ≡ (if same dict s q then none else chain_find (matches dict q) home_chain)
  home_find q = elim (Bool-cases (same dict s q)) [
    | inl e ↦
        let p : matches dict s ≡ matches dict q = fun_ext (matches_congr dict s q e) in
        rw (e, ← p) (chain_find-unlink_self (matches dict s) home_chain (v.once s (hash dict s)))
    | inr e ↦ rw e (
        chain_find-unlink_ne (matches dict s) (matches dict q) home_chain
          (λ np h. matches_via dict s q np h ∙ e))
  ]

  unlinked_lookup :
      (q : List ℕ) → dict_lookup unlinked q ≡ (if same dict s q then none else dict_lookup dict q)
  unfolding dict_lookup
  unlinked_lookup q = elim (Bool-cases (hash dict s == hash dict q)) [
    | inl e ↦
        let p : hash dict s ≡ hash dict q = (==_iff _ _).0 e in
        rw (unlinked_chain (hash dict q), e, home_find q) (rw p)
    | inr e ↦ rw (unlinked_chain (hash dict q), e, same-hash dict s q (==_false _ _ e))
  ]

  fewer :
      (q : List ℕ) (i : ℕ)
      → occurs (matches dict q) (bucket unlinked i) ≤ occurs (matches dict q) (bucket dict i)
  fewer q i = elim (Bool-cases (hash dict s == i)) [
    | inl e ↦
        let p : hash dict s ≡ i = (==_iff _ _).0 e in
        rw (unlinked_chain i, e, ← p)
          (occurs-unlink-le (matches dict s) (matches dict q) home_chain)
    | inr e ↦ rw (unlinked_chain i, e) (omega arith)
  ]

  unlinked-IsValid :
      (np : Node V) → dict_lookup dict s ≡ some np → dict.count < 2 ^ 32 → IsValid unlinked
  unfolding dict_lookup
  unlinked-IsValid np found small =
      let shorter = length-unlink (matches dict s) home_chain np found in
      let total =
        length-flatten-set dict.hashtab (hash dict s) (chain_unlink (matches dict s) home_chain)
          (hash-lt v s) in
      record {
        sized = length-set dict.hashtab _ _ ∙ v.sized;
        pos = v.pos;
        counted = omega (arith, v.counted);
        once = λ q i. omega (arith, fewer q i, v.once q i);
        home = λ q i ne. omega (arith, fewer q i, v.home q i ne);
      }

  remove_absent : dict_lookup dict s ≡ none → dictionary_remove dict s ≡ (false, dict)
  unfolding dictionary_remove dict_lookup
  remove_absent e =
      let e' : chain_find (matches dict s) home_chain ≡ none = e in
      rw (e', dictionary_remove) (rw (e', dict_remove))

  remove_found :
      (np : Node V) → dict_lookup dict s ≡ some np → dictionary_remove dict s ≡ (true, unlinked)
  unfolding dictionary_remove dict_lookup
  remove_found np e =
      let e' : chain_find (matches dict s) home_chain ≡ some np = e in
      rw (e', dictionary_remove) (rw (e', dict_remove))

  absent_lookup :
      dict_lookup dict s ≡ none
      → (q : List ℕ) → dict_lookup dict q ≡ (if same dict s q then none else dict_lookup dict q)
  unfolding dict_lookup
  absent_lookup e q = elim (Bool-cases (same dict s q)) [
    | inr other ↦ rw other
    | inl here ↦
        rw
          (
            here,
            ← fun_ext (matches_congr dict s q here),
            ← key_hash-key_cmp dict.key dict.keyspec dict.hashsize s q here,
          )
          e
  ]

  -- After `dictionary_remove` of a well-formed dictionary of fewer than 2 ^ 32 nodes the key is not found and every other key
  -- is found as before; the result is true exactly when the key was there, and the dictionary stays
  -- well formed.
  pub dictionary_remove_lem :
      dict.count < 2 ^ 32
      → (((dictionary_remove dict s).0 ≡ false) ↔ (dict_lookup dict s ≡ none))
        × ((q : List ℕ)
            → dict_lookup (dictionary_remove dict s).1 q
              ≡ (if same dict s q then none else dict_lookup dict q))
        × IsValid (dictionary_remove dict s).1
  dictionary_remove_lem small = elim (Option-cases (dict_lookup dict s)) [
    | inl e ↦ rw (remove_absent e) (((λ _. e), (λ _. refl)), absent_lookup e, v)
    | inr (np, e) ↦
        rw (remove_found np e)
          (((λ h. cc), (λ h. cc)), unlinked_lookup, unlinked-IsValid np e small)
  ]

  -- Removing leaves the kind of the keys alone, and adds nothing.
  pub remove_keeps :
      dict.count < 2 ^ 32
      → ((dictionary_remove dict s).1.key ≡ dict.key)
        × ((dictionary_remove dict s).1.keyspec ≡ dict.keyspec)
        × ((dictionary_remove dict s).1.count ≤ dict.count)
  unfolding dict_lookup
  remove_keeps small = elim (Option-cases (dict_lookup dict s)) [
    | inl e ↦ rw (remove_absent e) (refl, refl, omega arith)
    | inr (np, e) ↦
        let shorter = length-unlink (matches dict s) home_chain np e in
        let total =
          length-flatten-set dict.hashtab (hash dict s) (chain_unlink (matches dict s) home_chain)
            (hash-lt v s) in
        rw (remove_found np e) (refl, refl, omega (arith, v.counted))
  ]
