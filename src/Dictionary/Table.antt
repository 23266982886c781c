-- ===== src/Dictionary/Table.antt =====
-- The table: where nodes stand, what a lookup sees, and how linking and unlinking change it.
use nvol.Base.{
  ℕ, zero, suc, ◌+◌, ◌^◌, ◌≤◌, ◌<◌, ◌≡◌, ◌≢◌, sym, ◌∙◌, ◌&&◌, List, [], ◌∷◌, Bool, true, false,
  none, some, arith, ◌==◌, if◌then◌else◌, length, get_or, set, flatten, fun_ext, ap, length-append,
  length-set, get_or-set_self, get_or-set_ne, inl, inr, Bool-cases, ==_iff, ==_false,
}
use nvol.Dictionary.{
  Node, Dictionary, hash, matches, bucket, set_bucket, chain_find, dict_lookup, link,
}
use nvol.Dictionary.Chains.{occurs, occurs-eq-zero, chain_find_passes}
use nvol.Dictionary.Keys.{KeyType, key_cmp}
use nvol.Dictionary.Keys.Laws.{key_cmp_refl, key_cmp_congr, key_hash-key_cmp, key_hash-lt}

-- The comparison does not depend on the side that a key stands on.
pub key_cmp_symm :
    (ty : KeyType) (keyspec : ℕ) (p s : List ℕ) → key_cmp ty keyspec p s ≡ key_cmp ty keyspec s p
key_cmp_symm ty keyspec p s = ground (
  arith,
  key_cmp_congr ty keyspec p s p,
  key_cmp_congr ty keyspec s p s,
  key_cmp_refl ty keyspec p,
  key_cmp_refl ty keyspec s,
)

module _ {ℓ} {V : Type ℓ} where
  -- `s` and `q` are the same key of the dictionary.
  abbrev pub same : Dictionary V → List ℕ → List ℕ → Bool
  same dict s q = key_cmp dict.key dict.keyspec s q

  pub matches_congr :
      (dict : Dictionary V) (s q : List ℕ)
      → same dict s q ≡ true
      → (np : Node V) → matches dict s np ≡ matches dict q np
  matches_congr dict s q h np =
      key_cmp_symm dict.key dict.keyspec np.key s
      ∙ key_cmp_congr dict.key dict.keyspec s q np.key h
      ∙ key_cmp_symm dict.key dict.keyspec q np.key

  -- A node that matches `s` matches `q` as `s` does.
  pub matches_via :
      (dict : Dictionary V) (s q : List ℕ) (np : Node V)
      → matches dict s np ≡ true
      → matches dict q np ≡ same dict s q
  matches_via dict s q np h = key_cmp_congr dict.key dict.keyspec np.key s q h

  -- One key is found like the other.
  pub dict_lookup_congr :
      (dict : Dictionary V) (s q : List ℕ)
      → same dict s q ≡ true
      → dict_lookup dict s ≡ dict_lookup dict q
  unfolding dict_lookup
  dict_lookup_congr dict s q h = rw (
    fun_ext (matches_congr dict s q h),
    key_hash-key_cmp dict.key dict.keyspec dict.hashsize s q h,
  )

  -- A node that two keys find is found by keys that match.
  pub found_same :
      (dict : Dictionary V) (s q : List ℕ) (np : Node V)
      → dict_lookup dict s ≡ some np
      → dict_lookup dict q ≡ some np
      → same dict s q ≡ true
  unfolding dict_lookup
  found_same dict s q np h k =
      let mine = chain_find_passes (matches dict s) (bucket dict (hash dict s)) np h in
      let other = chain_find_passes (matches dict q) (bucket dict (hash dict q)) np k in
      sym (key_cmp_congr dict.key dict.keyspec np.key s q mine) ∙ other

  -- A table of the right size, in which every key occurs once at most, in its own bucket, and the
  -- count is that of the nodes.
  pub record IsValid (dict : Dictionary V) : Type ℓ where
    pub sized : length dict.hashtab ≡ dict.hashsize
    pub pos : 0 < dict.hashsize
    pub counted : dict.count ≡ length (flatten dict.hashtab)
    pub once : (q : List ℕ) (i : ℕ) → occurs (matches dict q) (bucket dict i) ≤ 1
    pub home : (q : List ℕ) (i : ℕ) → hash dict q ≢ i → occurs (matches dict q) (bucket dict i) ≡ 0

  pub hash-lt :
      {dict : Dictionary V} → IsValid dict → (s : List ℕ) → hash dict s < length dict.hashtab
  hash-lt {dict} v s =
      let h = key_hash-lt dict.key dict.keyspec dict.hashsize s v.pos in rw v.sized h

  -- Replacing one bucket changes the total by what the bucket changes.
  pub length-flatten-set :
      (bs : List (List (Node V))) (i : ℕ) (c : List (Node V))
      → i < length bs
      → length (flatten (set bs i c)) + length (get_or bs i []) ≡ length (flatten bs) + length c
  unfolding flatten
  length-flatten-set [] i c h = absurd (omega arith)
  length-flatten-set (b ∷ bs) zero c h = simp length-append (omega arith)
  length-flatten-set (b ∷ bs) (suc i) c h =
      simp length-append (omega (arith, length-flatten-set bs i c (omega arith)))

  -- The bucket `j` after the bucket `i` was written.
  pub bucket-set_bucket :
      (dict : Dictionary V) (i j : ℕ) (c : List (Node V))
      → i < length dict.hashtab
      → bucket (set_bucket dict i c) j ≡ (if i == j then c else bucket dict j)
  bucket-set_bucket dict i j c h = elim (Bool-cases (i == j)) [
    | inl e ↦
        let p : i ≡ j = (==_iff i j).0 e in rw (e, ← p) (get_or-set_self dict.hashtab i c [] h)
    | inr e ↦ rw e (get_or-set_ne dict.hashtab i j c [] (ground arith))
  ]

  -- Keys that differ in their buckets differ.
  pub same-hash :
      (dict : Dictionary V) (s q : List ℕ) → hash dict s ≢ hash dict q → same dict s q ≡ false
  same-hash dict s q ne = elim (Bool-cases (same dict s q)) [
    | inl e ↦ absurd (ne (key_hash-key_cmp dict.key dict.keyspec dict.hashsize s q e))
    | inr e ↦ e
  ]

  -- A key that is not found stands nowhere.
  occurs-absent :
      {dict : Dictionary V} (v : IsValid dict) (s q : List ℕ) (i : ℕ)
      → dict_lookup dict s ≡ none
      → same dict s q ≡ true
      → occurs (matches dict q) (bucket dict i) ≡ 0
  unfolding dict_lookup
  occurs-absent {dict} v s q i absent e =
      let p : matches dict s ≡ matches dict q = fun_ext (matches_congr dict s q e) in
      let z = occurs-eq-zero (matches dict s) (bucket dict (hash dict s)) absent in
      elim (Bool-cases (hash dict s == i)) [
        | inl here ↦ let at : hash dict s ≡ i = (==_iff _ _).0 here in rw (← p) (rw at at z)
        | inr there ↦ rw (← p) (v.home s i (==_false _ _ there))
      ]

  module _ (dict : Dictionary V) (v : IsValid dict) (s : List ℕ) (np : Node V)
      (stored : (q : List ℕ) → matches dict q np ≡ same dict s q) where
    -- A lookup after a node for the key `s` was linked.
    pub dict_lookup-link :
        (q : List ℕ)
        → dict_lookup (link dict s np) q ≡ (if same dict s q then some np else dict_lookup dict q)
    unfolding dict_lookup link chain_find
    dict_lookup-link q =
        let seen =
          bucket-set_bucket dict (hash dict s) (hash dict q) (np ∷ bucket dict (hash dict s))
            (hash-lt v s) in
        elim (Bool-cases (hash dict s == hash dict q)) [
          | inl e ↦
              let p : hash dict s ≡ hash dict q = (==_iff _ _).0 e in
              rw (seen, e, chain_find, stored q) (rw p)
          | inr e ↦ rw (seen, e, same-hash dict s q (==_false _ _ e))
        ]

    -- The nodes for `q` in a bucket after the linking.
    linked :
        (q : List ℕ) (i : ℕ)
        → occurs (matches dict q) (bucket (link dict s np) i)
          ≡ (if same dict s q && (hash dict s == i) then 1 else 0)
            + occurs (matches dict q) (bucket dict i)
    unfolding link
    linked q i =
        let seen =
          bucket-set_bucket dict (hash dict s) i (np ∷ bucket dict (hash dict s)) (hash-lt v s) in
        elim (Bool-cases (hash dict s == i)) [
          | inl e ↦
              let p : hash dict s ≡ i = (==_iff _ _).0 e in
              rw (seen, e, stored q)
                (ground (arith, ap (λ j. occurs (matches dict q) (bucket dict j)) p))
          | inr e ↦ rw (seen, e) (ground arith)
        ]

    -- Linking keeps the table valid where the key was not there and the counter does not wrap.
    pub link-IsValid :
        dict_lookup dict s ≡ none → dict.count + 1 < 2 ^ 32 → IsValid (link dict s np)
    unfolding dict_lookup link
    link-IsValid absent room = record {
      sized = length-set dict.hashtab _ _ ∙ v.sized;
      pos = v.pos;
      counted = omega (
        arith,
        v.counted,
        length-flatten-set dict.hashtab (hash dict s) (np ∷ bucket dict (hash dict s))
            (hash-lt v s),
      );
      once = λ q i. ground (arith, linked q i, v.once q i, stored q, occurs-absent v s q i absent);
      home = λ q i ne. ground (arith, linked q i, v.home q i, stored q, same-hash dict s q);
    }
