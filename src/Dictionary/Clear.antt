-- ===== src/Dictionary/Clear.antt =====
-- `dictionary_remove_all` and `dictionary_destroy`: the loops free every node, and the counter ends
-- at 0, as the check at the end of the function expects.
use nvol.Base.{
  ℕ, zero, suc, ◌+◌, ◌^◌, ◌≤◌, ◌<◌, ◌≡◌, ◌⊎◌, refl, sym, ◌∙◌, List, [], ◌∷◌, none, arith, ◌==◌,
  length, get_or, flatten, ap, length-set, get_or-eq-default, inl, inr, Bool-cases, ==_iff,
  ==_false, ==_refl, ==_ne, ltb, ltb→lt, ltb_false→le, length-append,
}
use nvol.Base.Bytes.{dec32}
use nvol.Dictionary.{
  Node, Dictionary, hash, bucket, set_bucket, chain_find, dict_lookup, remove_chain,
  remove_all_loop, dictionary_remove_all,
}
use nvol.Dictionary.Table.{IsValid, length-flatten-set, bucket-set_bucket}

module _ {ℓ} {V : Type ℓ} where
  -- `r` is `dict` with the buckets from `lo` up to `hi` emptied, and its counter is right.
  record Cleared (dict : Dictionary V) (lo hi : ℕ) (r : Dictionary V) : Type ℓ where
    type_kept : (r.key ≡ dict.key) × (r.keyspec ≡ dict.keyspec) × (r.hashsize ≡ dict.hashsize)
    sized : length r.hashtab ≡ length dict.hashtab
    counted : r.count ≡ length (flatten r.hashtab)
    small : r.count < 2 ^ 32
    inside : (j : ℕ) → lo ≤ j → j < hi → bucket r j ≡ []
    outside : (j : ℕ) → (j < lo) ⊎ (hi ≤ j) → bucket r j ≡ bucket dict j

  remove_chain-Cleared :
      (i : ℕ) (c : List (Node V)) (dict : Dictionary V)
      → i < length dict.hashtab
      → bucket dict i ≡ c
      → dict.count ≡ length (flatten dict.hashtab)
      → dict.count < 2 ^ 32
      → Cleared dict i (suc i) (remove_chain i c dict)
  unfolding remove_chain
  remove_chain-Cleared i [] dict h e counted small = record {
    type_kept = (refl, refl, refl);
    sized = refl;
    counted = counted;
    small = small;
    inside = λ j p q. let same : i ≡ j = omega arith in rw (← same) e;
    outside = λ j p. refl;
  }
  remove_chain-Cleared i (np ∷ next) dict h e counted small =
      let popped : Dictionary V = record (set_bucket dict i next) { count = dec32 dict.count } in
      let total = length-flatten-set dict.hashtab i next h in
      let here : length (bucket dict i) ≡ suc (length next) = ap length e in
      let rest =
        remove_chain-Cleared i next popped (rw length-set h)
          (bucket-set_bucket dict i i next h ∙ rw (==_refl i)) (omega arith) (omega arith) in
      record {
        type_kept = rest.type_kept;
        sized = rest.sized ∙ length-set dict.hashtab i next;
        counted = rest.counted;
        small = rest.small;
        inside = rest.inside;
        outside = λ j p.
            rest.outside j p ∙ bucket-set_bucket dict i j next h ∙ rw (==_ne i j (omega arith));
      }

  remove_all_loop-Cleared :
      (n i hi : ℕ) (dict : Dictionary V)
      → i + n ≡ hi
      → hi ≤ length dict.hashtab
      → dict.count ≡ length (flatten dict.hashtab)
      → dict.count < 2 ^ 32
      → Cleared dict i hi (remove_all_loop n i dict)
  unfolding remove_all_loop
  remove_all_loop-Cleared zero i hi dict e h counted small = record {
    type_kept = (refl, refl, refl);
    sized = refl;
    counted = counted;
    small = small;
    inside = λ j p q. absurd (omega arith);
    outside = λ j p. refl;
  }
  remove_all_loop-Cleared (suc n) i hi dict e h counted small =
      let first = remove_chain-Cleared i (bucket dict i) dict (omega arith) refl counted small in
      let rest =
        remove_all_loop-Cleared n (i + 1) hi (remove_chain i (bucket dict i) dict) (omega arith)
          (omega (arith, first.sized)) first.counted first.small in
      record {
        type_kept = (
          rest.type_kept.0 ∙ first.type_kept.0,
          rest.type_kept.1 ∙ first.type_kept.1,
          rest.type_kept.2 ∙ first.type_kept.2,
        );
        sized = rest.sized ∙ first.sized;
        counted = rest.counted;
        small = rest.small;
        inside = λ j p q. elim (Bool-cases (i == j)) [
          | inl here ↦
              let at : i ≡ j = (==_iff i j).0 here in
              rest.outside j (inl (omega arith)) ∙ first.inside j (omega arith) (omega arith)
          | inr there ↦ let ne = ==_false i j there in rest.inside j (omega arith) q
        ];
        outside = λ j p. rest.outside j (omega arith) ∙ first.outside j (omega arith);
      }

  -- A table of empty buckets has no node.
  flatten-empty :
      (bs : List (List (Node V)))
      → ((j : ℕ) → j < length bs → get_or bs j [] ≡ [])
      → length (flatten bs) ≡ 0
  unfolding flatten
  flatten-empty [] h = refl
  flatten-empty (b ∷ bs) h = simp length-append (
      omega
        (arith, ap length (h 0 (omega arith)), flatten-empty bs (λ j p. h (suc j) (omega arith))))

  -- `dictionary_remove_all` frees every node of a well-formed dictionary of fewer
  -- than 2 ^ 32 nodes: its counter ends at 0, no
  -- key is found any more, and the dictionary stays well formed, of the same type and size.
  pub dictionary_remove_all_lem :
      (dict : Dictionary V)
      → IsValid dict
      → dict.count < 2 ^ 32
      → let r = dictionary_remove_all dict in
        (r.count ≡ 0)
        × ((q : List ℕ) → dict_lookup r q ≡ none)
        × IsValid r
        × (r.key ≡ dict.key)
        × (r.keyspec ≡ dict.keyspec)
        × (r.hashsize ≡ dict.hashsize)
  unfolding dictionary_remove_all dict_lookup chain_find
  dictionary_remove_all_lem dict v small =
      let c =
        remove_all_loop-Cleared dict.hashsize 0 dict.hashsize dict (omega arith)
          (omega (arith, v.sized)) v.counted small in
      let size : length (remove_all_loop dict.hashsize 0 dict).hashtab ≡ dict.hashsize =
        c.sized ∙ v.sized in
      let r : Dictionary V = remove_all_loop dict.hashsize 0 dict in
      let every : (j : ℕ) → bucket r j ≡ [] = λ j. elim (Bool-cases (ltb j dict.hashsize)) [
        | inl p ↦ c.inside j (omega arith) (ltb→lt j _ p)
        | inr p ↦ get_or-eq-default r.hashtab j [] (omega (arith, ltb_false→le j _ p))
      ] in
      (
        omega (arith, c.counted, flatten-empty r.hashtab (λ j p. every j)),
        λ q. rw (every (hash r q)),
        record {
          sized = size ∙ sym c.type_kept.2;
          pos = omega (arith, c.type_kept.2, v.pos);
          counted = c.counted;
          once = λ q i. rw (every i) (omega arith);
          home = λ q i ne. rw (every i);
        },
        c.type_kept.0,
        c.type_kept.1,
        c.type_kept.2,
      )
