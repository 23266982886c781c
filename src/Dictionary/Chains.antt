-- ===== src/Dictionary/Chains.antt =====
-- One chain of the table: the search and the unlinking, for any test on nodes.
use nvol.Base.{
  ℕ, ◌+◌, ◌≤◌, ◌≡◌, refl, List, [], ◌∷◌, Bool, true, false, none, some, arith, if◌then◌else◌,
  length,
}
use nvol.Dictionary.{Node, chain_find, chain_unlink}

module _ {ℓ} {V : Type ℓ} where
  -- how many nodes of a chain pass
  abbrev pub occurs : (Node V → Bool) → List (Node V) → ℕ
  occurs p [] = 0
  occurs p (np ∷ c) = (if p np then 1 else 0) + occurs p c

  pub chain_find-eq-none :
      (p : Node V → Bool) (c : List (Node V)) → occurs p c ≡ 0 → chain_find p c ≡ none
  unfolding chain_find
  chain_find-eq-none p [] h = refl
  chain_find-eq-none p (np ∷ c) h = ground (arith, chain_find-eq-none p c)

  pub occurs-eq-zero :
      (p : Node V → Bool) (c : List (Node V)) → chain_find p c ≡ none → occurs p c ≡ 0
  unfolding chain_find
  occurs-eq-zero p [] h = refl
  occurs-eq-zero p (np ∷ c) h = ground (arith, occurs-eq-zero p c)

  -- What the search finds passes.
  pub chain_find_passes :
      (p : Node V → Bool) (c : List (Node V)) (np : Node V) → chain_find p c ≡ some np → p np ≡ true
  unfolding chain_find
  chain_find_passes p [] np h = cc
  chain_find_passes p (n ∷ c) np h = ground (arith, chain_find_passes p c np)

  pub occurs-unlink-le :
      (p q : Node V → Bool) (c : List (Node V)) → occurs q (chain_unlink p c) ≤ occurs q c
  unfolding chain_unlink
  occurs-unlink-le p q [] = omega arith
  occurs-unlink-le p q (np ∷ c) = ground (arith, occurs-unlink-le p q c)

  pub length-unlink :
      (p : Node V → Bool) (c : List (Node V)) (np : Node V)
      → chain_find p c ≡ some np
      → length (chain_unlink p c) + 1 ≡ length c
  unfolding chain_find chain_unlink
  length-unlink p [] np h = cc
  length-unlink p (n ∷ c) np h = ground (arith, length-unlink p c np)

  -- Where at most one node passes, none does behind the unlinking.
  pub chain_find-unlink_self :
      (p : Node V → Bool) (c : List (Node V))
      → occurs p c ≤ 1
      → chain_find p (chain_unlink p c) ≡ none
  unfolding chain_find chain_unlink
  chain_find-unlink_self p [] h = refl
  chain_find-unlink_self p (np ∷ c) h =
      ground (arith, chain_find-unlink_self p c, chain_find-eq-none p c)

  -- A search for something else is not disturbed.
  pub chain_find-unlink_ne :
      (p q : Node V → Bool) (c : List (Node V))
      → ((np : Node V) → p np ≡ true → q np ≡ false)
      → chain_find q (chain_unlink p c) ≡ chain_find q c
  unfolding chain_find chain_unlink
  chain_find-unlink_ne p q [] apart = refl
  chain_find-unlink_ne p q (np ∷ c) apart =
      ground (arith, apart np, chain_find-unlink_ne p q c apart)
