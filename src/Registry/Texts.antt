-- ===== src/Registry/Texts.antt =====
-- The string functions of the C library that src/registry/ uses.
use Prim.Native.Nat.{Ordering, compare}
use nvol.Base.{ℕ, zero, suc, ◌≤◌, ◌≡◌, refl, ap, List, [], ◌∷◌, ◌++◌, length, arith}
use nvol.Flash.Content.{IsBytes}

-- `strncpy`: the characters up to the NUL, and NULs up to the length
unfoldable pub strncpy : ℕ → List ℕ → List ℕ
strncpy zero s = []
strncpy (suc n) [] = 0 ∷ strncpy n []
strncpy (suc n) (zero ∷ s) = 0 ∷ strncpy n []
strncpy (suc n) (suc c ∷ s) = suc c ∷ strncpy n s

-- `strcmp`, by the characters as unsigned numbers
unfoldable pub strcmp : List ℕ → List ℕ → Ordering
strcmp [] [] = Ordering.eq
strcmp [] (zero ∷ t) = Ordering.eq
strcmp [] (suc b ∷ t) = Ordering.lt
strcmp (zero ∷ s) [] = Ordering.eq
strcmp (suc a ∷ s) [] = Ordering.gt
strcmp (zero ∷ s) (zero ∷ t) = Ordering.eq
strcmp (zero ∷ s) (suc b ∷ t) = Ordering.lt
strcmp (suc a ∷ s) (zero ∷ t) = Ordering.gt
strcmp (suc a ∷ s) (suc b ∷ t) = elim (compare a b) [ Ordering.eq ↦ strcmp s t | other ↦ other ]

pub length-strncpy : (n : ℕ) (s : List ℕ) → length (strncpy n s) ≡ n
unfolding strncpy
length-strncpy zero s = refl
length-strncpy (suc n) [] = ap suc (length-strncpy n [])
length-strncpy (suc n) (zero ∷ s) = ap suc (length-strncpy n [])
length-strncpy (suc n) (suc c ∷ s) = ap suc (length-strncpy n s)

pub strncpy-IsBytes : (n : ℕ) (s : List ℕ) → IsBytes s → IsBytes (strncpy n s)
unfolding strncpy
strncpy-IsBytes zero s h i = omega arith
strncpy-IsBytes (suc n) [] h zero = omega arith
strncpy-IsBytes (suc n) [] h (suc i) = strncpy-IsBytes n [] h i
strncpy-IsBytes (suc n) (zero ∷ s) h zero = omega arith
strncpy-IsBytes (suc n) (zero ∷ s) h (suc i) = strncpy-IsBytes n [] (λ j. omega arith) i
strncpy-IsBytes (suc n) (suc c ∷ s) h zero = h 0
strncpy-IsBytes (suc n) (suc c ∷ s) h (suc i) = strncpy-IsBytes n s (λ j. h (suc j)) i

-- A copy of a copy.
pub strncpy-strncpy :
    (k n : ℕ) (s rest : List ℕ) → k ≤ n → strncpy k (strncpy n s ++ rest) ≡ strncpy k s
unfolding strncpy
strncpy-strncpy zero n s rest h = refl
strncpy-strncpy (suc k) zero s rest h = absurd (omega arith)
strncpy-strncpy (suc k) (suc n) [] rest h = refl
strncpy-strncpy (suc k) (suc n) (zero ∷ s) rest h = refl
strncpy-strncpy (suc k) (suc n) (suc c ∷ s) rest h =
    ap (λ t. suc c ∷ t) (strncpy-strncpy k n s rest (omega arith))
