-- ===== src/Flash/Content.antt =====
-- What stands in a FLASH memory from an address on, and how programming changes it.
use nvol.Base.{
  ℕ, zero, suc, ◌+◌, ◌-◌, ◌≤◌, ◌<◌, ◌≡◌, ◌⊎◌, refl, ap, ap₂, List, [], ◌∷◌, ◌++◌, arith, length,
  get_or, ◌∙◌, take, drop, length-append, get_or-append_left, get_or-append_right, get_or_default,
}
use nvol.Base.Bits.{bit_and_erased}
use nvol.Flash.{peek_bytes, programmed}

-- The bytes stand in the memory from `addr` on.
abbrev pub Holds : (ℕ → ℕ) → ℕ → List ℕ → Type 0
Holds m addr bytes = (i : ℕ) → i < length bytes → m (addr + i) ≡ get_or bytes i 0

abbrev pub IsErased : (ℕ → ℕ) → ℕ → ℕ → Type 0
IsErased m addr n = (i : ℕ) → i < n → m (addr + i) ≡ 255

abbrev pub IsBytes : List ℕ → Type 0
IsBytes bytes = (i : ℕ) → get_or bytes i 0 < 256

plus_zero : (a : ℕ) → a + 0 ≡ a
plus_zero a = omega arith

plus_one : (a i : ℕ) → a + 1 + i ≡ a + suc i
plus_one a i = omega arith

-- Reading gives what stands there.
pub peek_bytes-Holds :
    (m : ℕ → ℕ) (addr : ℕ) (bytes : List ℕ)
    → Holds m addr bytes
    → peek_bytes m addr (length bytes) ≡ bytes
peek_bytes-Holds m addr [] h = refl
peek_bytes-Holds m addr (b ∷ bytes) h =
    ap₂ ◌∷◌ (rw (← plus_zero addr) (h 0 (omega arith)))
      (peek_bytes-Holds m (addr + 1) bytes (λ i p. rw (plus_one addr i) (h (suc i) (omega arith))))

-- A part of what stands there.
pub Holds-append_left :
    (m : ℕ → ℕ) (addr : ℕ) (xs ys : List ℕ) → Holds m addr (xs ++ ys) → Holds m addr xs
Holds-append_left m addr xs ys h i p =
    h i (rw length-append (omega arith)) ∙ get_or-append_left xs ys i 0 p

pub Holds-append_right :
    (m : ℕ → ℕ) (addr : ℕ) (xs ys : List ℕ)
    → Holds m addr (xs ++ ys)
    → Holds m (addr + length xs) ys
Holds-append_right m addr xs ys h i p =
    let e : addr + length xs + i ≡ addr + (length xs + i) = omega arith in
    rw e (h (length xs + i) (rw length-append (omega arith)) ∙ get_or-append_right xs ys i 0)

-- Programming erased cells stores the bytes.
pub programmed-Holds :
    (m : ℕ → ℕ) (addr : ℕ) (bytes : List ℕ)
    → IsErased m addr (length bytes)
    → IsBytes bytes
    → (r : ℕ → ℕ) → ((a : ℕ) → r a ≡ programmed m addr bytes a)
    → Holds r addr bytes
programmed-Holds m addr bytes blank small r run i p =
    let e : addr + i - addr ≡ i = omega arith in
    let d = get_or_default bytes i 255 0 p in
    run (addr + i)
    ∙ ground (
      arith,
      blank i,
      ap (λ (k : ℕ). get_or bytes k 255) e,
      small i,
      bit_and_erased (get_or bytes i 0),
    )

-- Cells outside of the range stay.
pub programmed_outside :
    (m : ℕ → ℕ) (addr : ℕ) (bytes : List ℕ) (a : ℕ)
    → (a < addr) ⊎ (addr + length bytes ≤ a)
    → programmed m addr bytes a ≡ m a
programmed_outside m addr bytes a h = ground arith

pub IsBytes-append : (xs ys : List ℕ) → IsBytes xs → IsBytes ys → IsBytes (xs ++ ys)
IsBytes-append [] ys h k i = k i
IsBytes-append (x ∷ xs) ys h k zero = h 0
IsBytes-append (x ∷ xs) ys h k (suc i) = IsBytes-append xs ys (λ j. h (suc j)) k i

pub IsBytes-take : (n : ℕ) (xs : List ℕ) → IsBytes xs → IsBytes (take n xs)
IsBytes-take zero xs h i = omega arith
IsBytes-take (suc n) [] h i = omega arith
IsBytes-take (suc n) (x ∷ xs) h zero = h 0
IsBytes-take (suc n) (x ∷ xs) h (suc i) = IsBytes-take n xs (λ j. h (suc j)) i

pub IsBytes-drop : (n : ℕ) (xs : List ℕ) → IsBytes xs → IsBytes (drop n xs)
IsBytes-drop zero xs h = h
IsBytes-drop (suc n) [] h = h
IsBytes-drop (suc n) (x ∷ xs) h = IsBytes-drop n xs (λ i. h (suc i))
