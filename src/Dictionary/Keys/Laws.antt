-- ===== src/Dictionary/Keys/Laws.antt =====
-- How the key functions of src/common/dictionary.c fit one another.
use nvol.Base.{
  ℕ, zero, suc, ◌+◌, ◌*◌, ◌%◌, ◌^◌, ◌<◌, ◌≡◌, refl, sym, ap, ◌∙◌, List, [], ◌∷◌, ◌++◌, true, arith,
  take, drop, ==_refl,
}
use nvol.Base.Bytes.{load16, load32, bytes16, load16-bytes16}
use nvol.Dictionary.Keys.{
  KeyType, str_key, const_str_key, ushort_key, binary_key, key_words, c_string, binary_hash_loop,
  strcmp_eq, binary_cmp_loop, key_hash, key_cmp, key_store,
}

strcmp_eq_refl : (s : List ℕ) → strcmp_eq s s ≡ true
unfolding strcmp_eq
strcmp_eq_refl [] = refl
strcmp_eq_refl (a ∷ s) = ground (arith, strcmp_eq_refl s)

strcmp_eq_congr : (q s p : List ℕ) → strcmp_eq s p ≡ true → strcmp_eq q p ≡ strcmp_eq q s
unfolding strcmp_eq
strcmp_eq_congr [] [] [] h = refl
strcmp_eq_congr [] [] (b ∷ p) h = ground arith
strcmp_eq_congr [] (a ∷ s) [] h = ground arith
strcmp_eq_congr [] (a ∷ s) (b ∷ p) h = ground arith
strcmp_eq_congr (c ∷ q) [] [] h = refl
strcmp_eq_congr (c ∷ q) [] (b ∷ p) h = ground arith
strcmp_eq_congr (c ∷ q) (a ∷ s) [] h = ground arith
strcmp_eq_congr (c ∷ q) (a ∷ s) (b ∷ p) h = ground (arith, strcmp_eq_congr q s p)

strcmp_eq-c_string : (s p : List ℕ) → strcmp_eq s p ≡ true → c_string s ≡ c_string p
unfolding strcmp_eq c_string
strcmp_eq-c_string [] [] h = refl
strcmp_eq-c_string [] (zero ∷ p) h = refl
strcmp_eq-c_string [] (suc b ∷ p) h = ground arith
strcmp_eq-c_string (zero ∷ s) [] h = refl
strcmp_eq-c_string (suc a ∷ s) [] h = ground arith
strcmp_eq-c_string (zero ∷ s) (zero ∷ p) h = refl
strcmp_eq-c_string (zero ∷ s) (suc b ∷ p) h = ground arith
strcmp_eq-c_string (suc a ∷ s) (zero ∷ p) h = ground arith
strcmp_eq-c_string (suc a ∷ s) (suc b ∷ p) h = ground (arith, strcmp_eq-c_string s p)

-- The copy that a node keeps of a string is the string.
strcmp_eq-copy : (q s : List ℕ) → strcmp_eq q (c_string s ++ 0 ∷ []) ≡ strcmp_eq q s
unfolding strcmp_eq c_string
strcmp_eq-copy [] [] = ground arith
strcmp_eq-copy [] (zero ∷ s) = ground arith
strcmp_eq-copy [] (suc a ∷ s) = ground arith
strcmp_eq-copy (c ∷ q) [] = ground arith
strcmp_eq-copy (c ∷ q) (zero ∷ s) = ground arith
strcmp_eq-copy (c ∷ q) (suc a ∷ s) = ground (arith, strcmp_eq-copy q s)

binary_cmp_refl : (n : ℕ) (s : List ℕ) → binary_cmp_loop n s s ≡ true
unfolding binary_cmp_loop
binary_cmp_refl zero s = refl
binary_cmp_refl (suc n) s = rw (==_refl (load32 s)) (binary_cmp_refl n (drop 4 s))

binary_cmp_congr :
    (n : ℕ) (q s p : List ℕ)
    → binary_cmp_loop n s p ≡ true
    → binary_cmp_loop n q p ≡ binary_cmp_loop n q s
unfolding binary_cmp_loop
binary_cmp_congr zero q s p h = refl
binary_cmp_congr (suc n) q s p h =
    ground (arith, binary_cmp_congr n (drop 4 q) (drop 4 s) (drop 4 p))

binary_cmp-hash :
    (n : ℕ) (s p : List ℕ) (acc : ℕ)
    → binary_cmp_loop n s p ≡ true
    → binary_hash_loop n s acc ≡ binary_hash_loop n p acc
unfolding binary_cmp_loop binary_hash_loop
binary_cmp-hash zero s p acc h = refl
binary_cmp-hash (suc n) s p acc h =
    ground (arith, binary_cmp-hash n (drop 4 s) (drop 4 p) ((acc + load32 s) % 4294967296))

-- Four bytes are one word.
word_take :
    (k : ℕ) (s : List ℕ)
    → (load32 (take (suc (suc (suc (suc k)))) s) ≡ load32 s)
      × (drop 4 (take (suc (suc (suc (suc k)))) s) ≡ take k (drop 4 s))
unfolding load32
word_take zero [] = (refl, refl)
word_take (suc k) [] = (refl, refl)
word_take zero (a ∷ []) = (refl, refl)
word_take (suc k) (a ∷ []) = (refl, refl)
word_take zero (a ∷ b ∷ []) = (refl, refl)
word_take (suc k) (a ∷ b ∷ []) = (refl, refl)
word_take zero (a ∷ b ∷ c ∷ []) = (refl, refl)
word_take (suc k) (a ∷ b ∷ c ∷ []) = (refl, refl)
word_take k (a ∷ b ∷ c ∷ d ∷ s) = (refl, refl)

times_four : (n : ℕ) → 4 * suc n ≡ suc (suc (suc (suc (4 * n))))
times_four n = omega arith

binary_cmp-take :
    (n : ℕ) (q s : List ℕ) → binary_cmp_loop n q (take (4 * n) s) ≡ binary_cmp_loop n q s
unfolding binary_cmp_loop
binary_cmp-take zero q s = refl
binary_cmp-take (suc n) q s =
    let (word, rest) = word_take (4 * n) s in
    rw (times_four n, word, rest, binary_cmp-take n (drop 4 q) (drop 4 s))

load16-copy :
    (s : List ℕ) → load16 s < 2 ^ 16 → load16 (bytes16 (load16 s) ++ 0 ∷ 0 ∷ []) ≡ load16 s
load16-copy s h = load16-bytes16 (load16 s) (0 ∷ 0 ∷ []) h

-- A key matches itself.
pub key_cmp_refl : (ty : KeyType) (keyspec : ℕ) (s : List ℕ) → key_cmp ty keyspec s s ≡ true
unfolding key_cmp
key_cmp_refl str_key keyspec s = strcmp_eq_refl s
key_cmp_refl const_str_key keyspec s = strcmp_eq_refl s
key_cmp_refl ushort_key keyspec s = ==_refl (load16 s)
key_cmp_refl binary_key keyspec s = binary_cmp_refl (key_words keyspec) s

-- Keys that match are matched by the same keys, whatever the type of the keys.
pub key_cmp_congr :
    (ty : KeyType) (keyspec : ℕ) (p s q : List ℕ)
    → key_cmp ty keyspec p s ≡ true
    → key_cmp ty keyspec p q ≡ key_cmp ty keyspec s q
unfolding key_cmp
key_cmp_congr str_key keyspec p s q h = strcmp_eq_congr q s p h
key_cmp_congr const_str_key keyspec p s q h = strcmp_eq_congr q s p h
key_cmp_congr ushort_key keyspec p s q h = ground arith
key_cmp_congr binary_key keyspec p s q h = binary_cmp_congr (key_words keyspec) q s p h

-- Keys that match have one hash, whatever the type of the keys and the size of the table.
pub key_hash-key_cmp :
    (ty : KeyType) (keyspec hashsize : ℕ) (p s : List ℕ)
    → key_cmp ty keyspec p s ≡ true
    → key_hash ty keyspec hashsize p ≡ key_hash ty keyspec hashsize s
unfolding key_cmp key_hash
key_hash-key_cmp str_key keyspec hashsize p s h = rw (strcmp_eq-c_string s p h)
key_hash-key_cmp const_str_key keyspec hashsize p s h = rw (strcmp_eq-c_string s p h)
key_hash-key_cmp ushort_key keyspec hashsize p s h = ground arith
key_hash-key_cmp binary_key keyspec hashsize p s h =
    rw (binary_cmp-hash (key_words keyspec) s p 0 h)

-- The bytes behind a key pointer are bytes; only the two of a USHORT key need to be known as such.
abbrev pub IsKey : List ℕ → Type 0
IsKey s = load16 s < 2 ^ 16

-- The key that a node keeps is matched by exactly the keys that match the key it was made from, if
-- the first two bytes of that key are a uint16_t.
pub key_cmp-key_store :
    (ty : KeyType) (keyspec : ℕ) (s q : List ℕ)
    → IsKey s
    → key_cmp ty keyspec (key_store ty keyspec s) q ≡ key_cmp ty keyspec s q
unfolding key_cmp key_store
key_cmp-key_store str_key keyspec s q h = strcmp_eq-copy q s
key_cmp-key_store const_str_key keyspec s q h = refl
key_cmp-key_store ushort_key keyspec s q h = rw (load16-copy s h)
key_cmp-key_store binary_key keyspec s q h = binary_cmp-take (key_words keyspec) q s

-- The hash picks a bucket of the table.
pub key_hash-lt :
    (ty : KeyType) (keyspec hashsize : ℕ) (s : List ℕ)
    → 0 < hashsize
    → key_hash ty keyspec hashsize s < hashsize
unfolding key_hash
key_hash-lt str_key keyspec hashsize s h = omega arith
key_hash-lt const_str_key keyspec hashsize s h = omega arith
key_hash-lt ushort_key keyspec hashsize s h = omega arith
key_hash-lt binary_key keyspec hashsize s h = omega arith

-- Binary keys match if the words that are compared are the same bytes.
pub key_cmp-take :
    (keyspec : ℕ) (s q : List ℕ)
    → take (4 * key_words keyspec) s ≡ take (4 * key_words keyspec) q
    → key_cmp binary_key keyspec s q ≡ true
unfolding key_cmp
key_cmp-take keyspec s q h =
    let n = key_words keyspec in
    sym (binary_cmp-take n q s)
    ∙ ap (λ t. binary_cmp_loop n q t) h
    ∙ binary_cmp-take n q q
    ∙ binary_cmp_refl n q
