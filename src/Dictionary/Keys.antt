-- ===== src/Dictionary/Keys.antt =====
-- The key types of src/common/dictionary.c: the static tables of `struct dictionary_keyval`.
-- A key argument is a pointer to bytes; the model passes the bytes that stand there.
pub mod Laws
use nvol.Base.{
  ℕ, zero, suc, ◌+◌, ◌-◌, ◌*◌, ◌/◌, ◌%◌, ◌^◌, List, [], ◌∷◌, ◌++◌, Bool, true, false, ltb, ◌==◌,
  if◌then◌else◌, take, drop, length,
}
use nvol.Base.Bytes.{load16, load32, bytes16}

-- Which of the tables `dict->key` points to.
pub data KeyType : Type 0 where
  str_key const_str_key ushort_key binary_key : KeyType

-- `DICTIONARY_KEY_SIZE`, the words of a binary key
abbrev pub key_words : ℕ → ℕ
key_words keyspec = keyspec % 2 ^ 16

-- the choice that `dictionary_init` makes
unfoldable pub key_type : ℕ → KeyType
key_type keyspec =
    if keyspec / 2 ^ 16 == 4
    then binary_key
    else if keyspec == 3 * 2 ^ 16
    then ushort_key
    else if keyspec == 1 * 2 ^ 16
    then const_str_key
    else str_key

-- The characters of a C string, without the closing NUL.
unfoldable pub c_string : List ℕ → List ℕ
c_string [] = []
c_string (zero ∷ s) = []
c_string (suc c ∷ s) = suc c ∷ c_string s

-- `char` is signed on the hosts that the program is built for.
unfoldable pub char_as_unsigned : ℕ → ℕ
char_as_unsigned c = if ltb c 128 then c else c + 2 ^ 32 - 256

-- the loop of `dictionary_str_key_hash`
unfoldable pub str_hash_loop : List ℕ → ℕ → ℕ
unfolding char_as_unsigned
str_hash_loop [] hashval = hashval
str_hash_loop (c ∷ s) hashval = str_hash_loop s ((char_as_unsigned c + 31 * hashval) % 2 ^ 32)

-- the loop of `dictionary_binary_key_hash` over `n` words
unfoldable pub binary_hash_loop : ℕ → List ℕ → ℕ → ℕ
binary_hash_loop zero s hash = hash
binary_hash_loop (suc n) s hash = binary_hash_loop n (drop 4 s) ((hash + load32 s) % 2 ^ 32)

-- `strcmp (s, p) == 0`
unfoldable pub strcmp_eq : List ℕ → List ℕ → Bool
strcmp_eq [] [] = true
strcmp_eq [] (b ∷ t) = b == 0
strcmp_eq (a ∷ s) [] = a == 0
strcmp_eq (a ∷ s) (b ∷ t) = if a == b then (if a == 0 then true else strcmp_eq s t) else false

-- the loop of `dictionary_binary_key_cmp` over `n` words
unfoldable pub binary_cmp_loop : ℕ → List ℕ → List ℕ → Bool
binary_cmp_loop zero s t = true
binary_cmp_loop (suc n) s t =
    if load32 s == load32 t then binary_cmp_loop n (drop 4 s) (drop 4 t) else false

-- `dict->key->hash`
unfoldable pub key_hash : KeyType → ℕ → ℕ → List ℕ → ℕ
unfolding str_hash_loop binary_hash_loop c_string load16
key_hash str_key keyspec hashsize s = str_hash_loop (c_string s) 0 % hashsize
key_hash const_str_key keyspec hashsize s = str_hash_loop (c_string s) 0 % hashsize
key_hash ushort_key keyspec hashsize s = load16 s % hashsize
key_hash binary_key keyspec hashsize s = binary_hash_loop (key_words keyspec) s 0 % hashsize

-- `dict->key->cmp (dict, np, s)`, where `p` is the key of the node; 1 is a match.
unfoldable pub key_cmp : KeyType → ℕ → List ℕ → List ℕ → Bool
unfolding strcmp_eq binary_cmp_loop load16
key_cmp str_key keyspec p s = strcmp_eq s p
key_cmp const_str_key keyspec p s = strcmp_eq s p
key_cmp ushort_key keyspec p s = load16 p == load16 s
key_cmp binary_key keyspec p s = binary_cmp_loop (key_words keyspec) s p

-- What `dict->key->alloc` keeps of the key. A constant string is kept by its pointer, and the
-- caller leaves what it points to alone.
unfoldable pub key_store : KeyType → ℕ → List ℕ → List ℕ
unfolding c_string load16 bytes16
key_store str_key keyspec s = c_string s ++ 0 ∷ []
key_store const_str_key keyspec s = s
key_store ushort_key keyspec s = bytes16 (load16 s) ++ 0 ∷ 0 ∷ []
key_store binary_key keyspec s = take (4 * key_words keyspec) s
