-- ===== src/Registry/WordValue.antt =====
-- The replacement of a word by a value that was stored (src/registry/registry.c).
use nvol.Base.{
  ℕ, zero, suc, ◌+◌, ◌-◌, ◌≤◌, ◌≡◌, ◌≢◌, refl, sym, ap, ◌∙◌, List, [], ◌∷◌, ◌++◌, true, false, some,
  arith, ltb, length, take, drop, replicate, le→ltb_false,
}
use nvol.Base.Status.{eok}
use nvol.Dictionary.{Dictionary}
use nvol.Nvol.Api.{clear_head}
use nvol.Nvol.{Entry, Instance}
use nvol.Ramdrv.{Ram}
use nvol.Registry.Texts.{strncpy}
use nvol.Registry.Buffer.{filled, filled-value}
use nvol.Nvol.RoundTrip.{read_back}
use nvol.Registry.SetGet.{SetsPair, IsOpen, IsPair, IsNew, registry_value_set_new, get_value_run}
use nvol.Registry.Words.{Shared, word_record, hand_over, registry_strsub_cb}
use nvol.Registry.{
  Registry, registry_key_length, registry_value_length_max, registry_config, registry_value_set,
}
use nvol.Strsub.{Replace}

-- Characters of a name: none is NUL.
abbrev pub AreCharacters : List ℕ → Type 0
AreCharacters [] = Unit
AreCharacters (c ∷ word) = (c ≢ 0) × AreCharacters word

-- A word in the text is copied as it is.
strncpy-word :
    (word rest : List ℕ) → AreCharacters word → strncpy (length word) (word ++ rest) ≡ word
unfolding strncpy
strncpy-word [] rest h = refl
strncpy-word (zero ∷ word) rest (real, h) = absurd (real refl)
strncpy-word (suc c ∷ word) rest (real, h) = ap (λ t. suc c ∷ t) (strncpy-word word rest h)

strncpy-nothing : (n : ℕ) → strncpy n [] ≡ replicate n 0
unfolding strncpy
strncpy-nothing zero = refl
strncpy-nothing (suc n) = ap (λ t. 0 ∷ t) (strncpy-nothing n)

take-replicate : (n m : ℕ) → n ≤ m → take n (replicate {A = ℕ} m 0) ≡ replicate n 0
take-replicate zero m h = refl
take-replicate (suc n) zero h = absurd (omega arith)
take-replicate (suc n) (suc m) h = ap (λ t. 0 ∷ t) (take-replicate n m (omega arith))

-- Padded with NULs it is the key that its characters make.
take-padded :
    (n m : ℕ) (word : List ℕ)
    → AreCharacters word
    → length word ≤ n
    → n ≤ length word + m
    → take n (word ++ replicate m 0) ≡ strncpy n word
unfolding strncpy
take-padded n m [] h l k = take-replicate n m (omega arith) ∙ sym (strncpy-nothing n)
take-padded zero m (c ∷ word) h l k = absurd (omega arith)
take-padded (suc n) m (zero ∷ word) (real, h) l k = absurd (real refl)
take-padded (suc n) m (suc c ∷ word) (real, h) l k =
    ap (λ t. suc c ∷ t) (take-padded n m word h (omega arith) (omega arith))

module _ (r : Registry) (dict : Dictionary Entry) (word value : List ℕ) (n : ℕ) (is : IsOpen r dict)
    (pair : IsPair word value n) (characters : AreCharacters word)
    (short : length word ≤ registry_key_length) where
  -- The record that the word is looked up with has the name as its key.
  word_record-key :
      (rest : List ℕ)
      → take registry_key_length (word_record (word ++ rest) (length word)).key_and_data
        ≡ strncpy registry_key_length word
  unfolding word_record
  word_record-key rest = rw (strncpy-word word rest characters) (
      take-padded registry_key_length
        (registry_key_length + registry_value_length_max - length word) word characters short
        (omega arith))

  hands_over :
      (s' : Instance Ram) (dict' : Dictionary Entry)
      → SetsPair r dict word value n is pair s' dict'
      → (r' : Registry) → r'.volume ≡ s'
      → {A : Type 0} (cb : Replace (Shared A)) (rest : List ℕ) (offset : ℕ) (a : A)
      → (bytes : List ℕ) × (r'' : Registry) × (registry_strsub_cb cb
            (word ++ rest)
            (length word)
            offset
            (some (r', a))
          ≡ cb bytes n offset (some (r'', a)))
        × (take n bytes ≡ take n value)
        × (r''.volume ≡ s')
  unfolding registry_strsub_cb hand_over clear_head
  hands_over s' dict' sets r' at cb rest offset a =
      let asked = word_record (word ++ rest) (length word) in
      let got =
        get_value_run r dict word value n is pair s' dict' sets (record r' { value = asked }) at
          (word_record-key rest) in
      let fits : ltb (registry_key_length + registry_value_length_max) (length word) ≡ false =
        le→ltb_false _ (length word) (omega (arith, short)) in
      let long : ltb registry_key_length (n + registry_key_length) ≡ true =
        ground (arith, pair.some_bytes) in
      let size : n + registry_key_length - registry_key_length ≡ n = omega arith in
      let out =
        read_back (n + registry_key_length) (filled word value n r.value.key_and_data)
          (clear_head registry_config asked) in
      (
        drop registry_key_length out.key_and_data,
        record r' { volume = s'; value = out },
        simp (registry_strsub_cb, fits, got, hand_over, long, size),
        filled-value word value n n r.value.key_and_data asked.key_and_data pair.there
            (omega arith),
        refl,
      )

  -- After a value of 1 to 224 bytes is set under a new name of up to 24 characters in an open registry
  -- with room, a word of these characters, wherever it stands in a text, is replaced by it:
  -- `registry_strsub_cb` calls `cb` with the bytes of the value, their number and the offset,
  -- passes on its answer, and leaves the volume as it is.
  pub registry_strsub_cb-registry_value_set :
      {A : Type 0}
      → IsNew r dict word value n is pair
      → (r' : Registry) × (registry_value_set (some word) (some value) n r ≡ some (eok, r'))
        × ((cb : Replace (Shared A)) (rest : List ℕ) (offset : ℕ) (a : A)
            → (bytes : List ℕ) × (r'' : Registry) × (registry_strsub_cb cb
                  (word ++ rest)
                  (length word)
                  offset
                  (some (r', a))
                ≡ cb bytes n offset (some (r'', a)))
              × (take n bytes ≡ take n value)
              × (r''.volume ≡ r'.volume))
  unfolding registry_strsub_cb
  registry_strsub_cb-registry_value_set absent =
      let (s', dict', run, sets) = registry_value_set_new r dict word value n is pair absent in
      let r' : Registry = record r {
        volume = s';
        value = record {
          head = r.value.head;
          key_and_data = filled word value n r.value.key_and_data;
        };
      } in
      (r', run, λ cb rest offset a. hands_over s' dict' sets r' refl cb rest offset a)
