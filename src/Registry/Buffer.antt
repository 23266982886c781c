-- ===== src/Registry/Buffer.antt =====
-- The record buffer of src/registry/registry.c: a key of 24 bytes, and a value behind it.
use nvol.Base.{
  ℕ, zero, suc, ◌+◌, ◌≤◌, ◌≡◌, refl, ap, ◌∙◌, List, [], ◌∷◌, ◌++◌, arith, length, take, drop,
}
use nvol.Base.Bytes.{overlay}
use nvol.Flash.Content.{IsBytes, IsBytes-append, IsBytes-take, IsBytes-drop}
use nvol.Nvol.Keyed.{take-append-at, drop-append-at, value_read}
use nvol.Nvol.RoundTrip.{length-take_all}
use nvol.Nvol.{Record}
use nvol.Registry.Texts.{strncpy, length-strncpy, strncpy-IsBytes}
use nvol.Registry.{registry_key_length, set_key, set_value}

pub take_within :
    (k n : ℕ) (xs ys : List ℕ) → k ≤ n → n ≤ length xs → take k (take n xs ++ ys) ≡ take k xs
take_within zero n xs ys h l = refl
take_within (suc k) zero xs ys h l = absurd (omega arith)
take_within (suc k) (suc n) [] ys h l = absurd (omega arith)
take_within (suc k) (suc n) (x ∷ xs) ys h l =
    ap (λ t. x ∷ t) (take_within k n xs ys (omega arith) (omega arith))

-- The bytes of the buffer once the key and the value are there.
abbrev pub filled : List ℕ → List ℕ → ℕ → List ℕ → List ℕ
filled id value n buf =
    strncpy registry_key_length id ++ (take n value ++ drop n (drop registry_key_length buf))

abbrev pub key_length :
    (id : List ℕ) → length (strncpy registry_key_length id) ≡ registry_key_length
key_length id = length-strncpy registry_key_length id

pub set_key_lem :
    (id : List ℕ) (rec : Record)
    → (set_key id rec).key_and_data
      ≡ strncpy registry_key_length id ++ drop registry_key_length rec.key_and_data
unfolding set_key
set_key_lem id rec = refl

-- `registry_value_set` fills the buffer.
pub set_value-set_key :
    (id value : List ℕ) (n : ℕ) (rec : Record)
    → n ≤ length value
    → set_value value n (set_key id rec)
      ≡ record { head = rec.head; key_and_data = filled id value n rec.key_and_data }
unfolding set_value set_key overlay
set_value-set_key id value n rec h =
    let rest = drop registry_key_length rec.key_and_data in
    rw (
      take-append-at registry_key_length (strncpy registry_key_length id) rest (key_length id),
      drop-append-at registry_key_length (strncpy registry_key_length id) rest (key_length id),
      length-take_all n value h,
    )

pub filled-IsBytes :
    (id value : List ℕ) (n : ℕ) (buf : List ℕ)
    → IsBytes id
    → IsBytes value
    → IsBytes buf
    → IsBytes (filled id value n buf)
filled-IsBytes id value n buf i v b =
    IsBytes-append (strncpy registry_key_length id) _ (strncpy-IsBytes registry_key_length id i) (
      IsBytes-append (take n value) _ (IsBytes-take n value v)
        (IsBytes-drop n _ (IsBytes-drop registry_key_length buf b)))

-- The value, in a buffer that the record was read back to.
pub filled-value :
    (id value : List ℕ) (n k : ℕ) (buf other : List ℕ)
    → n ≤ length value
    → k ≤ n
    → take k (
        drop registry_key_length
          (overlay (take (n + registry_key_length) (filled id value n buf)) other))
      ≡ take k value
filled-value id value n k buf other h small =
    ap (λ t. take k t)
      (value_read (strncpy registry_key_length id) (take n value)
        (drop n (drop registry_key_length buf)) other registry_key_length n (key_length id)
        (length-take_all n value h))
    ∙ take_within k n value (drop (n + registry_key_length) other) small h
