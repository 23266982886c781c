-- ===== src/Nvol/Keyed.antt =====
-- Records of src/nvram/nvol3.c with binary keys: a buffer with the bytes of a key, those of a value
-- behind it, and a rest, that is stored under a new key and read back.
use nvol.Base.{
  append_assoc, ℕ, ◌+◌, ◌*◌, ◌≤◌, ◌<◌, ◌≡◌, sym, ap, ◌∙◌, List, ◌++◌, true, none, some, arith,
  length, take, drop, take_append, drop_append, length-append,
}
use nvol.Base.Bytes.{overlay, load16}
use nvol.Base.Status.{eok, len}
use nvol.Dictionary.Keys.{binary_key, key_words}
use nvol.Dictionary.Keys.Laws.{IsKey, key_cmp-take}
use nvol.Dictionary.Table.{same, dict_lookup_congr}
use nvol.Dictionary.{Dictionary, dict_lookup}
use nvol.Flash.Content.{IsBytes}
use nvol.Flash.{IsNor}
use nvol.Nvol.Api.{ask_callback, nvol3_record_set, nvol3_record_get, clear_head}
use nvol.Nvol.Geometry.{IsConfig, max_length_lem}
use nvol.Nvol.RoundTrip.{Fits, new_record_of, read_back}
use nvol.Nvol.Set.{HasRoom, Sets, nvol3_record_set_new}
use nvol.Nvol.SetGet.{record_get-record_set_remote}
use nvol.Nvol.Slots.{Volume}
use nvol.Nvol.{Head, Record, Entry, Config, head_size}

pub take-append-at : (n : ℕ) (xs ys : List ℕ) → length xs ≡ n → take n (xs ++ ys) ≡ xs
take-append-at n xs ys h = ap (λ (k : ℕ). take k (xs ++ ys)) (sym h) ∙ take_append xs ys

pub drop-append-at : (n : ℕ) (xs ys : List ℕ) → length xs ≡ n → drop n (xs ++ ys) ≡ ys
drop-append-at n xs ys h = ap (λ (k : ℕ). drop k (xs ++ ys)) (sym h) ∙ drop_append xs ys

-- The value, in a buffer that the record was read back to.
pub value_read :
    (key value rest other : List ℕ) (ks n : ℕ)
    → length key ≡ ks
    → length value ≡ n
    → drop ks (overlay (take (n + ks) (key ++ (value ++ rest))) other)
      ≡ value ++ drop (n + ks) other
unfolding overlay
value_read key value rest other ks n k v =
    let total : length (key ++ value) ≡ n + ks = rw length-append (omega (arith, k, v)) in
    let both : take (n + ks) (key ++ (value ++ rest)) ≡ key ++ value =
      ap (λ t. take (n + ks) t) (sym (append_assoc key value rest))
      ∙ take-append-at (n + ks) (key ++ value) rest total in
    rw (both, total)
      (ap (λ t. drop ks t) (append_assoc key value (drop (n + ks) other))
        ∙ drop-append-at ks key (value ++ drop (n + ks) other) k)

bytes-IsKey : (s : List ℕ) → IsBytes s → IsKey s
unfolding load16
bytes-IsKey s h = omega (arith, h 0, h 1)

-- The keys that two buffers begin with are the same key.
same_key :
    (dict : Dictionary Entry) (keyspec : ℕ) (s q : List ℕ)
    → dict.key ≡ binary_key
    → dict.keyspec ≡ keyspec
    → take (4 * key_words keyspec) s ≡ take (4 * key_words keyspec) q
    → same dict s q ≡ true
same_key dict keyspec s q k w h = rw (k, w) (key_cmp-take keyspec s q h)

-- A volume in use with room, whose lookup table has binary keys as the configuration tells.
pub record IsOpen (config : Config) (nor : IsNor config.flash) (c : IsConfig config)
    (s : Volume config) (dict : Dictionary Entry) : Type 0 where
  pub room : HasRoom config nor c s dict
  pub key : dict.key ≡ binary_key
  pub keyspec : dict.keyspec ≡ config.keyspec
  pub words : 4 * key_words config.keyspec ≡ config.key_size
  pub remote : config.local_size ≡ 0

-- A key and a value that fit a record.
pub record IsPair (config : Config) (key value : List ℕ) (n : ℕ) : Type 0 where
  pub width : length key ≡ config.key_size
  pub count : length value ≡ n
  pub some_bytes : 0 < n
  pub short : n + config.key_size + head_size ≤ config.record_size

module _ (config : Config) (nor : IsNor config.flash) (c : IsConfig config) (s : Volume config)
    (dict : Dictionary Entry) (is : IsOpen config nor c s dict) (key value rest : List ℕ) (n : ℕ)
    (pair : IsPair config key value n) (small : IsBytes (key ++ (value ++ rest))) where
  abbrev bytes : List ℕ
  bytes = key ++ (value ++ rest)

  abbrev size : ℕ
  size = n + config.key_size

  pair-Fits : Fits config nor c size bytes
  pair-Fits = record {
    some_bytes = omega (arith, pair.some_bytes);
    enough = rw (length-append, length-append) (omega (arith, pair.width, pair.count));
    short = omega (arith, pair.short, max_length_lem config c, c.record_room);
    bytes = small;
  }

  -- What the volume becomes.
  abbrev pub SetsPair : Volume config → Dictionary Entry → Type 0
  SetsPair s' dict' = Sets config nor c s s' dict dict' size bytes

  key-bytes : (rec : List ℕ) → take config.key_size rec ≡ key → same dict bytes rec ≡ true
  key-bytes rec h =
      same_key dict config.keyspec bytes rec is.key is.keyspec
        (rw is.words (take-append-at config.key_size key (value ++ rest) pair.width ∙ sym h))

  -- What a later reading of the key gives.
  pub get_stored :
      (s' : Volume config) (dict' : Dictionary Entry)
      → SetsPair s' dict'
      → (rec : Record) → take config.key_size rec.key_and_data ≡ key
      → nvol3_record_get config rec s'
        ≡ some ((len size, read_back size bytes (clear_head config rec)), s')
  get_stored s' dict' sets rec named =
      record_get-record_set_remote config nor c s s' dict dict' size bytes is.room pair-Fits sets
        rec (key-bytes rec.key_and_data named) (omega arith)
        (omega (arith, pair.some_bytes, is.remote))

  -- The key is not in the table yet.
  pub set_stored :
      (head : Head) (rec : List ℕ)
      → take config.key_size rec ≡ key
      → dict_lookup dict rec ≡ none
      → ask_callback config (new_record_of config nor c size bytes) ≡ eok
      → (s' : Volume config) × (dict' : Dictionary Entry) × (nvol3_record_set config
            (record { head = head; key_and_data = bytes })
            size
            s
          ≡ some (eok, s'))
        × SetsPair s' dict'
  set_stored head rec named absent accepts =
      nvol3_record_set_new config nor c s dict (record { head = head; key_and_data = bytes }) size
        is.room (dict_lookup_congr dict bytes rec (key-bytes rec named) ∙ absent) pair-Fits
        (bytes-IsKey bytes small) accepts
