-- ===== src/Strtab/Valid.antt =====
-- `strtab_valid` of src/registry/strtab.c, which reads two bytes more than its key has.
use nvol.Base.{
  ℕ, ◌+◌, ◌*◌, ◌^◌, ◌≤◌, ◌<◌, ◌≡◌, refl, ap, ◌∙◌, List, [], ◌∷◌, ◌++◌, Bool, Option, true, false,
  none, some, arith, ◌==◌, if◌then◌else◌, Option-cases, inl, inr,
}
use nvol.Base.Bytes.{bytes32, bytes16, load32, load32-bytes32}
use nvol.Base.Status.{Status, eok, e_notfound}
use nvol.Dictionary.Keys.{binary_key, key_cmp, binary_cmp_loop}
use nvol.Dictionary.Table.{same}
use nvol.Dictionary.{Dictionary, Node, dict_lookup, dictionary_get}
use nvol.Flash.Content.{IsBytes}
use nvol.Flash.{IsNor}
use nvol.Nvol.Geometry.{IsConfig}
use nvol.Nvol.Api.{nvol3_record_status}
use nvol.Nvol.Set.{has_dict}
use nvol.Nvol.{Entry, Config, bind_run, get_dict}
use nvol.Nvol.Slots.{Volume}
use nvol.Ramdrv.Nor.{ramdrv-IsNor}
use nvol.Strtab.SetGet.{
  bytes, repo3_string_config-IsConfig, IsOpen, IsNew, strtab_set_new, when_loaded_run,
}
use nvol.Strtab.{
  Strtab, strtab_lengt_max, repo3_string_config, on_volume_run, strtab_set, strtab_valid,
}

-- Whether a lookup found a node, as a status.
pub found_status : Option (Node Entry) → Status
found_status none = e_notfound
found_status (some np) = eok

found_choice :
    (b : Bool) (np : Node Entry) (o : Option (Node Entry))
    → o ≡ none
    → found_status (if b then some np else o) ≡ (if b then eok else e_notfound)
unfolding found_status
found_choice true np o e = refl
found_choice false np o e = ap found_status e

if_self : (b : Bool) → (if b then true else false) ≡ b
if_self true = refl
if_self false = refl

record_status_lem :
    (config : Config) (nor : IsNor config.flash) (c : IsConfig config) (s : Volume config)
    (dict : Dictionary Entry) (key : List ℕ)
    → s.dict ≡ some dict
    → nvol3_record_status config key s ≡ some (found_status (dict_lookup dict key), s)
unfolding nvol3_record_status dictionary_get found_status
record_status_lem config nor c s dict key e =
    bind_run get_dict _ s s dict (has_dict config nor c s dict e)
    ∙ elim (Option-cases (dict_lookup dict key)) [
      | inl none_there ↦ simp none_there
      | inr (np, there) ↦ simp there
    ]

-- The number that the key and the bytes beyond it make is the key itself if those are zero.
same_number :
    (dict : Dictionary Entry) (key b0 b1 : ℕ) (rest : List ℕ)
    → dict.key ≡ binary_key
    → dict.keyspec ≡ 4 * 2 ^ 16 + 1
    → key < 2 ^ 16
    → b0 < 256
    → b1 < 256
    → same dict (bytes32 key ++ rest) (bytes16 key ++ (b0 ∷ b1 ∷ [])) ≡ (b0 + 256 * b1 == 0)
unfolding key_cmp bytes16 bytes32 load32
same_number dict key b0 b1 rest k w h h0 h1 =
    let both : load32 (bytes16 key ++ (b0 ∷ b1 ∷ [])) ≡ key + 65536 * (b0 + 256 * b1) =
      omega arith in
    let mine : load32 (bytes32 key ++ rest) ≡ key = load32-bytes32 key rest (omega arith) in
    let rule : ((key + 65536 * (b0 + 256 * b1)) == key) ≡ (b0 + 256 * b1 == 0) = ground arith in
    simp (k, w, key_cmp, binary_cmp_loop, both, mine, rule) (if_self (b0 + 256 * b1 == 0))

module _ (t : Strtab) (dict : Dictionary Entry) (key : ℕ) (value : List ℕ) (n : ℕ)
    (is : IsOpen t dict) (content : IsBytes value) (some_bytes : 0 < n)
    (short : n ≤ strtab_lengt_max) where
  -- After `strtab_set` of a new 16-bit key in a string table in use with room, `strtab_valid` finds
  -- the key if the two bytes that lie beyond its argument are zero. If they are not, and the table has
  -- no key that is the 32-bit number they make with it, it reports the key as not found.
  -- In both cases it changes nothing.
  pub strtab_valid-strtab_set :
      (b0 b1 : ℕ)
      → IsNew t dict key value n is content some_bytes short
      → key < 2 ^ 16
      → b0 < 256
      → b1 < 256
      → dict_lookup dict (bytes16 key ++ (b0 ∷ b1 ∷ [])) ≡ none
      → (t' : Strtab) × (strtab_set key value n t ≡ some (eok, t'))
        × (strtab_valid (b0 ∷ b1 ∷ []) key t'
            ≡ some ((if b0 + 256 * b1 == 0 then eok else e_notfound), t'))
  unfolding strtab_valid
  strtab_valid-strtab_set b0 b1 absent h h0 h1 other =
      let (s', dict', run, sets) =
        strtab_set_new t dict key value n is content some_bytes short absent in
      let t' : Strtab = record t {
        volume = s';
        buffer = record {
          head = t.buffer.head;
          key_and_data = bytes t dict key value n is content some_bytes short;
        };
      } in
      let key' = bytes16 key ++ (b0 ∷ b1 ∷ []) in
      let found : found_status (dict_lookup dict' key')
          ≡ (if b0 + 256 * b1 == 0 then eok else e_notfound) =
        ap found_status (sets.enters key')
        ∙ found_choice _ _ (dict_lookup dict key') other
        ∙ ap (λ (b : Bool). if b then eok else e_notfound)
            (same_number dict key b0 b1 _ is.volume.key is.volume.keyspec h h0 h1) in
      (
        t',
        run,
        when_loaded_run _ _ t' dict' sets.loaded
            ∙ on_volume_run (nvol3_record_status repo3_string_config key') t'
                (found_status (dict_lookup dict' key')) s'
                (record_status_lem repo3_string_config ramdrv-IsNor repo3_string_config-IsConfig s'
                  dict' key' sets.loaded)
            ∙ ap (λ (x : Status). some (x, t')) found,
      )
