-- ===== src/Examples/Tables.antt =====
-- Examples of src/common/dictionary.c, on dictionaries of USHORT keys.
use nvol.Base.{
  ℕ, suc, ◌+◌, ◌*◌, ◌^◌, ◌≤◌, ◌≡◌, ◌↔◌, refl, List, [], ◌∷◌, none, some, true, false, arith,
  if◌then◌else◌,
}
use nvol.Base.Heap.{Heap, Allocated}
use nvol.Dictionary.Clear.{dictionary_remove_all_lem}
use nvol.Dictionary.Fresh.{IsBelow, made, reinstall_lem}
use nvol.Dictionary.Init.{empty_table-IsValid, empty_table-absent}
use nvol.Dictionary.Install.{Installs, dictionary_install_size_lem}
use nvol.Dictionary.Keys.{str_key, key_type, key_cmp, strcmp_eq}
use nvol.Dictionary.Remove.{dictionary_remove_lem}
use nvol.Dictionary.Table.{same, IsValid}
use nvol.Dictionary.{
  Dictionary, dict_lookup, dictionary_install_size, dictionary_remove, dictionary_remove_all,
  write_value,
}
use nvol.Examples.{calm_heap, empty_dict, short_bytes, short_bytes-IsKey}

-- A dictionary of numbers with no node.
abbrev numbers : Dictionary ℕ
numbers = empty_dict

numbers-IsValid : IsValid numbers
unfolding key_type
numbers-IsValid = empty_table-IsValid (3 * 2 ^ 16) 2 (omega arith)

dictionary_install_size_example :
    Installs numbers short_bytes (dictionary_install_size numbers short_bytes 0 calm_heap)
dictionary_install_size_example =
    dictionary_install_size_lem numbers short_bytes 0 calm_heap numbers-IsValid short_bytes-IsKey
      (omega arith)

filled :
    (dict' : Dictionary ℕ) × (heap' : Heap) × (dictionary_install_size
        (dictionary_remove numbers short_bytes).1
        short_bytes
        0
        calm_heap
      ≡ (some 100, dict', heap'))
    × Allocated calm_heap heap'
    × IsValid (write_value dict' 100 suc)
    × ((q : List ℕ)
        → dict_lookup (write_value dict' 100 suc) q ≡ (
            if same numbers short_bytes q
            then some (made numbers short_bytes 100 1)
            else dict_lookup numbers q))
    × IsBelow (write_value dict' 100 suc) heap'.next
    × ((write_value dict' 100 suc).count ≤ 0 + 1)
unfolding key_type
filled =
    reinstall_lem numbers short_bytes 0 calm_heap suc numbers-IsValid short_bytes-IsKey
      (omega arith) (λ q np h. let e = empty_table-absent {V = ℕ} (3 * 2 ^ 16) 2 q in absurd (cc))
      refl

-- The dictionary with the number 1 for key 7.
abbrev one_number : Dictionary ℕ
one_number = write_value filled.0 100 suc

dictionary_remove_example :
    let r = dictionary_remove one_number short_bytes in
    ((r.0 ≡ false) ↔ (dict_lookup one_number short_bytes ≡ none))
    × ((q : List ℕ)
        → dict_lookup r.1 q
          ≡ (if same one_number short_bytes q then none else dict_lookup one_number q))
    × IsValid r.1
dictionary_remove_example =
    dictionary_remove_lem one_number filled.4 short_bytes (omega (arith, filled.7))

dictionary_remove_all_example :
    let r = dictionary_remove_all one_number in
    (r.count ≡ 0)
    × ((q : List ℕ) → dict_lookup r q ≡ none)
    × IsValid r
    × (r.key ≡ one_number.key)
    × (r.keyspec ≡ one_number.keyspec)
    × (r.hashsize ≡ one_number.hashsize)
dictionary_remove_all_example =
    dictionary_remove_all_lem one_number filled.4 (omega (arith, filled.7))

-- The strings "a" and "a" with different bytes behind them.
abbrev text : List ℕ
text = 97 ∷ 0 ∷ 1 ∷ []

abbrev same_text : List ℕ
same_text = 97 ∷ 0 ∷ 2 ∷ []

same_key : key_cmp str_key 0 text same_text ≡ true
unfolding key_cmp strcmp_eq
same_key = refl
