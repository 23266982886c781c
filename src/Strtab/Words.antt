-- ===== src/Strtab/Words.antt =====
-- src/registry/strtab.c: the replacement of numbers by strings of the table. `sscanf` is the C
-- library's, and a parameter.
use nvol.Base.{ℕ, ◌-◌, List, Option, none, some, ltb, if◌then◌else◌, drop}
use nvol.Base.Status.{Status, eok, Reply, len, failed}
use nvol.Strsub.{Answer, refused, Replace, Lookup, Strsub, token3, strsub_install_handler}
use nvol.Strtab.{Strtab, strtab_key_size, set_key, get_record}

-- What `sscanf (str, "%u", &n)` does: it assigns a number and returns 1, returns 0, or returns EOF.
pub data Scan : Type 0 where
  converted : ℕ → Scan
  mismatch end_of_input : Scan

-- What the functions of the substitution work on; `none` is undefined behaviour.
abbrev pub Shared : Type 0 → Type 0
Shared A = Option (Strtab × A)

-- The key that `sscanf` leaves in the buffer, unless it returns 0.
unfoldable pub scanned : Scan → Strtab → Option Strtab
unfolding set_key
scanned (converted n) t = some (record t { buffer = set_key n t.buffer })
scanned mismatch t = none
scanned end_of_input t = some t

module _ (sscanf : List ℕ → Scan) {A : Type 0} where
  -- The end of `strtab_strsub_cb`: the string is handed to `cb`.
  unfoldable pub hand_over : Replace (Shared A) → ℕ → Reply → Strtab → A → Answer × Shared A
  hand_over cb offset (failed status) t a = (refused, some (t, a))
  hand_over cb offset (len n) t a =
      if ltb strtab_key_size n
      then cb (drop strtab_key_size t.buffer.key_and_data) (n - strtab_key_size) offset
          (some (t, a))
      else (refused, some (t, a))

  -- `strtab_strsub_cb`; it does not look at the length of the word, and not whether the table is loaded.
  unfoldable pub strtab_strsub_cb : Lookup (Shared A)
  unfolding scanned get_record hand_over
  strtab_strsub_cb cb str n offset none = (refused, none)
  strtab_strsub_cb cb str n offset (some (t, a)) = elim (scanned (sscanf str) t) [
    | none ↦ (refused, some (t, a))
    | some t1 ↦ elim (get_record t1) [
      | none ↦ (refused, none)
      | some (reply, t2) ↦ hand_over cb offset reply t2 a
    ]
  ]

  -- `strtab_init`; `node` is the address of `_strtab_strsub`.
  unfoldable pub strtab_init : ℕ → Strsub (Shared A) → Status × Strsub (Shared A)
  unfolding strsub_install_handler strtab_strsub_cb
  strtab_init node instance =
      (eok, (strsub_install_handler instance token3 node strtab_strsub_cb).1)
