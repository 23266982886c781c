-- ===== src/Registry/Words.antt =====
-- src/registry/registry.c: the replacement of words by values of the registry, and its start and stop.
use nvol.Base.{ℕ, ◌+◌, ◌-◌, List, ◌++◌, Option, none, some, ltb, if◌then◌else◌, drop, replicate}
use nvol.Base.Status.{Status, eok, Reply, len, failed}
use nvol.Nvol.Volumes.{nvol3_unload}
use nvol.Nvol.{Record}
use nvol.Registry.{
  Registry, registry_key_length, registry_value_length_max, registry_config, on_volume, get_value,
  start_volume,
}
use nvol.Registry.Texts.{strncpy}
use nvol.Shell.Lists.{corshell_install, corshell_uninstall}
use nvol.Shell.{Lists}
use nvol.Strsub.{
  Answer, refused, Replace, Lookup, Strsub, token1, strsub_install_handler,
  strsub_uninstall_handler,
}

-- What the functions of the substitution work on: the static variables, and what `arg` leads to;
-- `none` is undefined behaviour.
abbrev pub Shared : Type 0 → Type 0
Shared A = Option (Registry × A)

-- `_registry_value`, cleared, with the `n` characters at `str` copied to its key. `strncpy` is given
-- `n` and not the size of the key, so that a long word runs on into the value.
unfoldable pub word_record : List ℕ → ℕ → Record
unfolding strncpy
word_record str n = record {
  head = record { flags = 0; length = 0; checksum = 0; reserved = 0 };
  key_and_data = strncpy n str ++ replicate (registry_key_length + registry_value_length_max - n) 0;
}

module _ {A : Type 0} where
  -- The end of `registry_strsub_cb`: the value is handed to `cb`.
  unfoldable pub hand_over : Replace (Shared A) → ℕ → Reply → Registry → A → Answer × Shared A
  hand_over cb offset (failed status) r a = (refused, some (r, a))
  hand_over cb offset (len n) r a =
      if ltb registry_key_length n
      then cb (drop registry_key_length r.value.key_and_data) (n - registry_key_length) offset
          (some (r, a))
      else (refused, some (r, a))

  -- `registry_strsub_cb`; a word longer than `_registry_value` is written beyond it.
  unfoldable pub registry_strsub_cb : Lookup (Shared A)
  unfolding word_record get_value hand_over
  registry_strsub_cb cb str n offset none = (refused, none)
  registry_strsub_cb cb str n offset (some (r, a)) =
      if ltb (registry_key_length + registry_value_length_max) n
      then (refused, none)
      else elim (get_value (record r { value = word_record str n })) [
        | none ↦ (refused, none)
        | some (reply, r') ↦ hand_over cb offset reply r' a
      ]

  -- `registry_start`; `node` is the address of `_registry_strsub`, and `list` that of the registry's
  -- list of commands, which is appended to the shell's by a walk of `walk` nodes at most.
  unfoldable pub registry_start :
      ℕ
      → ℕ
      → ℕ
      → Registry
      → Strsub (Shared A)
      → Lists
      → Option (Status × Registry × Strsub (Shared A) × Lists)
  unfolding start_volume strsub_install_handler registry_strsub_cb corshell_install
  registry_start walk node list r instance lists = elim (start_volume r) [
    | none ↦ none
    | some (status, r') ↦
        let (installed, instance') =
          strsub_install_handler instance token1 node registry_strsub_cb in
        elim (corshell_install walk lists list) [
          | none ↦ none
          | some lists' ↦ some (status, r', instance', lists')
        ]
  ]

  -- `registry_stop`; `fuel` bounds the walk over the handlers.
  unfoldable pub registry_stop :
      ℕ
      → ℕ
      → ℕ
      → ℕ
      → Registry
      → Strsub (Shared A)
      → Lists
      → Option (Status × Registry × Strsub (Shared A) × Lists)
  unfolding strsub_uninstall_handler corshell_uninstall
  registry_stop fuel walk node list r instance lists =
      elim (strsub_uninstall_handler fuel instance token1 node) [
        | none ↦ none
        | some instance' ↦ elim (corshell_uninstall walk lists list) [
          | none ↦ none
          | some lists' ↦ elim (on_volume (nvol3_unload registry_config) r) [
            | none ↦ none
            | some (_, r') ↦ some (eok, r', instance', lists')
          ]
        ]
      ]
