-- ===== src/Registry/Commands.antt =====
-- src/registry/registrycmd.c: the commands of the shell for the registry. The world is what the
-- caller's `shell_out` changes; it is handed a line before `vsnprintf` makes a text of it. A string is
-- the list of its bytes, and an argument behind the last is the empty list.
pub mod Shown
use nvol.Base.{
  ℕ, zero, suc, ◌+◌, ◌-◌, ◌≡◌, List, [], ◌∷◌, ◌++◌, Bool, true, false, Option, none, some, ltb,
  ◌==◌, if◌then◌else◌, length, take, replicate,
}
use nvol.Base.Bytes.{overlay, inc32}
use nvol.Base.Integer.{ℤ, pos, negsuc}
use nvol.Base.State.{State, ◌>>=◌, ◌>>◌, pure, get, modify, on_part, on_part_run}
use nvol.Base.Status.{Status, eok, is_eok, magnitude, Reply, len, failed}
use nvol.Dictionary.Keys.{c_string}
use nvol.Registry.{
  Registry, Item, registry_value_length_max, registry_value_get, registry_value_set,
  registry_value_delete, registry_erase, registry_first, registry_next,
}
use nvol.Shell.Help.{strstr}
use nvol.Shell.{argument}

-- The lines that are printed: a name with its value, a number of entries, and the answers.
pub data Line : Type 0 where
  shown : List ℕ → List ℕ → Line
  entries_found : ℕ → Line
  setting_exists : List ℕ → Line
  answer : Bool → Line

-- The registry, and the world.
pub record Session (W : Type 0) : Type 0 where
  pub registry : Registry
  pub world : W

-- A status as the int32_t that a command returns.
unfoldable pub as_code : Status → ℤ
as_code eok = pos 0
as_code status = negsuc (magnitude status - 1)

-- `res > 0`
unfoldable pub is_positive : Reply → Bool
is_positive (len n) = ltb 0 n
is_positive (failed status) = false

module _ {W : Type 0} (print : Line → W → W) where
  abbrev S : Type 0 → Type 0
  S = State (Session W)

  -- A call on the registry.
  abbrev pub on_registry : {A : Type 0} → State Registry A → S A
  on_registry m = on_part (λ s. s.registry) (λ registry s. record s { registry = registry }) m

  pub on_registry_run :
      {A : Type 0} (m : State Registry A) (s : Session W) (a : A) (registry : Registry)
      → m s.registry ≡ some (a, registry)
      → on_registry m s ≡ some (a, record s { registry = registry })
  on_registry_run m s a registry e =
      on_part_run (λ s. s.registry) (λ registry s. record s { registry = registry }) m s a registry
        e

  unfoldable pub say : Line → S (Unit {0})
  say line = modify (λ s. record s { world = print line s.world })

  -- `reg_print`: the name and its colon are cut off after 39 characters.
  unfoldable pub reg_print : List ℕ → List ℕ → S (Unit {0})
  unfolding say c_string
  reg_print key value = say (shown (take 39 (c_string key ++ 58 ∷ [])) (c_string value))

  unfoldable pub passes_filter : Option (List ℕ) → List ℕ → Bool
  unfolding strstr
  passes_filter none key = true
  passes_filter (some search) key = strstr (c_string key) (c_string search)

  -- The loop of `reg_show`, with fuel: the count. `value` is the caller's buffer.
  unfoldable pub show_loop : ℕ → Option (List ℕ) → List ℕ → ℕ → Item → S ℕ
  unfolding reg_print passes_filter
  show_loop zero search value cnt item s = none
  show_loop (suc f) search value cnt (failed status, key, bytes) s = some (cnt, s)
  show_loop (suc f) search value cnt (len n, none, bytes) s = none
  show_loop (suc f) search value cnt (len n, some key, bytes) s =
      let value' = overlay bytes value in
      (do
        cnt' ←
            if passes_filter search key
            then (do reg_print key value'; pure (inc32 cnt))
            else pure cnt
        item ← on_registry (registry_next (length value))
        show_loop f search value' cnt' item)
        s

  -- `reg_show`; `junk` is an uninitialised variable of the iterator.
  unfoldable pub reg_show : ℕ → ℕ → Option (List ℕ) → List ℕ → S ℕ
  unfolding show_loop
  reg_show fuel junk search value = do
    item ← on_registry (registry_first junk (length value))
    show_loop fuel search value 0 item

  -- `corshell_reg` with the words of its line, of which the first is its name; `value` is the buffer
  -- before it is written.
  unfoldable pub corshell_reg : ℕ → ℕ → List ℕ → List (List ℕ) → S ℤ
  unfolding reg_show reg_print is_positive say c_string
  corshell_reg fuel junk value (name ∷ []) = do
    cnt ← reg_show fuel junk none value
    say (entries_found cnt)
    pure (pos 0)
  corshell_reg fuel junk value (name ∷ key ∷ []) = do
    (reply, bytes) ← on_registry (registry_value_get (some key) registry_value_length_max)
    if is_positive reply then (do reg_print key (overlay bytes value); pure (pos 0)) else (do
      cnt ← reg_show fuel junk (some key) (overlay bytes value)
      say (entries_found cnt)
      pure (pos 0))
  corshell_reg fuel junk value (name ∷ key ∷ text ∷ []) = do
    status ← on_registry (registry_value_set (some key) (some text) (length (c_string text) + 1))
    say (answer (is_eok status))
    pure (pos 0)
  corshell_reg fuel junk value argv = pure (pos 0)

  unfoldable pub add_value : List ℕ → List ℕ → Reply → S ℤ
  unfolding say as_code c_string
  add_value key text (len n) = do say (setting_exists key); pure (negsuc 10)
  add_value key text (failed status) = do
    status ← on_registry (registry_value_set (some key) (some text) (length (c_string text) + 1))
    say (answer (is_eok status))
    pure (as_code status)

  -- `corshell_regadd`
  unfoldable pub corshell_regadd : List (List ℕ) → S ℤ
  unfolding add_value
  corshell_regadd (name ∷ key ∷ text ∷ rest) = do
    (reply, bytes) ← on_registry (registry_value_get (some key) registry_value_length_max)
    add_value key text reply
  corshell_regadd argv = pure (negsuc 2)

  -- `corshell_regdel`
  unfoldable pub corshell_regdel : List (List ℕ) → S ℤ
  unfolding say
  corshell_regdel (name ∷ key ∷ []) = do
    status ← on_registry (registry_value_delete (some key))
    say (answer (is_eok status))
    pure (pos 0)
  corshell_regdel argv = pure (negsuc 2)

  -- `corshell_regerase`
  unfoldable pub corshell_regerase : List (List ℕ) → S ℤ
  corshell_regerase argv = do _ ← on_registry registry_erase; pure (pos 0)
