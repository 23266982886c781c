-- ===== src/Strtab/Commands.antt =====
-- src/registry/strtabcmd.c: the commands of the shell for the string table. The world is what the
-- caller's `shell_out` changes; it is handed a line before `vsnprintf` makes a text of it.
pub mod Shown
use nvol.Base.{
  ℕ, zero, suc, ◌+◌, ◌-◌, ◌%◌, ◌^◌, ◌≡◌, List, [], ◌∷◌, Bool, true, false, Option, none, some, ltb,
  if◌then◌else◌, length,
}
use nvol.Base.Bytes.{overlay, inc32}
use nvol.Base.Integer.{ℤ, pos, negsuc}
use nvol.Base.State.{State, ◌>>=◌, ◌>>◌, pure, modify, on_part, on_part_run}
use nvol.Base.Status.{Status, eok, is_eok, Reply, len, failed}
use nvol.Dictionary.Keys.{c_string}
use nvol.Registry.Commands.{as_code, is_positive}
use nvol.Shell.Scan.{scan_decimal}
use nvol.Strtab.{
  Strtab, Item, strtab_lengt_max, strtab_get, strtab_set, strtab_valid, strtab_erase, strtab_first,
  strtab_next,
}

-- The lines that are printed: a string, an error, a string with its key, a number of entries, and the
-- answers.
pub data Line : Type 0 where
  string : List ℕ → Line
  error : ℤ → Line
  entry : ℕ → List ℕ → Line
  entries_found : ℕ → Line
  ok already_set : Line

-- The string table, and the world.
pub record Session (W : Type 0) : Type 0 where
  pub strtab : Strtab
  pub world : W

-- An int as a uint16_t.
unfoldable pub as_key : ℤ → ℕ
as_key (pos n) = n % 2 ^ 16
as_key (negsuc n) = 2 ^ 16 - 1 - n % 2 ^ 16

-- `sscanf (argv[1], "%d", &id)` into a zero, and the key; `unfit` is what a number that does not fit
-- leaves in `id`.
unfoldable pub key_of : (Bool × ℕ → ℤ) → List ℕ → ℕ
unfolding scan_decimal as_key
key_of unfit word = elim (scan_decimal unfit word) [ none ↦ 0 | some id ↦ as_key id ]

unfoldable pub as_result : Reply → ℤ
unfolding as_code
as_result (len n) = pos n
as_result (failed status) = as_code status

module _ {W : Type 0} (print : Line → W → W) where
  abbrev S : Type 0 → Type 0
  S = State (Session W)

  -- A call on the string table.
  abbrev pub on_strtab : {A : Type 0} → State Strtab A → S A
  on_strtab m = on_part (λ s. s.strtab) (λ strtab s. record s { strtab = strtab }) m

  pub on_strtab_run :
      {A : Type 0} (m : State Strtab A) (s : Session W) (a : A) (strtab : Strtab)
      → m s.strtab ≡ some (a, strtab)
      → on_strtab m s ≡ some (a, record s { strtab = strtab })
  on_strtab_run m s a strtab e =
      on_part_run (λ s. s.strtab) (λ strtab s. record s { strtab = strtab }) m s a strtab e

  unfoldable pub say : Line → S (Unit {0})
  say line = modify (λ s. record s { world = print line s.world })

  -- The loop over the entries, with fuel: the count. `value` is the buffer.
  unfoldable pub list_loop : ℕ → List ℕ → ℕ → Item → S ℕ
  unfolding say c_string
  list_loop zero value cnt item s = none
  list_loop (suc f) value cnt (failed status, found) s = some (cnt, s)
  list_loop (suc f) value cnt (len n, none) s = if ltb 0 n then none else some (cnt, s)
  list_loop (suc f) value cnt (len n, some (key, bytes)) s =
      let value' = overlay bytes value in
      (do
        say (entry key (c_string value'))
        item ← on_strtab (strtab_next strtab_lengt_max)
        list_loop f value' (inc32 cnt) item)
        s

  -- `corshell_strtaberase`
  unfoldable pub corshell_strtaberase : List (List ℕ) → S ℤ
  unfolding say
  corshell_strtaberase argv = do
    status ← on_strtab strtab_erase
    say (if is_eok status then ok else error (as_code status))
    pure (pos 0)

module _ {W : Type 0} (print : Line → W → W) (unfit : Bool × ℕ → ℤ) where
  -- `corshell_strtab` with the words of its line, of which the first is its name; `junk` is an
  -- uninitialised variable of the iterator, and `value` the buffer before it is written.
  unfoldable pub corshell_strtab : ℕ → ℕ → List ℕ → List (List ℕ) → State (Session W) ℤ
  unfolding list_loop say key_of as_result c_string is_positive
  corshell_strtab fuel junk value (name ∷ id ∷ []) = do
    (reply, bytes) ← on_strtab print (strtab_get (key_of unfit id) true strtab_lengt_max)
    say print (
        if is_positive reply
        then string (c_string (overlay bytes value))
        else error (as_result reply))
    pure (pos 0)
  corshell_strtab fuel junk value (name ∷ id ∷ text ∷ rest) = do
    status ← on_strtab print (strtab_set (key_of unfit id) text (length (c_string text) + 1))
    say print (if is_eok status then ok else error (as_code status))
    pure (pos 0)
  corshell_strtab fuel junk value argv = do
    item ← on_strtab print (strtab_first junk strtab_lengt_max)
    cnt ← list_loop print fuel value 0 item
    say print (entries_found cnt)
    pure (pos 0)

  -- `corshell_strtabchk`; `beyond` is what lies behind the key in memory.
  unfoldable pub corshell_strtabchk : ℕ → ℕ → List ℕ → List ℕ → List (List ℕ) → State (Session W) ℤ
  unfolding corshell_strtab say key_of
  corshell_strtabchk fuel junk value beyond (name ∷ id ∷ text ∷ rest) = do
    there ← on_strtab print (strtab_valid beyond (key_of unfit id))
    if is_eok there then (do say print already_set; pure (pos 0)) else (do
      status ← on_strtab print (strtab_set (key_of unfit id) text (length (c_string text) + 1))
      say print (if is_eok status then ok else error (as_code status))
      pure (pos 0))
  corshell_strtabchk fuel junk value beyond argv = corshell_strtab fuel junk value argv
