-- ===== src/Shell/Help.antt =====
-- The commands of src/shell/corshell.c itself: `rem`, `nop`, `help` and `?`; and `corshell_cmd_help`.
pub mod Bounds
use nvol.Base.{
  ℕ, zero, suc, ◌==◌, ◌+◌, ◌-◌, ◌%◌, ◌^◌, List, [], ◌∷◌, ◌++◌, Bool, true, false, Option, none,
  some, ltb, leb, not, ◌&&◌, ◌||◌, if◌then◌else◌, length, take,
}
use nvol.Base.Integer.{ℤ, pos, negsuc}
use nvol.Dictionary.Keys.{c_string}
use nvol.Registry.Texts.{strcmp}
use Prim.Native.Nat.{Ordering}
use nvol.Shell.Scan.{corshell_scan_int}
use nvol.Shell.{
  Command, Iterator, Lists, Loop, leave, go_on, Shell, ShellOut, cmd_first, cmd_get, for_commands,
  argument, out_std, command_help, corshell_print,
}
use nvol.Strsub.Sink.{write_bytes}

-- `cmd->cmd`, of a command that is there.
unfoldable pub name_at : Lists → Iterator → List ℕ
unfolding cmd_get
name_at lists it = elim (cmd_get lists it) [ none ↦ [] | some cmd ↦ cmd.cmd ]

-- `_cmd_cmp`
unfoldable pub cmd_cmp : Lists → Iterator → Iterator → Ordering
unfolding name_at strcmp
cmd_cmp lists it1 it2 = strcmp (name_at lists it1) (name_at lists it2)

unfoldable pub is_lt : Ordering → Bool
is_lt Ordering.lt = true
is_lt _ = false

unfoldable pub is_gt : Ordering → Bool
is_gt Ordering.gt = true
is_gt _ = false

-- `strstr (text, word) != 0`
unfoldable pub starts_with : List ℕ → List ℕ → Bool
starts_with text [] = true
starts_with [] (c ∷ word) = false
starts_with (d ∷ text) (c ∷ word) = d == c && starts_with text word

unfoldable pub strstr : List ℕ → List ℕ → Bool
unfolding starts_with
strstr [] word = starts_with [] word
strstr (d ∷ text) word = starts_with (d ∷ text) word || strstr text word

-- `_cmd_cmp (it, other) <= 0`
unfoldable pub is_le : Ordering → Bool
unfolding is_gt
is_le o = not (is_gt o)

-- The body of the first loop of `corshell_help`: `firstit`, `nextit` and `lastit`.
abbrev pub Ends : Type 0
Ends = Iterator × Iterator × Iterator

unfoldable pub find_ends : Lists → Iterator → Command → Ends → Option (Loop Ends)
unfolding cmd_cmp is_lt is_gt
find_ends lists it cmd (firstit, nextit, lastit) =
    let below = is_lt (cmd_cmp lists it firstit) in
    some (
      go_on (
        if below then it else firstit,
        if below then it else nextit,
        if is_gt (cmd_cmp lists it lastit) then it else lastit,
      ))

-- The body of the inner loop: `nextit` and `found`.
unfoldable pub find_next :
    Lists → Iterator → Iterator → Command → Iterator × Bool → Option (Loop (Iterator × Bool))
unfolding cmd_cmp is_lt is_le
find_next lists firstit it cmd (nextit, found) = some (
    go_on (
      if is_le (cmd_cmp lists it firstit)
      then (nextit, found)
      else if is_lt (cmd_cmp lists it nextit)
      then (it, true)
      else (nextit, found)))

module _ {W : Type 0} (shell_out : ShellOut W) where
  -- `_cmd_help`; `none` reads a null pointer.
  unfoldable pub cmd_help : Iterator → Option (List ℕ) → Shell W → Option (Shell W)
  unfolding cmd_get corshell_print strstr
  cmd_help it filter s = elim (cmd_get s.lists it) [
    | none ↦ none
    | some cmd ↦ elim cmd.usage [
      | none ↦ some s
      | some text ↦ some (
          if elim filter [ none ↦ true | some word ↦ strstr (c_string cmd.cmd) (c_string word) ]
          then corshell_print shell_out out_std (command_help cmd.cmd text) s
          else s)
    ]
  ]

  -- The `do` loop of `corshell_help`, where `_cmd_cmp` would read a name that is not there, with fuel
  -- for its rounds and for the walks over the commands.
  unfoldable pub help_loop :
      ℕ → ℕ → Option (List ℕ) → Iterator → Iterator → Iterator → Shell W → Option (Shell W)
  unfolding cmd_help find_next
  help_loop zero walk filter firstit nextit lastit s = none
  help_loop (suc f) walk filter firstit nextit lastit s = elim (cmd_help nextit filter s) [
    | none ↦ none
    | some s' ↦
        elim (for_commands walk s'.lists (λ a. none) (find_next s'.lists firstit) cmd_first
          (lastit, false)) [
            | none ↦ none
            | some (it, found) ↦ elim found [
              | true ↦ help_loop f walk filter it it lastit s'
              | false ↦ cmd_help it filter s'
            ]
          ]
  ]

  -- `corshell_help` and `corshell_help2`
  unfoldable pub corshell_help : ℕ → ℕ → List (List ℕ) → Shell W → Option (ℤ × Shell W)
  unfolding for_commands find_ends help_loop argument
  corshell_help fuel walk argv s =
      elim (for_commands walk s.lists (λ a. none) (find_ends s.lists) cmd_first
        (cmd_first, cmd_first, cmd_first)) [
          | none ↦ none
          | some (firstit, nextit, lastit) ↦
              elim (help_loop fuel walk
                (if leb (length argv) 1 then none else some (argument argv 1)) firstit nextit lastit
                s) [ none ↦ none | some s' ↦ some (pos 0, s') ]
        ]

  unfoldable pub corshell_help2 : ℕ → ℕ → List (List ℕ) → Shell W → Option (ℤ × Shell W)
  unfolding corshell_help
  corshell_help2 fuel walk argv s = corshell_help fuel walk argv s

-- `corshell_rem`
unfoldable pub corshell_rem : {W : Type 0} → List (List ℕ) → Shell W → Option (ℤ × Shell W)
corshell_rem argv s = some (pos 0, s)

-- The 32 bits as an int32_t.
unfoldable pub as_int32 : ℕ → ℤ
as_int32 n = if ltb n (2 ^ 31) then pos n else negsuc (2 ^ 32 - 1 - n)

-- `corshell_nop`; `unfit` is what `sscanf` stores for a number that does not fit.
unfoldable pub corshell_nop :
    {W : Type 0} → (Bool × ℕ → ℕ) → List (List ℕ) → Shell W → Option (ℤ × Shell W)
unfolding argument corshell_scan_int as_int32
corshell_nop unfit argv s = some (
  if leb (length argv) 1 then pos 0 else as_int32 (corshell_scan_int unfit (argument argv 1) 0).1,
  s,
)

-- `"%s %s\r\n"`
unfoldable pub help_line : List ℕ → List ℕ → List ℕ
unfolding c_string
help_line cmd usage = c_string cmd ++ 32 ∷ c_string usage ++ 13 ∷ 10 ∷ []

-- `snprintf (&buffer[offset], len - offset, ...)` of that text: what it writes. The buffer has room
-- for the NUL at least.
unfoldable pub print_at : (ℕ → ℕ) → ℕ → ℕ → List ℕ → ℕ → ℕ
unfolding write_bytes
print_at cell at size text = write_bytes cell at (take (size - 1) text ++ 0 ∷ [])

-- The body of the loop of `corshell_cmd_help`: the offset, and the memory with the buffer.
unfoldable pub add_help : ℕ → ℕ → Iterator → Command → ℕ × (ℕ → ℕ) → Option (Loop (ℕ × (ℕ → ℕ)))
unfolding help_line print_at c_string
add_help dst len it cmd (offset, cell) = elim cmd.usage [
  | none ↦ some (go_on (offset, cell))
  | some usage ↦
      let l = (length (c_string usage) + length (c_string cmd.cmd)) % 2 ^ 32 in
      let text = help_line cmd.cmd usage in
      if leb ((offset + 3) % 2 ^ 32) len
      then (if ltb ((offset + l + 4) % 2 ^ 32) len
          then some (
              go_on
                ((offset + length text) % 2 ^ 32, print_at cell (dst + offset) (len - offset) text))
          else some (leave (offset, cell)))
      else some (go_on (offset, cell))
]

-- `corshell_cmd_help` with the buffer of `len` bytes at `dst`
unfoldable pub corshell_cmd_help : ℕ → Lists → (ℕ → ℕ) → ℕ → ℕ → Option (ℕ × (ℕ → ℕ))
unfolding for_commands add_help
corshell_cmd_help fuel lists cell dst len =
    elim (for_commands fuel lists (λ a. some (go_on a)) (add_help dst len) cmd_first (0, cell)) [
      | none ↦ none
      | some (offset, cell') ↦ some ((offset + 1) % 2 ^ 32, cell')
    ]
