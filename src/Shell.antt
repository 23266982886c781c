-- ===== src/Shell.antt =====
-- src/shell/corshell.c and corshell.h: the lists of commands, and what runs a command line. Lists are
-- nodes that their owners provide, so they stand in a memory, and 0 is the null pointer. The
-- function of a command is its address; what the code there does is the parameter `call`. A
-- caller's `shell_out` is a parameter as well; it is handed the message before `vsnprintf` makes
-- a text of it. A string is the list of its bytes, and what lies past its end reads as 0.
pub mod Lists
pub mod Split
pub mod Lines
pub mod Chain
pub mod Runs
pub mod Script
pub mod Scan
pub mod Help
use nvol.Base.{
  ℕ, zero, suc, List, [], ◌∷◌, Bool, true, false, Option, none, some, leb, ◌==◌, not, ◌&&◌, ◌||◌,
  if◌then◌else◌, get_or, length,
}
use nvol.Base.Bytes.{inc32}
use nvol.Base.Heap.{Heap}
use nvol.Base.Integer.{ℤ, pos, negsuc, ◌==ℤ◌}
use nvol.Dictionary.Keys.{strcmp_eq}

-- `CORSHELL_CMD_T`
pub record Command : Type 0 where
  pub cmd : List ℕ
  pub fp : ℕ
  pub usage : Option (List ℕ)

-- `CORSHELL_CMD_LIST_T`: `cmds` is null, or an array in which an entry without a name, which has no usage
-- either, is `none`.
pub record CommandList : Type 0 where
  pub next : ℕ
  pub cmds : Option (ℕ → Option Command)
  pub cnt : ℕ

abbrev pub Lists : Type 0
Lists = ℕ → CommandList

-- The address of `_corshell_static_list`.
abbrev pub static_list : ℕ
static_list = 1

-- `CORSHELL_CMD_LIST_IT_T`
pub record Iterator : Type 0 where
  pub lst : ℕ
  pub idx : ℕ

-- `CORSHELL_OUT_STD`, `CORSHELL_OUT_ERR` and `CORSHELL_OUT_NULL`
pub data Out : Type 0 where
  out_null out_std out_err : Out

-- What is printed: the format of the source is the constructor, its arguments are the fields.
pub data Message : Type 0 where
  command_help command_usage : List ℕ → List ℕ → Message
  command_not_found : List ℕ → Message
  script_exit : List ℕ → ℕ → Message
  script_onerror script_clearerror : List ℕ → ℤ → ℕ → Message
  script_error : List ℕ → List ℕ → List ℕ → ℤ → List ℕ → ℕ → Message
  script_cancelled : List ℕ → List ℕ → List ℕ → ℤ → ℕ → Message

-- `_cmd_first`
unfoldable pub cmd_first : Iterator
cmd_first = record { lst = static_list; idx = 0 }

-- Whether the pointer to the first command of the list is null.
unfoldable pub no_commands : Lists → Iterator → Bool
no_commands lists it = elim (lists it.lst).cmds [ none ↦ true | some cmds ↦ false ]

-- `_cmd_get`; `none` is an entry without a name.
unfoldable pub cmd_get : Lists → Iterator → Option Command
cmd_get lists it = elim (lists it.lst).cmds [ none ↦ none | some cmds ↦ cmds it.idx ]

-- The iterator behind the last command of its list.
unfoldable pub list_ends : Lists → Iterator → Bool
unfolding cmd_get
list_ends lists it =
    not ((lists it.lst).cnt == 0) && leb (lists it.lst).cnt it.idx
    || elim (cmd_get lists it) [ none ↦ true | some cmd ↦ false ]

-- `_cmd_next`
unfoldable pub cmd_next : Lists → Iterator → Option Iterator
unfolding list_ends
cmd_next lists it =
    if list_ends lists (record it { idx = inc32 it.idx })
    then (if (lists it.lst).next == 0
        then none
        else some (record { lst = (lists it.lst).next; idx = 0 }))
    else some (record it { idx = inc32 it.idx })

-- What a round of a loop does: return, or go on.
pub data Loop (A : Type 0) : Type 0 where
  leave go_on : A → Loop A

-- A round of a loop over commands; `unnamed` is what its body does with an entry without a name.
unfoldable pub round_at :
    {A : Type 0}
    → (A → Option (Loop A))
    → (Iterator → Command → A → Option (Loop A))
    → Iterator
    → A
    → Option Command
    → Option (Loop A)
round_at unnamed body it a none = unnamed a
round_at unnamed body it a (some cmd) = body it cmd a

-- `for (cmd = _cmd_first (&it); cmd; cmd = _cmd_next (&it))` from `it` on, with fuel. Only the first
-- list of a chain can start with an entry without a name.
unfoldable pub for_commands :
    {A : Type 0}
    → ℕ
    → Lists
    → (A → Option (Loop A))
    → (Iterator → Command → A → Option (Loop A))
    → Iterator
    → A
    → Option A
unfolding round_at
for_commands zero lists unnamed body it a = none
for_commands (suc f) lists unnamed body it a =
    if no_commands lists it then some a else elim (round_at unnamed body it a (cmd_get lists it)) [
      | none ↦ none
      | some round ↦ elim round [
        | leave b ↦ some b
        | go_on b ↦ elim (cmd_next lists it) [
          | none ↦ some b
          | some it' ↦ for_commands f lists unnamed body it' b
        ]
      ]
    ]

-- `argv[i]`
unfoldable pub argument : List (List ℕ) → ℕ → List ℕ
argument argv i = get_or argv i []

-- `*argv[i]`
unfoldable pub initial : List (List ℕ) → ℕ → ℕ
unfolding argument
initial argv i = get_or (argument argv i) 0 0

-- `argc > 1 && *argv[1] == '?'`
unfoldable pub asks_usage : List (List ℕ) → Bool
unfolding initial
asks_usage argv = not (leb (length argv) 1) && initial argv 1 == 63

-- The static variables of the shell, the lists, and the world that commands and `shell_out` change.
pub record Shell (W : Type 0) : Type 0 where
  pub lists : Lists
  pub status : ℤ
  pub recurse : ℕ
  pub heap : Heap
  pub world : W

-- `CORSHELL_CMD_FP` and `CORSHELL_OUT_FP`
abbrev pub Call : Type 0 → Type 0
Call W = ℕ → List (List ℕ) → Shell W → Option (ℤ × Shell W)

abbrev pub ShellOut : Type 0 → Type 0
ShellOut W = Out → Option Message → W → ℤ × W

module _ {W : Type 0} (shell_out : ShellOut W) where
  -- `corshell_print`; its result is not used.
  unfoldable pub corshell_print : Out → Message → Shell W → Shell W
  corshell_print out message s = record s { world = (shell_out out (some message) s.world).1 }

  -- `if (cmd->usage && (usage || res == CORSHELL_CMD_E_PARMS))`
  unfoldable pub print_usage : Command → Bool → ℤ → Shell W → Shell W
  unfolding corshell_print
  print_usage cmd usage res s = elim cmd.usage [
    | none ↦ s
    | some text ↦
        if usage || res ==ℤ negsuc 2
        then corshell_print out_std (command_usage cmd.cmd text) s
        else s
  ]

  -- The body of the loop of `corshell_cmd_run`.
  unfoldable pub run_command :
      Call W
      → List (List ℕ)
      → Iterator
      → Command
      → Option ℤ × Shell W
      → Option (Loop (Option ℤ × Shell W))
  unfolding print_usage argument initial asks_usage
  run_command call argv it cmd (r, s) =
      if initial argv 0 == 35
      then some (leave (some (pos 0), s))
      else if strcmp_eq cmd.cmd (argument argv 0)
      then elim (if asks_usage argv then some (pos 0, s) else call cmd.fp argv s) [
        | none ↦ none
        | some (res, s') ↦ some (leave (some res, print_usage cmd (asks_usage argv) res s'))
      ]
      else some (go_on (r, s))

  -- The body at an entry without a name, which `strcmp` would read.
  unfoldable pub run_unnamed :
      List (List ℕ) → Option ℤ × Shell W → Option (Loop (Option ℤ × Shell W))
  unfolding initial
  run_unnamed argv (r, s) = if initial argv 0 == 35 then some (leave (some (pos 0), s)) else none

  -- `corshell_cmd_run`; the build has no services, so `started` stays -1.
  unfoldable pub corshell_cmd_run : Call W → ℕ → List (List ℕ) → Shell W → Option (ℤ × Shell W)
  unfolding for_commands run_unnamed run_command corshell_print argument
  corshell_cmd_run call fuel argv s =
      elim (for_commands fuel s.lists (run_unnamed argv) (run_command call argv) cmd_first
        (none, s)) [
          | none ↦ none
          | some (r, s') ↦ elim r [
            | some res ↦ some (res, s')
            | none ↦
                some (negsuc 1, corshell_print out_err (command_not_found (argument argv 0)) s')
          ]
        ]
