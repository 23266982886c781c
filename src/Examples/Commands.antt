-- ===== src/Examples/Commands.antt =====
-- Examples of src/shell/corshell.c: two commands, of which one fails, and a list that is installed
-- behind them. The world is the number of messages.
use nvol.Base.{
  ℕ, suc, ◌≤◌, ◌≡◌, refl, List, [], ◌∷◌, Option, none, some, arith, ◌==◌, if◌then◌else◌, flatten,
  inr,
}
use nvol.Base.Integer.{pos, negsuc}
use nvol.Dictionary.Keys.{c_string, strcmp_eq}
use nvol.Examples.{calm_heap}
use nvol.Shell.Chain.{IsChain}
use nvol.Shell.Chain.Links.{corshell_install_lem, corshell_uninstall_lem}
use nvol.Shell.Lists.{corshell_install, corshell_uninstall}
use nvol.Shell.Help.{corshell_cmd_help}
use nvol.Shell.Help.Bounds.{corshell_cmd_help-bounds}
use nvol.Shell.Runs.{run_found, corshell_cmd_run-first}
use nvol.Shell.{
  Command, Lists, static_list, Shell, ShellOut, Call, initial, asks_usage, corshell_cmd_run,
}

-- `nop`, with a usage, and `bad`
abbrev pub nop : Command
nop = record { cmd = 110 ∷ 111 ∷ 112 ∷ []; fp = 2; usage = some (91 ∷ 93 ∷ []) }

abbrev pub bad : Command
bad = record { cmd = 98 ∷ 97 ∷ 100 ∷ []; fp = 3; usage = none }

abbrev static_cmds : ℕ → Option Command
static_cmds i = if i == 0 then some nop else if i == 1 then some bad else none

abbrev more_cmds : ℕ → Option Command
more_cmds i = if i == 0 then some bad else none

-- The static list at 1, and another one at 7.
abbrev pub two_lists : Lists
two_lists a =
    if a == 1
    then record { next = 0; cmds = some static_cmds; cnt = 2 }
    else record { next = 0; cmds = some more_cmds; cnt = 0 }

abbrev pub three_lists : Lists
three_lists a =
    if a == 1
    then record { next = 7; cmds = some static_cmds; cnt = 2 }
    else record { next = 0; cmds = some more_cmds; cnt = 0 }

abbrev pub shell_out : ShellOut ℕ
shell_out out message w = (pos 0, suc w)

-- `bad` fails with -5.
abbrev pub call : Call ℕ
call fp argv s = if fp == 3 then some (negsuc 4, s) else some (pos 0, s)

abbrev pub shell : Shell ℕ
shell = record { lists = two_lists; status = pos 0; recurse = 0; heap = calm_heap; world = 0 }

pub two_lists-IsChain : IsChain two_lists static_list (static_list ∷ []) ((nop ∷ bad ∷ []) ∷ [])
two_lists-IsChain = record {
  chain = (refl, (omega arith), tt, refl);
  hold = ((static_cmds, refl, (refl, refl, omega arith, (refl, refl, omega arith, refl))), tt);
}

-- `bad` with an argument
abbrev bad_line : List (List ℕ)
bad_line = bad.cmd ∷ (49 ∷ []) ∷ []

corshell_cmd_run-first_example :
    corshell_cmd_run shell_out call 2 bad_line shell
    ≡ run_found shell_out call bad_line (some bad) shell
unfolding initial asks_usage flatten strcmp_eq
corshell_cmd_run-first_example =
    corshell_cmd_run-first shell_out call bad_line 2 [] ((nop ∷ bad ∷ []) ∷ []) shell
      two_lists-IsChain (omega arith) refl

corshell_install_example :
    (lists' : Lists) × (corshell_install 1 two_lists 7 ≡ some lists')
    × IsChain lists' static_list (static_list ∷ 7 ∷ []) ((nop ∷ bad ∷ []) ∷ (bad ∷ []) ∷ [])
corshell_install_example =
    corshell_install_lem 1 two_lists 7 [] ((nop ∷ bad ∷ []) ∷ []) (bad ∷ []) two_lists-IsChain
      (omega arith) (omega arith) ((omega arith), tt)
      (more_cmds, refl, (refl, refl, omega arith, refl))

corshell_uninstall_example :
    (lists' : Lists) × (corshell_uninstall 2 three_lists 7 ≡ some lists')
    × IsChain lists' static_list (static_list ∷ []) ((nop ∷ bad ∷ []) ∷ [])
corshell_uninstall_example =
    corshell_uninstall_lem 2 three_lists 7 [] [] ((nop ∷ bad ∷ []) ∷ [])
      (refl, (omega arith), ((omega arith), tt), (refl, (omega arith), tt, refl))
      ((static_cmds, refl, (refl, refl, omega arith, (refl, refl, omega arith, refl))), tt)
      (omega arith)

corshell_cmd_help-bounds_example :
    (n : ℕ) × (mem : ℕ → ℕ) × (corshell_cmd_help 2 two_lists (λ a. 0xA5) 100 20 ≡ some (n, mem))
    × (n ≤ 20)
    × (mem 120 ≡ 0xA5)
unfolding c_string flatten
corshell_cmd_help-bounds_example =
    corshell_cmd_help-bounds (λ a. 0xA5) 100 20 (omega arith) 2 two_lists [] ((nop ∷ bad ∷ []) ∷ [])
      120 two_lists-IsChain (omega arith)
      (
        (omega arith, λ usage e. let same : 91 ∷ 93 ∷ [] ≡ usage = cc in rw (← same) (omega arith)),
        ((omega arith, λ usage e. absurd (cc)), tt),
      )
      (inr (omega arith))
