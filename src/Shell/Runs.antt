-- ===== src/Shell/Runs.antt =====
-- Which command `corshell_cmd_run` of src/shell/corshell.c runs.
use nvol.Base.{
  ℕ, ◌+◌, ◌≤◌, ◌≡◌, refl, sym, ap, ap₂, ◌∙◌, List, [], ◌∷◌, ◌++◌, true, false, Option, none, some,
  ◌==◌, ◌||◌, if◌then◌else◌, length, flatten, Bool-cases, Option-cases, inl, inr,
}
use nvol.Base.Integer.{ℤ, pos, negsuc, ◌==ℤ◌}
use nvol.Dictionary.Keys.{strcmp_eq}
use nvol.Shell.Chain.{
  IsChain, AllHold, positions, positions_from, fold_commands, fold_commands-round,
  for_commands-fold,
}
use nvol.Shell.{
  Command, Lists, Iterator, leave, go_on, Shell, ShellOut, Call, static_list, cmd_first, argument,
  initial, asks_usage, print_usage, corshell_print, out_err, out_std, command_usage,
  command_not_found, run_unnamed, run_command, corshell_cmd_run,
}

-- The first command of that name.
abbrev pub first_named : List ℕ → List Command → Option Command
first_named name [] = none
first_named name (cmd ∷ rest) = if strcmp_eq cmd.cmd name then some cmd else first_named name rest

abbrev pub commands_of : List (Iterator × Command) → List Command
commands_of [] = []
commands_of ((it, cmd) ∷ rest) = cmd ∷ commands_of rest

commands_of-append :
    (xs ys : List (Iterator × Command)) → commands_of (xs ++ ys) ≡ commands_of xs ++ commands_of ys
commands_of-append [] ys = refl
commands_of-append ((it, cmd) ∷ xs) ys = ap (λ t. cmd ∷ t) (commands_of-append xs ys)

commands_of-positions_from :
    (a i : ℕ) (cs : List Command) → commands_of (positions_from a i cs) ≡ cs
commands_of-positions_from a i [] = refl
commands_of-positions_from a i (cmd ∷ cs) =
    ap (λ t. cmd ∷ t) (commands_of-positions_from a (i + 1) cs)

pub commands_of-positions :
    (lists : Lists) (l : List ℕ) (css : List (List Command))
    → AllHold lists l css
    → commands_of (positions l css) ≡ flatten css
unfolding flatten
commands_of-positions lists [] [] h = refl
commands_of-positions lists [] (cs ∷ css) h = absurd h
commands_of-positions lists (a ∷ l) [] h = absurd h
commands_of-positions lists (a ∷ l) (cs ∷ css) (h, rest) =
    commands_of-append (positions_from a 0 cs) (positions l css)
    ∙ ap₂ (λ t u. t ++ u) (commands_of-positions_from a 0 cs)
        (commands_of-positions lists l css rest)

module _ {W : Type 0} (shell_out : ShellOut W) (call : Call W) (argv : List (List ℕ)) where
  -- A command with a usage prints it where that was asked for, and where it refused its parameters: -3
  -- is CORSHELL_CMD_E_PARMS.
  abbrev pub with_usage : Command → ℤ → Shell W → Shell W
  with_usage cmd res s = elim cmd.usage [
    | none ↦ s
    | some text ↦
        if asks_usage argv || res ==ℤ negsuc 2
        then corshell_print shell_out out_std (command_usage cmd.cmd text) s
        else s
  ]

  -- The command's own result, with its usage where it is due.
  abbrev pub run_one : Command → Shell W → Option (ℤ × Shell W)
  run_one cmd s = elim (if asks_usage argv then some (pos 0, s) else call cmd.fp argv s) [
    | none ↦ none
    | some (res, s') ↦ some (res, with_usage cmd res s')
  ]

  abbrev pub run_found : Option Command → Shell W → Option (ℤ × Shell W)
  run_found none s =
      some (negsuc 1, corshell_print shell_out out_err (command_not_found (argument argv 0)) s)
  run_found (some cmd) s = run_one cmd s

  -- What the loop ends with: no command yet, or the first of the name.
  abbrev folded : Option Command → Shell W → Option (Option ℤ × Shell W)
  folded none s = some (none, s)
  folded (some cmd) s = elim (run_one cmd s) [ none ↦ none | some (res, s') ↦ some (some res, s') ]

  -- The call of the command, or the answer to `?`.
  abbrev called : Command → Shell W → Option (ℤ × Shell W)
  called cmd s = if asks_usage argv then some (pos 0, s) else call cmd.fp argv s

  -- The body of the loop at a command of that name, and at another one.
  matched :
      (it : Iterator) (cmd : Command) (s : Shell W) (r : Option (ℤ × Shell W))
      → (initial argv 0 == 35) ≡ false
      → strcmp_eq cmd.cmd (argument argv 0) ≡ true
      → called cmd s ≡ r
      → run_command shell_out call argv it cmd (none, s)
        ≡ elim r [ none ↦ none | some (res, s') ↦ some (leave (some res, with_usage cmd res s')) ]
  unfolding run_command print_usage
  matched it cmd s r h e c =
      rw (h, e)
        (ap
          (λ (x : Option (ℤ × Shell W)). elim x [
            | none ↦ none
            | some (res, s') ↦ some (leave (some res, with_usage cmd res s'))
          ])
          c)

  passed :
      (it : Iterator) (cmd : Command) (s : Shell W)
      → (initial argv 0 == 35) ≡ false
      → strcmp_eq cmd.cmd (argument argv 0) ≡ false
      → run_command shell_out call argv it cmd (none, s) ≡ some (go_on (none, s))
  unfolding run_command
  passed it cmd s h e = rw (h, e) refl

  folded-called :
      (cmd : Command) (s : Shell W) (r : Option (ℤ × Shell W))
      → called cmd s ≡ r
      → folded (some cmd) s
        ≡ elim r [ none ↦ none | some (res, s') ↦ some (some res, with_usage cmd res s') ]
  folded-called cmd s none c = rw (folded, run_one, c) refl
  folded-called cmd s (some (res, s')) c = rw (folded, run_one, c) refl

  -- A round at the command leaves with its result.
  left :
      (it : Iterator) (cmd : Command) (ps : List (Iterator × Command)) (s : Shell W)
      (r : Option (ℤ × Shell W))
      → (initial argv 0 == 35) ≡ false
      → strcmp_eq cmd.cmd (argument argv 0) ≡ true
      → called cmd s ≡ r
      → fold_commands (run_command shell_out call argv) ((it, cmd) ∷ ps) (none, s)
        ≡ folded (some cmd) s
  left it cmd ps s none h e c =
      fold_commands-round (run_command shell_out call argv) it cmd ps (none, s) none
        (matched it cmd s none h e c)
      ∙ sym (folded-called cmd s none c)
  left it cmd ps s (some (res, s')) h e c =
      fold_commands-round (run_command shell_out call argv) it cmd ps (none, s) _
        (matched it cmd s (some (res, s')) h e c)
      ∙ sym (folded-called cmd s (some (res, s')) c)

  run_fold :
      (ps : List (Iterator × Command)) (s : Shell W)
      → (initial argv 0 == 35) ≡ false
      → fold_commands (run_command shell_out call argv) ps (none, s)
        ≡ folded (first_named (argument argv 0) (commands_of ps)) s
  run_fold [] s h = refl
  run_fold ((it, cmd) ∷ ps) s h = elim (Bool-cases (strcmp_eq cmd.cmd (argument argv 0))) [
    | inl e ↦ rw e (left it cmd ps s (called cmd s) h e refl)
    | inr e ↦
        fold_commands-round (run_command shell_out call argv) it cmd ps (none, s) _
          (passed it cmd s h e)
        ∙ rw e (run_fold ps s h)
  ]

  -- What `corshell_cmd_run` makes of the loop's end.
  concluded :
      (found : Option Command) (s : Shell W)
      → elim (folded found s) [
        | none ↦ none
        | some (r, s') ↦ elim r [
          | some res ↦ some (res, s')
          | none ↦
              some (
                negsuc 1,
                corshell_print shell_out out_err (command_not_found (argument argv 0)) s',
              )
        ]
      ]
        ≡ run_found found s
  concluded none s = refl
  concluded (some cmd) s = elim (Option-cases (run_one cmd s)) [
    | inl e ↦ rw e refl
    | inr (r, e) ↦ rw e refl
  ]

  -- `corshell_cmd_run` of a line that is not a comment, with fuel for every command of the chain of
  -- lists: the first command of that name in the order of the chain is called and, where its usage
  -- is asked for or it refuses its parameters, the usage printed; without one, the line is
  -- refused with CORSHELL_CMD_E_NOT_FOUND and a message.
  pub corshell_cmd_run-first :
      (fuel : ℕ) (l : List ℕ) (css : List (List Command)) (s : Shell W)
      → IsChain s.lists static_list (static_list ∷ l) css
      → length (positions (static_list ∷ l) css) ≤ fuel
      → (initial argv 0 == 35) ≡ false
      → corshell_cmd_run shell_out call fuel argv s
        ≡ run_found (first_named (argument argv 0) (flatten css)) s
  unfolding corshell_cmd_run cmd_first
  corshell_cmd_run-first fuel l css s chain enough h =
      let fold =
        for_commands-fold s.lists (run_unnamed shell_out argv) (run_command shell_out call argv)
          fuel static_list l css (none, s) chain enough
        ∙ run_fold (positions (static_list ∷ l) css) s h
        ∙ ap (λ t. folded (first_named (argument argv 0) t) s)
            (commands_of-positions s.lists (static_list ∷ l) css chain.hold) in
      rw (corshell_cmd_run, fold) (concluded (first_named (argument argv 0) (flatten css)) s)

  -- A line that starts with `#` is accepted, and does nothing.
  pub corshell_cmd_run-comment :
      (fuel : ℕ) (l : List ℕ) (css : List (List Command)) (s : Shell W)
      → IsChain s.lists static_list (static_list ∷ l) css
      → length (positions (static_list ∷ l) css) ≤ fuel
      → (initial argv 0 == 35) ≡ true
      → corshell_cmd_run shell_out call fuel argv s ≡ some (pos 0, s)
  unfolding corshell_cmd_run cmd_first run_command
  corshell_cmd_run-comment fuel l [] s chain enough h = absurd chain.hold
  corshell_cmd_run-comment fuel l ([] ∷ css) s chain enough h = absurd chain.hold.0
  corshell_cmd_run-comment fuel l ((c ∷ cs) ∷ css) s chain enough h =
      let it : Iterator = record { lst = static_list; idx = 0 } in
      let step : run_command shell_out call argv it c (none, s) ≡ some (leave (some (pos 0), s)) =
        rw h refl in
      let rest = positions_from static_list 1 cs ++ positions l css in
      let loop =
        for_commands-fold s.lists (run_unnamed shell_out argv) (run_command shell_out call argv)
          fuel static_list l ((c ∷ cs) ∷ css) (none, s) chain enough
        ∙ fold_commands-round (run_command shell_out call argv) it c rest (none, s) _ step in
      rw (corshell_cmd_run, loop) refl
