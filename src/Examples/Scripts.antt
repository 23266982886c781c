-- ===== src/Examples/Scripts.antt =====
-- Examples of the scripts of src/shell/corshell.c: a text of two lines, the first of which fails.
use nvol.Base.{
  Bool, ℕ, Bool-cases, inl, inr, flatten, ◌≢◌, ◌==◌, ◌≤◌, ◌≡◌, refl, List, [], ◌∷◌, ◌++◌, some,
  true, arith, length, get_or,
}
use nvol.Base.Integer.{ℤ, pos, negsuc, is_negative}
use nvol.Dictionary.Keys.{strcmp_eq}
use nvol.Examples.Commands.{nop, bad, two_lists, two_lists-IsChain, shell_out, call, shell}
use nvol.Shell.Lines.{is_break}
use nvol.Shell.Scan.Digits.{corshell_scan_int-digits}
use nvol.Shell.Scan.{corshell_scan_int}
use nvol.Shell.Script.Ends.{corshell_script_run-Ends, IsSubstitution}
use nvol.Shell.Script.Errors.{CommandLine, corshell_script_run-fails}
use nvol.Shell.Script.Numbered.{run_lines, script_loop-lines}
use nvol.Shell.Script.Plain.{parse_line-words}
use nvol.Shell.Script.Steps.{Ends, CallsEnd}
use nvol.Shell.Script.{Script, normal, parse_line, script_loop, corshell_script_run}
use nvol.Shell.Split.Bounds.{corshell_cmd_split-bounds}
use nvol.Shell.Split.Line.{corshell_cmd_split-line}
use nvol.Shell.Split.Words.{plain, quoted, IsWordChar, AreWordChars}
use nvol.Shell.Split.{corshell_cmd_split, words_at, is_space}
use nvol.Shell.Runs.{corshell_cmd_run-first}
use nvol.Shell.{Shell, argument, initial, asks_usage, print_usage, corshell_cmd_run}
use nvol.Strsub.Sink.{Sink}
use nvol.Strsub.Plain.{IsPlain}
use nvol.Strsub.{Strsub, find_open, opens}

-- No handlers, and no characters that mean anything.
abbrev no_words : Strsub Sink
no_words = record {
  escape = 0;
  tokens = [];
  handlers = [];
  memory = λ a. record { next = 0; cb = λ cb. cb };
}

-- `bad "a b"`
abbrev bad_line : List ℕ
bad_line = 98 ∷ 97 ∷ 100 ∷ 32 ∷ 34 ∷ 97 ∷ 32 ∷ 98 ∷ 34 ∷ []

letter : (c : ℕ) → 97 ≤ c → IsWordChar c
unfolding is_space
letter c h = record {
  nonzero = omega arith;
  dark = ground arith;
  single = omega arith;
  double = omega arith;
}

bad_tail : AreWordChars (97 ∷ 100 ∷ [])
bad_tail = (letter 97 (omega arith), (letter 100 (omega arith), tt))

anything : (c : ℕ) → c ≢ 0 → IsPlain no_words c
unfolding find_open opens
anything c h = record { nonzero = h; escape = refl; opening = refl }

-- The lines `bad` and `nop`
abbrev bad_command : CommandLine no_words
unfolding is_break strcmp_eq argument
bad_command = record {
  items = [];
  final = plain bad.cmd;
  all = tt;
  last = (letter 98 (omega arith), bad_tail);
  few = omega arith;
  plain =
      (anything 98 (omega arith), (anything 97 (omega arith), (anything 100 (omega arith), tt)));
  line = ((refl, (refl, (refl, tt))), omega arith);
  command = refl;
}

abbrev nop_command : CommandLine no_words
unfolding is_break strcmp_eq argument
nop_command = record {
  items = [];
  final = plain nop.cmd;
  all = tt;
  last = (letter 110 (omega arith), (letter 111 (omega arith), (letter 112 (omega arith), tt)));
  few = omega arith;
  plain =
      (anything 110 (omega arith), (anything 111 (omega arith), (anything 112 (omega arith), tt)));
  line = ((refl, (refl, (refl, tt))), omega arith);
  command = refl;
}

-- The text of both lines
abbrev script : List ℕ
script = 98 ∷ 97 ∷ 100 ∷ 10 ∷ 110 ∷ 111 ∷ 112 ∷ 10 ∷ []

abbrev failed_shell : Shell ℕ
failed_shell = record shell {
  recurse = 1;
  world = 1;
  heap = record { next = 102; answers = []; fill = 0xA5 };
}

bad_runs :
    corshell_cmd_run shell_out call 2 (bad.cmd ∷ []) failed_shell ≡ some (negsuc 4, failed_shell)
unfolding initial asks_usage flatten strcmp_eq print_usage
bad_runs =
    corshell_cmd_run-first shell_out call (bad.cmd ∷ []) 2 [] ((nop ∷ bad ∷ []) ∷ []) failed_shell
      two_lists-IsChain (omega arith) refl

-- What a number that does not fit leaves behind.
abbrev no_number : Bool × ℕ → ℤ
no_number r = pos 0

corshell_script_run-fails_example :
    corshell_script_run shell_out call 2 [] no_number 2 0 no_words script 8 shell
    ≡ some (negsuc 4, record failed_shell { world = 2; status = negsuc 4; recurse = 0 })
unfolding is_negative bad_command nop_command
corshell_script_run-fails_example =
    corshell_script_run-fails shell_out call 2 [] no_number 0 no_words bad_command
      (nop_command ∷ []) shell failed_shell 4 refl refl bad_runs refl refl

no_words-IsSubstitution : IsSubstitution 1 no_words
no_words-IsSubstitution = record {
  polite = λ cell dst h cb keeps. keeps;
  chains = λ cell dst i. ([], refl, omega arith);
}

call-CallsEnd : CallsEnd call two_lists
call-CallsEnd fp argv s h = elim (Bool-cases (fp == 3)) [
  | inl e ↦ ((negsuc 4, s), rw e refl, h)
  | inr e ↦ ((pos 0, s), rw e refl, h)
]

corshell_script_run-Ends_example :
    Ends two_lists
      (corshell_script_run shell_out call 2 [] no_number 9 1 no_words script 8 shell)
      (λ r. r.1)
corshell_script_run-Ends_example =
    corshell_script_run-Ends shell_out call two_lists 2 [] no_number [] ((nop ∷ bad ∷ []) ∷ [])
      two_lists-IsChain (omega arith) call-CallsEnd 1 no_words script 8 shell
      no_words-IsSubstitution refl

abbrev fresh : Script
fresh = record { status = pos 0; lasterror = pos 0; error_state = normal; cell = λ a. 0 }

script_loop-lines_example :
    script_loop shell_out call 2 [] no_number 0 no_words 7 2 script 8 0 0 (fresh, shell)
    ≡ run_lines shell_out call 2 [] no_number 0 no_words 7 (bad.cmd ∷ nop.cmd ∷ []) 1 (fresh, shell)
unfolding is_break bad_command nop_command
script_loop-lines_example =
    script_loop-lines shell_out call 2 [] no_number 0 no_words 7 bad.cmd (nop.cmd ∷ []) 2
      (fresh, shell) bad_command.line (nop_command.line, tt) (omega arith)

parse_line-words_example :
    (cell' : ℕ → ℕ) × (parse_line 0 no_words 7 bad.cmd (λ a. 0) ≡ some (bad.cmd ∷ [], cell'))
unfolding bad_command
parse_line-words_example =
    parse_line-words 0 no_words 7 [] (plain bad.cmd) tt bad_command.last (omega arith)
      bad_command.plain (omega arith) (λ a. 0)

corshell_cmd_split-bounds_example :
    (length (corshell_cmd_split (bad_line ++ 0 ∷ 7 ∷ []) 10 1).0 ≤ 1)
    × ((i : ℕ) → get_or (corshell_cmd_split (bad_line ++ 0 ∷ 7 ∷ []) 10 1).0 i 0 ≤ 10)
    × (length (corshell_cmd_split (bad_line ++ 0 ∷ 7 ∷ []) 10 1).1 ≡ 11)
    × ((i : ℕ)
        → 10 ≤ i
        → get_or (corshell_cmd_split (bad_line ++ 0 ∷ 7 ∷ []) 10 1).1 i 0
          ≡ get_or (bad_line ++ 0 ∷ 7 ∷ []) i 0)
corshell_cmd_split-bounds_example = corshell_cmd_split-bounds 1 10 (bad_line ++ 0 ∷ 7 ∷ [])

corshell_cmd_split-line_example :
    words_at
      (corshell_cmd_split (bad_line ++ 0 ∷ 7 ∷ []) 9 13).1
      (corshell_cmd_split (bad_line ++ 0 ∷ 7 ∷ []) 9 13).0
    ≡ (98 ∷ 97 ∷ 100 ∷ []) ∷ (97 ∷ 32 ∷ 98 ∷ []) ∷ []
corshell_cmd_split-line_example =
    corshell_cmd_split-line (plain bad.cmd ∷ []) (quoted (97 ∷ 32 ∷ 98 ∷ [])) (7 ∷ []) 13 9
      ((letter 98 (omega arith), bad_tail), tt)
      (omega arith, omega arith, (omega arith, omega arith, (omega arith, omega arith, tt)))
      (omega arith) (omega arith)

corshell_scan_int-digits_example :
    (corshell_scan_int (λ r. 0) (49 ∷ 48 ∷ []) 5 ≡ (true, 10))
    × (corshell_scan_int (λ r. 0) (48 ∷ 120 ∷ 102 ∷ 102 ∷ []) 5 ≡ (true, 255))
corshell_scan_int-digits_example =
    corshell_scan_int-digits (λ r. 0) 1 15 5 (0 ∷ []) (15 ∷ []) (omega arith)
      (omega arith, (omega arith, tt)) (omega arith, (omega arith, tt)) (omega arith) (omega arith)
