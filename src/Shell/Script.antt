-- ===== src/Shell/Script.antt =====
-- `corshell_script_run` of src/shell/corshell.c: the lines of a text as commands, with the handling of
-- errors. The text is not null; its length is not negative.
pub mod Rounds
pub mod Steps
pub mod Ends
pub mod Plain
pub mod Errors
pub mod Texts
pub mod Numbered
use nvol.Base.{
  ℕ, zero, suc, ◌+◌, ◌-◌, List, [], ◌∷◌, ◌++◌, Bool, true, false, Option, none, some, ltb, leb,
  ◌==◌, not, ◌&&◌, ◌||◌, if◌then◌else◌, get_or, length, drop,
}
use nvol.Base.Bytes.{inc32}
use nvol.Base.Heap.{heap_malloc}
use nvol.Base.Integer.{ℤ, pos, negsuc, is_negative, ◌==ℤ◌}
use nvol.Dictionary.Keys.{strcmp_eq}
use nvol.Shell.Lines.{line_size_max, copy_line, skip_breaks, read_bytes}
use nvol.Shell.Scan.{scan_decimal}
use nvol.Shell.Split.{corshell_cmd_split, words_at}
use nvol.Shell.{
  Loop, leave, go_on, Shell, ShellOut, Call, Message, argument, initial, out_null, out_std,
  script_exit, script_onerror, script_clearerror, script_error, script_cancelled, corshell_print,
  corshell_cmd_run,
}
use nvol.Strsub.Sink.{Sink, write_bytes, strsub_parse_string_to}
use nvol.Strsub.{Strsub}

-- `stateNormal`, `stateInHandler` and `stateInError`
pub data ErrorState : Type 0 where
  normal in_handler in_error : ErrorState

unfoldable pub is_normal : ErrorState → Bool
is_normal normal = true
is_normal _ = false

unfoldable pub is_in_error : ErrorState → Bool
is_in_error in_error = true
is_in_error _ = false

-- The local variables that a line changes; `cell` is the memory with the buffer `strsub_line`.
pub record Script : Type 0 where
  pub status : ℤ
  pub lasterror : ℤ
  pub error_state : ErrorState
  pub cell : ℕ → ℕ

-- `:exit`, `:onerror` and `:clearerror`
abbrev pub word_exit : List ℕ
word_exit = 58 ∷ 101 ∷ 120 ∷ 105 ∷ 116 ∷ []

abbrev pub word_onerror : List ℕ
word_onerror = 58 ∷ 111 ∷ 110 ∷ 101 ∷ 114 ∷ 114 ∷ 111 ∷ 114 ∷ []

abbrev pub word_clearerror : List ℕ
word_clearerror = 58 ∷ 99 ∷ 108 ∷ 101 ∷ 97 ∷ 114 ∷ 101 ∷ 114 ∷ 114 ∷ 111 ∷ 114 ∷ []

-- Whether the arguments of `:onerror` are for this status; `unfit` is what `sscanf` stores for a number
-- that does not fit.
unfoldable pub handles : (Bool × ℕ → ℤ) → List (List ℕ) → ℤ → Bool
unfolding argument initial scan_decimal ◌==ℤ◌
handles unfit argv status =
    leb (length argv) 1
    || elim (scan_decimal unfit (argument argv 1)) [ none ↦ false | some n ↦ status ==ℤ n ]
    || initial argv 1 == 120
    || initial argv 1 == 35

-- `CORSHELL_LINE_STRSUB_SIZE_MAX` and `CORSHELL_ARGC_MAX`
abbrev pub line_strsub_size_max : ℕ
line_strsub_size_max = 320

abbrev pub argc_max : ℕ
argc_max = 14

-- `corshell_cmd_split` of the buffer that holds `len` bytes: the words, and the memory.
unfoldable pub split_line : ℕ → ℕ → (ℕ → ℕ) → List (List ℕ) × (ℕ → ℕ)
unfolding corshell_cmd_split words_at read_bytes write_bytes
split_line buffer len mem =
    let (argv, bytes) =
      corshell_cmd_split (read_bytes mem buffer line_strsub_size_max) len (argc_max - 1) in
    (words_at bytes argv, write_bytes mem buffer bytes)

-- `strsub_parse_string_to` of a line into the buffer, and the split.
unfoldable pub parse_line :
    ℕ → Strsub Sink → ℕ → List ℕ → (ℕ → ℕ) → Option (List (List ℕ) × (ℕ → ℕ))
unfolding strsub_parse_string_to split_line
parse_line fuel instance buffer line cell =
    elim (strsub_parse_string_to fuel instance cell (some (line ++ 0 ∷ [])) (length line) buffer
      line_strsub_size_max) [ none ↦ none | some (len, mem) ↦ some (split_line buffer len mem) ]

module _ {W : Type 0} (shell_out : ShellOut W) (call : Call W) (walk : ℕ) (name : List ℕ)
    (unfit : Bool × ℕ → ℤ) where
  -- `argc > i ? argv[i] : ""` is `argument argv i`.
  unfoldable pub on_error : List (List ℕ) → ℕ → Script → Shell W → Script × Shell W
  unfolding handles corshell_print is_negative
  on_error argv lineno st s =
      if is_negative st.status && handles unfit argv st.status
      then (
        record st { error_state = in_handler },
        corshell_print shell_out out_std (script_onerror name st.status lineno) s,
      )
      else (record st { error_state = in_error }, s)

  unfoldable pub clear_error : ℕ → Script → Shell W → Script × Shell W
  unfolding is_normal corshell_print
  clear_error lineno st s =
      if is_normal st.error_state then (record st { error_state = normal }, s) else (
        record st { error_state = normal; status = pos 0; lasterror = pos 0 },
        record (corshell_print shell_out out_std (script_clearerror name st.status lineno) s) {
          status = pos 0;
        },
      )

  -- The result of a command: the state that follows, with its message.
  unfoldable pub note_error : List (List ℕ) → ℕ → ℤ → Script → Shell W → Script × Shell W
  unfolding argument corshell_print is_negative
  note_error argv lineno status st s =
      if is_negative status
      then (
        record st { status = status; error_state = in_error },
        if leb lineno 1
            then s
            else corshell_print shell_out out_std
                (script_error name (argument argv 1) (argument argv 2) status (argument argv 0)
                  lineno)
                s,
      )
      else (record st { status = status }, s)

  -- `if (_corshell_status >= CORSHELL_CMD_E_OK)`: the last error, and whether the caller cancels.
  unfoldable pub check_cancel : List (List ℕ) → ℕ → Script → Shell W → Script × Shell W
  unfolding argument corshell_print is_negative
  check_cancel argv lineno st s =
      if is_negative s.status
      then (st, s)
      else let last = if is_negative st.status then st.status else st.lasterror in
        let (cancel, world) = shell_out out_null none s.world in
        if is_negative cancel
        then (
          record st { lasterror = cancel; status = cancel },
          corshell_print shell_out out_std
              (script_cancelled name (argument argv 1) (argument argv 2) st.status lineno)
              (record s { world = world }),
        )
        else (record st { lasterror = last }, record s { world = world })

  unfoldable pub run_command_line : List (List ℕ) → ℕ → Script → Shell W → Option (Script × Shell W)
  unfolding corshell_cmd_run note_error check_cancel
  run_command_line argv lineno st s = elim (corshell_cmd_run shell_out call walk argv s) [
    | none ↦ none
    | some (status, s') ↦
        let (st'', s'') = note_error argv lineno status st s' in
        some (check_cancel argv lineno st'' s'')
  ]

  -- What a line with at least one word does; `:exit` leaves the loop.
  unfoldable pub run_words : List (List ℕ) → ℕ → Script × Shell W → Option (Loop (Script × Shell W))
  unfolding strcmp_eq argument corshell_print on_error clear_error run_command_line is_in_error
  run_words argv lineno (st, s) =
      if strcmp_eq (argument argv 0) word_exit
      then some (leave (st, corshell_print shell_out out_std (script_exit name lineno) s))
      else if strcmp_eq (argument argv 0) word_onerror
      then some (go_on (on_error argv lineno st s))
      else if strcmp_eq (argument argv 0) word_clearerror
      then some (go_on (clear_error lineno st s))
      else if is_in_error st.error_state
      then some (go_on (st, s))
      else elim (run_command_line argv lineno st s) [ none ↦ none | some r ↦ some (go_on r) ]

  module _ (fuel : ℕ) (instance : Strsub Sink) (buffer : ℕ) where
    unfoldable pub run_line : List ℕ → ℕ → Script × Shell W → Option (Loop (Script × Shell W))
    unfolding parse_line run_words
    run_line line lineno (st, s) = elim (parse_line fuel instance buffer line st.cell) [
      | none ↦ none
      | some (argv, cell) ↦
          if length argv == 0
          then some (go_on (record st { cell = cell }, s))
          else run_words argv lineno (record st { cell = cell }, s)
    ]

    -- The loop over the lines from the `i`th byte on, with fuel.
    unfoldable pub script_loop :
        ℕ → List ℕ → ℕ → ℕ → ℕ → Script × Shell W → Option (Script × Shell W)
    unfolding run_line copy_line skip_breaks
    script_loop zero start size i lineno st = none
    script_loop (suc f) start size i lineno st =
        let line = copy_line (drop i start) (size - i) (line_size_max - 1) in
        let i' = i + length line in
        let lineno' = if get_or start i' 0 == 10 then suc lineno else lineno in
        let (breaks, newlines) = skip_breaks (drop i' start) (size - i') in
        elim (run_line line lineno' st) [
          | none ↦ none
          | some round ↦ elim round [
            | leave st' ↦ some st'
            | go_on st' ↦ elim (ltb (i' + breaks) size) [
              | false ↦ some st'
              | true ↦ script_loop f start size (i' + breaks) (lineno' + newlines) st'
            ]
          ]
        ]

  -- The end: the last error, which stays in `_corshell_status`, and the call's depth.
  unfoldable pub script_end : Script → Shell W → ℤ × Shell W
  unfolding is_negative
  script_end st s =
      let status = if is_negative st.lasterror then st.lasterror else s.status in
      (status, record s { status = status; recurse = s.recurse - 1 })

  -- `corshell_script_run`; `none` is undefined behaviour, or a loop that does not end.
  unfoldable pub corshell_script_run :
      ℕ → ℕ → Strsub Sink → List ℕ → ℕ → Shell W → Option (ℤ × Shell W)
  unfolding script_loop script_end is_negative
  corshell_script_run rounds fuel instance start size s =
      let (cancel, world) = shell_out out_null none s.world in
      let s1 = record s { recurse = inc32 s.recurse; world = world } in
      if is_negative cancel
      then some (cancel, s1)
      else let (current_line, heap) = heap_malloc s.heap in
        let (strsub_line, heap') = heap_malloc heap in
        elim current_line [
          | none ↦ some (negsuc 7, record s1 { heap = heap })
          | some a ↦ elim strsub_line [
            | none ↦ some (negsuc 7, record s1 { heap = heap' })
            | some buffer ↦
                let fill = s.heap.fill in
                elim (script_loop fuel instance buffer rounds start size 0 0 (
                  record {
                    status = pos 0;
                    lasterror = pos 0;
                    error_state = normal;
                    cell = λ b. fill;
                  },
                  record s1 { heap = heap' },
                )) [ none ↦ none | some (st, s2) ↦ some (script_end st s2) ]
          ]
        ]

-- `corshell_script_clear_last_error`
unfoldable pub corshell_script_clear_last_error : {W : Type 0} → Shell W → ℤ × Shell W
corshell_script_clear_last_error s = (pos 0, record s { status = pos 0 })
