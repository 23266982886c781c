-- ===== src/Shell/Script/Errors.antt =====
-- What an error in a script does (src/shell/corshell.c).
use nvol.Base.{
  ℕ, suc, ◌+◌, ◌-◌, ◌<◌, ◌≡◌, refl, ap, ◌∙◌, List, [], ◌∷◌, Bool, false, Option, none, some, arith,
  ◌||◌, length, Bool-cases, inl, inr,
}
use nvol.Base.Bytes.{inc32}
use nvol.Base.Heap.{Heap, heap_malloc, heap_malloc-ok}
use nvol.Base.Integer.{ℤ, pos, negsuc, is_negative}
use nvol.Dictionary.Keys.{strcmp_eq}
use nvol.Shell.Script.Numbered.{run_lines, script_loop-lines, run_lines-go_on}
use nvol.Shell.Script.Texts.{IsLine, AreLines, text_of, line_parts}
use nvol.Shell.Script.Plain.{run_line-words}
use nvol.Shell.Script.{
  Script, normal, in_error, word_exit, word_onerror, word_clearerror, is_in_error, note_error,
  check_cancel, run_command_line, run_words, script_loop, script_end, corshell_script_run, argc_max,
}
use nvol.Shell.Split.Words.{Item, AreItems, IsItem, line_text, line_words}
use nvol.Shell.{go_on, Shell, ShellOut, Call, argument, out_null, corshell_cmd_run}
use nvol.Strsub.Plain.{ArePlain}
use nvol.Strsub.Sink.{Sink}
use nvol.Strsub.{Strsub}

-- Words that `corshell_script_run` does not look at itself.
abbrev is_directive : List (List ℕ) → Bool
is_directive argv =
    strcmp_eq (argument argv 0) word_exit
    || strcmp_eq (argument argv 0) word_onerror
    || strcmp_eq (argument argv 0) word_clearerror

-- A line of words, as it is typed: it fits the buffers, it has nothing to substitute, and it is no
-- directive.
pub record CommandLine (instance : Strsub Sink) : Type 0 where
  pub items : List Item
  pub final : Item
  pub all : AreItems items
  pub last : IsItem final
  pub few : length items < argc_max - 1
  pub plain : ArePlain instance (line_text items final)
  pub line : IsLine (line_text items final)
  pub command : is_directive (line_words items final) ≡ false

abbrev pub texts : {instance : Strsub Sink} → List (CommandLine instance) → List (List ℕ)
texts [] = []
texts (c ∷ lines) = line_text c.items c.final ∷ texts lines

texts-AreLines :
    {instance : Strsub Sink} (lines : List (CommandLine instance)) → AreLines (texts lines)
texts-AreLines [] = tt
texts-AreLines (c ∷ lines) = (c.line, texts-AreLines lines)

length-texts :
    {instance : Strsub Sink} (lines : List (CommandLine instance))
    → length (texts lines) ≡ length lines
length-texts [] = refl
length-texts (c ∷ lines) = ap suc (length-texts lines)

module _ {W : Type 0} (shell_out : ShellOut W) (call : Call W) (walk : ℕ) (name : List ℕ)
    (unfit : Bool × ℕ → ℤ) (fuel : ℕ) (instance : Strsub Sink) where
  -- A line in the state after an error.
  skipped :
      (argv : List (List ℕ)) (n : ℕ) (st : Script) (s : Shell W)
      → is_directive argv ≡ false
      → st.error_state ≡ in_error
      → run_words shell_out call walk name unfit argv n (st, s) ≡ some (go_on (st, s))
  unfolding run_words is_in_error
  skipped argv n st s command failed = elim (Bool-cases (strcmp_eq (argument argv 0) word_exit)) [
    | inl e ↦ absurd (ground (arith, command, e))
    | inr e ↦ elim (Bool-cases (strcmp_eq (argument argv 0) word_onerror)) [
      | inl f ↦ absurd (ground (arith, command, e, f))
      | inr f ↦ elim (Bool-cases (strcmp_eq (argument argv 0) word_clearerror)) [
        | inl g ↦ absurd (ground (arith, command, e, f, g))
        | inr g ↦ rw (e, f, g, failed) refl
      ]
    ]
  ]

  module _ (buffer : ℕ) where
    -- In the state after an error, lines that are no directives change nothing but the line's buffer.
    pub run_lines-skipped :
        (lines : List (CommandLine instance)) (n : ℕ) (st : Script) (s : Shell W)
        → st.error_state ≡ in_error
        → (cell : ℕ → ℕ) × (run_lines shell_out call walk name unfit fuel instance buffer
              (texts lines)
              n
              (st, s)
            ≡ some (record st { cell = cell }, s))
    run_lines-skipped [] n st s failed = (st.cell, refl)
    run_lines-skipped (c ∷ lines) n st s failed =
        let (clean, short) = line_parts (line_text c.items c.final) c.line in
        let (cell, run) =
          run_line-words fuel instance buffer c.items c.final c.all c.last c.few c.plain short
            shell_out call walk name unfit n st s in
        let skip =
          skipped (line_words c.items c.final) n (record st { cell = cell }) s c.command failed in
        let (cell', rest) = run_lines-skipped lines (n + 2) (record st { cell = cell }) s failed in
        (
          cell',
          run_lines-go_on shell_out call walk name unfit fuel instance buffer
                (line_text c.items c.final) (texts lines) n (st, s) (record st { cell = cell }, s)
                (run ∙ skip)
              ∙ rest,
        )

  -- What a command that fails does to the state, while no error is noted and nobody cancels.
  failing :
      (argv : List (List ℕ)) (st : Script) (s s' : Shell W) (e : ℕ)
      → is_directive argv ≡ false
      → st.error_state ≡ normal
      → corshell_cmd_run shell_out call walk argv s ≡ some (negsuc e, s')
      → is_negative s'.status ≡ false
      → is_negative (shell_out out_null none s'.world).0 ≡ false
      → run_words shell_out call walk name unfit argv 1 (st, s)
        ≡ some (
            go_on (
              record st { status = negsuc e; lasterror = negsuc e; error_state = in_error },
              record s' { world = (shell_out out_null none s'.world).1 },
            ))
  unfolding run_words is_in_error run_command_line note_error check_cancel is_negative
  failing argv st s s' e command fine run clear go =
      elim (Bool-cases (strcmp_eq (argument argv 0) word_exit)) [
        | inl d ↦ absurd (ground (arith, command, d))
        | inr d ↦ elim (Bool-cases (strcmp_eq (argument argv 0) word_onerror)) [
          | inl f ↦ absurd (ground (arith, command, d, f))
          | inr f ↦ elim (Bool-cases (strcmp_eq (argument argv 0) word_clearerror)) [
            | inl g ↦ absurd (ground (arith, command, d, f, g))
            | inr g ↦ rw (run_words, run_command_line, d, f, g, fine, run, clear, go) refl
          ]
        ]
      ]

  -- The state when the loop starts, and the loop's end.
  abbrev begun : Shell W → Shell W
  begun s = record s {
    recurse = inc32 s.recurse;
    world = (shell_out out_null none s.world).1;
    heap = record { next = suc (suc s.heap.next); answers = []; fill = s.heap.fill };
  }

  abbrev blank : ℕ → Script
  blank fill = record { status = pos 0; lasterror = pos 0; error_state = normal; cell = λ b. fill }

  started :
      (rounds : ℕ) (text : List ℕ) (size : ℕ) (s s2 : Shell W) (st2 : Script)
      → s.heap.answers ≡ []
      → is_negative (shell_out out_null none s.world).0 ≡ false
      → script_loop shell_out call walk name unfit fuel instance
          (suc s.heap.next)
          rounds
          text
          size
          0
          0
          (blank s.heap.fill, begun s)
        ≡ some (st2, s2)
      → corshell_script_run shell_out call walk name unfit rounds fuel instance text size s
        ≡ some (script_end shell_out call walk name unfit st2 s2)
  unfolding corshell_script_run
  started rounds text size s s2 st2 memory start loop =
      let one = heap_malloc-ok s.heap memory in
      let first : (heap_malloc s.heap).0 ≡ some s.heap.next =
        ap (λ (r : Option ℕ × Heap). r.0) one in
      let both : heap_malloc (heap_malloc s.heap).1 ≡ (some (suc s.heap.next), (begun s).heap) =
        ap (λ (r : Option ℕ × Heap). heap_malloc r.1) one
        ∙ heap_malloc-ok (record { next = suc s.heap.next; answers = []; fill = s.heap.fill })
            refl in
      let second : (heap_malloc (heap_malloc s.heap).1).0 ≡ some (suc s.heap.next) =
        ap (λ (r : Option ℕ × Heap). r.0) both in
      let whole =
        ap
          (λ (r : Option ℕ × Heap).
            script_loop shell_out call walk name unfit fuel instance (suc s.heap.next) rounds text
              size 0 0 (blank s.heap.fill, record (begun s) { heap = r.1 }))
          both
        ∙ loop in
      rw (corshell_script_run, start, first, second, whole) refl

  -- `corshell_script_run` of a text of command lines (words that fit, nothing to substitute, no directives), each
  -- with its newline, of which the first fails: if memory is there, no error is kept from
  -- before, and nobody cancels, it returns the code of the first command, which is kept as the shell's
  -- status, and the other lines do nothing at all.
  pub corshell_script_run-fails :
      (first : CommandLine instance) (lines : List (CommandLine instance)) (s s' : Shell W) (e : ℕ)
      → s.heap.answers ≡ []
      → is_negative (shell_out out_null none s.world).0 ≡ false
      → corshell_cmd_run shell_out call walk (line_words first.items first.final) (begun s)
        ≡ some (negsuc e, s')
      → is_negative s'.status ≡ false
      → is_negative (shell_out out_null none s'.world).0 ≡ false
      → corshell_script_run shell_out call walk name unfit
          (length lines + 1)
          fuel
          instance
          (text_of (texts (first ∷ lines)))
          (length (text_of (texts (first ∷ lines))))
          s
        ≡ some (
          negsuc e,
          record s' {
            world = (shell_out out_null none s'.world).1;
            status = negsuc e;
            recurse = s'.recurse - 1;
          },
        )
  unfolding script_end is_negative
  corshell_script_run-fails first lines s s' e memory start run clear go =
      let st = blank s.heap.fill in
      let s1 = begun s in
      let buffer = suc s.heap.next in
      let (clean, short) = line_parts (line_text first.items first.final) first.line in
      let (cell, line) =
        run_line-words fuel instance buffer first.items first.final first.all first.last first.few
          first.plain short shell_out call walk name unfit 1 st s1 in
      let failed =
        failing (line_words first.items first.final) (record st { cell = cell }) s1 s' e
          first.command refl run clear go in
      let st' : Script = record st {
        cell = cell;
        status = negsuc e;
        lasterror = negsuc e;
        error_state = in_error;
      } in
      let s2 : Shell W = record s' { world = (shell_out out_null none s'.world).1 } in
      let (cell', rest) = run_lines-skipped buffer lines 3 st' s2 refl in
      let loop =
        script_loop-lines shell_out call walk name unfit fuel instance buffer
          (line_text first.items first.final) (texts lines) (length lines + 1) (st, s1) first.line
          (texts-AreLines lines) (omega (arith, length-texts lines))
        ∙ run_lines-go_on shell_out call walk name unfit fuel instance buffer
            (line_text first.items first.final) (texts lines) 1 (st, s1) (st', s2) (line ∙ failed)
        ∙ rest in
      let text = text_of (texts (first ∷ lines)) in
      started (length lines + 1) text (length text) s s2 (record st' { cell = cell' }) memory start
        loop
