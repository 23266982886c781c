-- ===== src/Shell/Script/Numbered.antt =====
-- The lines of a script, and their numbers (src/shell/corshell.c).
use nvol.Base.{
  Bool, ℕ, zero, suc, ◌+◌, ◌<◌, ◌≡◌, refl, sym, ap, ap₂, ◌∙◌, List, [], ◌∷◌, ◌++◌, true, false,
  Option, none, some, arith, ltb, length, length-append, append_assoc, Bool-cases, ltb→lt,
  ltb_false→le, inl, inr,
}
use nvol.Shell.Script.Rounds.{
  line_at, number_at, breaks_at, round-leave, round-last, round-next, round-none,
}
use nvol.Shell.Script.Texts.{
  IsLine, AreLines, text_of, start, size_lem, line_at_lem, number_at_lem, breaks_at_lem,
  next_at_lem',
}
use nvol.Shell.Script.{Script, run_line, script_loop}
use nvol.Shell.{ℤ, Loop, leave, go_on, Shell, ShellOut, Call}
use nvol.Strsub.Sink.{Sink}
use nvol.Strsub.{Strsub}

module _ {W : Type 0} (shell_out : ShellOut W) (call : Call W) (walk : ℕ) (name : List ℕ)
    (unfit : Bool × ℕ → ℤ) (fuel : ℕ) (instance : Strsub Sink) (buffer : ℕ) where
  -- The lines one by one, the first with number `n`, until one leaves.
  abbrev pub run_lines : List (List ℕ) → ℕ → Script × Shell W → Option (Script × Shell W)
  run_lines [] n st = some st
  run_lines (line ∷ ls) n st =
      elim (run_line shell_out call walk name unfit fuel instance buffer line n st) [
        | none ↦ none
        | some round ↦ elim round [ leave st' ↦ some st' | go_on st' ↦ run_lines ls (n + 2) st' ]
      ]

  abbrev loop : ℕ → List ℕ → ℕ → ℕ → Script × Shell W → Option (Script × Shell W)
  loop f start i n st =
      script_loop shell_out call walk name unfit fuel instance buffer f start (length start) i n st

  abbrev line_run : List ℕ → ℕ → Script × Shell W → Option (Loop (Script × Shell W))
  line_run line n st = run_line shell_out call walk name unfit fuel instance buffer line n st

  -- A line that goes on.
  pub run_lines-go_on :
      (line : List ℕ) (ls : List (List ℕ)) (n : ℕ) (st st' : Script × Shell W)
      → line_run line n st ≡ some (go_on st')
      → run_lines (line ∷ ls) n st ≡ run_lines ls (n + 2) st'
  run_lines-go_on line ls n st st' e =
      ap
        (λ (x : Option (Loop (Script × Shell W))). elim x [
          | none ↦ none
          | some round ↦ elim round [ leave st' ↦ some st' | go_on st' ↦ run_lines ls (n + 2) st' ]
        ])
        e

  at_line :
      (line : List ℕ) (ls : List (List ℕ)) (done : List ℕ) (own : IsLine line) (all : AreLines ls)
      (n : ℕ) (st : Script × Shell W) (r : Option (Loop (Script × Shell W)))
      → line_run line (suc n) st ≡ r
      → line_run
          (line_at (start line ls done own all) (length (start line ls done own all)) (length done))
          (number_at
            (start line ls done own all)
            (length (start line ls done own all))
            (length done)
            n)
          st
        ≡ r
  at_line line ls done own all n st r run =
      ap₂ (λ l k. line_run l k st) (line_at_lem line ls done own all)
        (number_at_lem line ls done own all n)
      ∙ run

  -- A round at a line, whatever the line does, if the rest of the lines is run as it should be.
  round_lem :
      (line : List ℕ) (ls : List (List ℕ)) (done : List ℕ) (own : IsLine line) (all : AreLines ls)
      (f n : ℕ) (st : Script × Shell W) (r : Option (Loop (Script × Shell W)))
      → line_run line (suc n) st ≡ r
      → ((st' : Script × Shell W)
          → ltb (length done + length line + 1) (length (start line ls done own all)) ≡ true
          → loop f (start line ls done own all) (length done + length line + 1) (suc n + 1) st'
            ≡ run_lines ls (suc n + 2) st')
      → (ltb (length done + length line + 1) (length (start line ls done own all)) ≡ false
          → ls ≡ [])
      → loop (suc f) (start line ls done own all) (length done) n st ≡ elim r [
        | none ↦ none
        | some round ↦ elim round [
          | leave st' ↦ some st'
          | go_on st' ↦ run_lines ls (suc n + 2) st'
        ]
      ]
  round_lem line ls done own all f n st none run rest over =
      round-none shell_out call walk name unfit fuel instance buffer f (start line ls done own all)
        (length (start line ls done own all)) (length done) n st st
        (at_line line ls done own all n st none run)
  round_lem line ls done own all f n st (some (leave st')) run rest over =
      round-leave shell_out call walk name unfit fuel instance buffer f (start line ls done own all)
        (length (start line ls done own all)) (length done) n st st'
        (at_line line ls done own all n st (some (leave st')) run)
  round_lem line ls done own all f n st (some (go_on st')) run rest over =
      let text = start line ls done own all in
      let ran = at_line line ls done own all n st (some (go_on st')) run in
      let next = next_at_lem' line ls done own all in
      let numbered : number_at text (length text) (length done) n
            + (breaks_at text (length text) (length done)).1
          ≡ suc n + 1 =
        ap₂ (λ k (b : ℕ × ℕ). k + b.1) (number_at_lem line ls done own all n)
          (breaks_at_lem line ls done own all) in
      elim (Bool-cases (ltb (length done + length line + 1) (length text))) [
        | inl more ↦
            round-next shell_out call walk name unfit fuel instance buffer f text (length text)
              (length done) n st st' ran (ap (λ k. ltb k (length text)) next ∙ more)
            ∙ ap₂ (λ k m. loop f text k m st') next numbered
            ∙ rest st' more
        | inr end ↦
            round-last shell_out call walk name unfit fuel instance buffer f text (length text)
              (length done) n st st' ran (ap (λ k. ltb k (length text)) next ∙ end)
            ∙ ap (λ ls. run_lines ls (suc n + 2) st') (sym (over end))
      ]

  lines_loop :
      (ls : List (List ℕ)) (line done : List ℕ) (f n : ℕ) (st : Script × Shell W)
      → IsLine line
      → AreLines ls
      → length ls < f
      → loop f (done ++ text_of (line ∷ ls)) (length done) n st ≡ run_lines (line ∷ ls) (suc n) st
  lines_loop ls line done zero n st own all fuel = absurd (omega arith)
  lines_loop [] line done (suc f) n st own all fuel =
      round_lem line [] done own all f n st (line_run line (suc n) st) refl
        (λ st' more. absurd (omega (arith, ltb→lt _ _ more, size_lem line [] done own all)))
        (λ end. refl)
  lines_loop (line' ∷ ls) line done (suc f) n st own (own', all) fuel =
      let rest = lines_loop ls line' (done ++ line ++ 10 ∷ []) f (suc n + 1) in
      let shape : done ++ line ++ 10 ∷ [] ++ text_of (line' ∷ ls)
          ≡ done ++ (line ++ 10 ∷ text_of (line' ∷ ls)) =
        append_assoc (done ++ line) (10 ∷ []) (text_of (line' ∷ ls))
        ∙ append_assoc done line (10 ∷ text_of (line' ∷ ls)) in
      let size : length (done ++ line ++ 10 ∷ []) ≡ length done + length line + 1 =
        length-append (done ++ line) (10 ∷ []) ∙ ap (λ k. k + 1) (length-append done line) in
      let number : suc (suc n + 1) ≡ suc n + 2 = omega arith in
      round_lem line (line' ∷ ls) done own (own', all) f n st (line_run line (suc n) st) refl
        (λ st' more.
          sym (ap₂ (λ t k. loop f t k (suc n + 1) st') shape size)
          ∙ rest st' own' all (omega arith)
          ∙ ap (λ k. run_lines (line' ∷ ls) k st') number)
        (λ end. absurd (
          omega (
            arith,
            ltb_false→le _ _ end,
            size_lem line (line' ∷ ls) done own (own', all),
            length-append line' (10 ∷ text_of ls),
          )))

  -- The loop of `corshell_script_run` over a text of lines, each of at least one byte and fewer than
  -- 256, without line breaks or NUL, and with its newline, with fuel for a round for each line: it
  -- runs the lines one by one, until one leaves; and it counts the first as number 1 and goes on by 2, so that the
  -- kth line has the number 2 * k - 1.
  pub script_loop-lines :
      (line : List ℕ) (ls : List (List ℕ)) (f : ℕ) (st : Script × Shell W)
      → IsLine line
      → AreLines ls
      → length ls < f
      → script_loop shell_out call walk name unfit fuel instance buffer f
          (text_of (line ∷ ls))
          (length (text_of (line ∷ ls)))
          0
          0
          st
        ≡ run_lines (line ∷ ls) 1 st
  script_loop-lines line ls f st own all enough = lines_loop ls line [] f 0 st own all enough
