-- ===== src/Shell/Script/Ends.antt =====
-- The termination of `corshell_script_run` of src/shell/corshell.c.
use nvol.Base.{
  Bool, ℕ, zero, suc, ◌+◌, ◌-◌, ◌≤◌, ◌<◌, ◌≡◌, refl, ◌∙◌, List, [], ◌∷◌, ◌++◌, true, none, some,
  arith, ltb, ◌==◌, length, drop, length-append, Bool-cases, Option-cases, inl, inr, ltb→lt,
}
use nvol.Base.Bytes.{inc32}
use nvol.Base.Heap.{heap_malloc}
use nvol.Base.Integer.{ℤ, pos, negsuc, is_negative}
use nvol.Shell.Chain.{IsChain, positions}
use nvol.Shell.Lines.{line_size_max}
use nvol.Shell.Lines.Progress.{copy_line-short}
use nvol.Shell.Script.Rounds.{
  line_at, number_at, breaks_at, next_at, next_at_lem, round-leave, round-last, round-next,
}
use nvol.Shell.Script.Steps.{Ends, shell_of, CallsEnd, run_words-Ends}
use nvol.Shell.Script.{
  Script, normal, split_line, parse_line, run_line, script_loop, script_end, corshell_script_run,
  line_strsub_size_max,
}
use nvol.Shell.{Command, Lists, Loop, leave, go_on, Shell, ShellOut, Call, static_list, out_null}
use nvol.Strsub.Bounds.{Inside, strsub_parse_string_to-bounds}
use nvol.Strsub.Keeps.{Polite, HasChains}
use nvol.Strsub.Sink.{Sink}
use nvol.Strsub.{Strsub}

-- The handlers of the substitution form chains, and write by the function that they are given.
pub record IsSubstitution (fuel : ℕ) (instance : Strsub Sink) : Type 0 where
  pub polite :
      (cell : ℕ → ℕ) (dst : ℕ) → Polite (Inside cell dst line_strsub_size_max) instance.memory
  pub chains :
      (cell : ℕ → ℕ) (dst : ℕ) → HasChains (Inside cell dst line_strsub_size_max) fuel instance

module _ {W : Type 0} (shell_out : ShellOut W) (call : Call W) (lists : Lists) (walk : ℕ)
    (name : List ℕ) (unfit : Bool × ℕ → ℤ) (l : List ℕ) (css : List (List Command))
    (chain : IsChain lists static_list (static_list ∷ l) css)
    (enough : length (positions (static_list ∷ l) css) ≤ walk) (calls : CallsEnd call lists) where
  module _ (fuel : ℕ) (instance : Strsub Sink) (sub : IsSubstitution fuel instance)
      (buffer : ℕ) where
    parse_line-returns :
        (line : List ℕ) (cell : ℕ → ℕ)
        → length line < line_size_max
        → (r : List (List ℕ) × (ℕ → ℕ)) × (parse_line fuel instance buffer line cell ≡ some r)
    unfolding parse_line
    parse_line-returns line cell short =
        let (offset, mem, run, same) =
          strsub_parse_string_to-bounds cell buffer line_strsub_size_max fuel instance
            (line ++ 0 ∷ []) (length line) (buffer + line_strsub_size_max) (inr (omega arith))
            (omega arith) (omega arith) (omega (arith, length-append line (0 ∷ []), short))
            (sub.polite cell buffer) (sub.chains cell buffer) in
        (split_line buffer offset mem, rw (parse_line, run) refl)

    run_line-Ends :
        (line : List ℕ) (n : ℕ) (st : Script) (s : Shell W)
        → length line < line_size_max
        → s.lists ≡ lists
        → Ends lists
            (run_line shell_out call walk name unfit fuel instance buffer line n (st, s))
            shell_of
    unfolding run_line
    run_line-Ends line n st s short h =
        let ((argv, cell), run) = parse_line-returns line st.cell short in
        let st' : Script = record st { cell = cell } in
        let (r, words, same) =
          run_words-Ends shell_out call lists walk name unfit l css chain enough calls argv n st' s
            h in
        elim (Bool-cases (length argv == 0)) [
          | inl e ↦ (go_on (st', s), rw (run_line, run, e) refl, h)
          | inr e ↦ (r, rw (run_line, run, e) words, same)
        ]

    abbrev LoopEnds : ℕ → List ℕ → ℕ → ℕ → ℕ → Script → Shell W → Type 0
    LoopEnds f start size i n st s =
        Ends lists
          (script_loop shell_out call walk name unfit fuel instance buffer f start size i n (st, s))
          (λ r. r.1)

    -- The end of a round, if the next one ends.
    round-Ends :
        (f : ℕ) (start : List ℕ) (size i n : ℕ) (st : Script) (s : Shell W)
        (r : Loop (Script × Shell W))
        → run_line shell_out call walk name unfit fuel instance buffer
            (line_at start size i)
            (number_at start size i n)
            (st, s)
          ≡ some r
        → (shell_of r).lists ≡ lists
        → (ltb (next_at start size i) size ≡ true
            → (m : ℕ) (st' : Script) (s' : Shell W) → s'.lists ≡ lists
            → LoopEnds f start size (next_at start size i) m st' s')
        → LoopEnds (suc f) start size i n st s
    round-Ends f start size i n st s (leave r) run same rest = (
      r,
      round-leave shell_out call walk name unfit fuel instance buffer f start size i n (st, s) r
          run,
      same,
    )
    round-Ends f start size i n st s (go_on (st', s')) run same rest =
        elim (Bool-cases (ltb (next_at start size i) size)) [
          | inr over ↦ (
            (st', s'),
            round-last shell_out call walk name unfit fuel instance buffer f start size i n (st, s)
                (st', s') run over,
            same,
          )
          | inl more ↦
              let (r, loop, same') =
                rest more (number_at start size i n + (breaks_at start size i).1) st' s' same in
              (
                r,
                round-next shell_out call walk name unfit fuel instance buffer f start size i n
                      (st, s) (st', s') run more
                    ∙ loop,
                same',
              )
        ]

    loop-Ends :
        (f : ℕ) (start : List ℕ) (size i n : ℕ) (st : Script) (s : Shell W)
        → s.lists ≡ lists
        → size ≤ f + i
        → LoopEnds (suc f) start size i n st s
    loop-Ends zero start size i n st s h reach =
        let short = copy_line-short (drop i start) (size - i) (line_size_max - 1) in
        let (r, run, same) =
          run_line-Ends (line_at start size i) (number_at start size i n) st s
            (omega (arith, short)) h in
        round-Ends zero start size i n st s r run same
          (λ more. absurd (omega (arith, ltb→lt _ _ more)))
    loop-Ends (suc f) start size i n st s h reach =
        let short = copy_line-short (drop i start) (size - i) (line_size_max - 1) in
        let (r, run, same) =
          run_line-Ends (line_at start size i) (number_at start size i n) st s
            (omega (arith, short)) h in
        let rest = loop-Ends f start size (next_at start size i) in
        round-Ends (suc f) start size i n st s r run same (λ more m st' s' h'. rest m st' s' h' (
          omega
            (arith, ltb→lt _ _ more, next_at_lem start size i (omega (arith, ltb→lt _ _ more)))))

  -- The local variables at the start.
  abbrev fresh : ℕ → Script
  fresh fill = record { status = pos 0; lasterror = pos 0; error_state = normal; cell = λ b. fill }

  script_end-lists :
      (st : Script) (s : Shell W)
      → (script_end shell_out call walk name unfit st s).1.lists ≡ s.lists
  unfolding script_end
  script_end-lists st s = refl

  -- `corshell_script_run` of any text returns, and leaves the lists of commands as they were, with
  -- fuel for one round more than the text has bytes and for every command of the chain of lists, if
  -- every command returns and leaves the lists as they are, and the handlers of the substitution
  -- form chains and write by the function that they are given.
  pub corshell_script_run-Ends :
      (fuel : ℕ) (instance : Strsub Sink) (start : List ℕ) (size : ℕ) (s : Shell W)
      → IsSubstitution fuel instance
      → s.lists ≡ lists
      → Ends lists
          (corshell_script_run shell_out call walk name unfit (size + 1) fuel instance start size s)
          (λ r. r.1)
  unfolding corshell_script_run
  corshell_script_run-Ends fuel instance start size s sub h =
      let out = shell_out out_null none s.world in
      let one : size + 1 ≡ suc size = omega arith in
      elim (Bool-cases (is_negative out.0)) [
        | inl e ↦ (
          (out.0, record s { recurse = inc32 s.recurse; world = out.1 }),
          rw (corshell_script_run, e) refl,
          h,
        )
        | inr e ↦ elim (Option-cases (heap_malloc s.heap).0) [
          | inl m ↦ (
            (
              negsuc 7,
              record s { recurse = inc32 s.recurse; world = out.1; heap = (heap_malloc s.heap).1 },
            ),
            rw (corshell_script_run, e, m) refl,
            h,
          )
          | inr (a, m) ↦
              let heap = (heap_malloc (heap_malloc s.heap).1).1 in
              let s2 : Shell W = record s {
                recurse = inc32 s.recurse;
                world = out.1;
                heap = heap;
              } in
              elim (Option-cases (heap_malloc (heap_malloc s.heap).1).0) [
                | inl m' ↦ ((negsuc 7, s2), rw (corshell_script_run, e, m, m') refl, h)
                | inr (buffer, m') ↦
                    let ((st, s3), loop, same) =
                      loop-Ends fuel instance sub buffer size start size 0 0 (fresh s.heap.fill) s2
                        h (omega arith) in
                    (
                      script_end shell_out call walk name unfit st s3,
                      rw (corshell_script_run, e, m, m', one, loop) refl,
                      script_end-lists st s3 ∙ same,
                    )
              ]
        ]
      ]
