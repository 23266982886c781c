-- ===== src/Shell/Script/Plain.antt =====
-- What a line of a script without substitutions does (src/shell/corshell.c).
use Prim.Native.Nat.{min}
use nvol.Base.{
  Bool, ℕ, zero, suc, ◌+◌, ◌-◌, ◌≤◌, ◌<◌, ◌≡◌, refl, ap, ap₂, ◌∙◌, List, [], ◌∷◌, ◌++◌, false, some,
  arith, ◌==◌, if◌then◌else◌, length, take, length-append, append_assoc, ==_refl, inl, inr,
}
use nvol.Shell.Lines.{line_size_max, read_bytes}
use nvol.Shell.Script.{
  Script, split_line, parse_line, run_words, run_line, line_strsub_size_max, argc_max,
}
use nvol.Shell.Split.Line.{corshell_cmd_split-line}
use nvol.Shell.Split.Words.{Item, AreItems, IsItem, line_text, line_words}
use nvol.Shell.Split.{corshell_cmd_split, words_at}
use nvol.Shell.{ℤ, Shell, ShellOut, Call}
use nvol.Strsub.Plain.{ArePlain}
use nvol.Strsub.Sink.{Sink, write_bytes, strsub_parse_string_to}
use nvol.Strsub.Strings.{write_bytes_outside, strsub_parse_string_to-plain}
use nvol.Strsub.{Strsub}

-- Bytes that were written are read again.
read_bytes-write_bytes :
    (bytes : List ℕ) (cell : ℕ → ℕ) (a n : ℕ)
    → length bytes ≤ n
    → (rest : List ℕ) × (read_bytes (write_bytes cell a bytes) a n ≡ bytes ++ rest)
unfolding read_bytes write_bytes
read_bytes-write_bytes [] cell a n h = (read_bytes cell a n, refl)
read_bytes-write_bytes (b ∷ bytes) cell a zero h = absurd (omega arith)
read_bytes-write_bytes (b ∷ bytes) cell a (suc n) h =
    let cell' : ℕ → ℕ = λ c. if c == a then b else cell c in
    let (rest, e) = read_bytes-write_bytes bytes cell' (a + 1) n (omega arith) in
    let here : write_bytes cell' (a + 1) bytes a ≡ b =
      write_bytes_outside cell' (a + 1) bytes a (inl (omega arith)) ∙ rw (==_refl a) refl in
    (rest, ap₂ (λ x t. x ∷ t) here e)

take_whole : (xs : List ℕ) (n : ℕ) → length xs ≤ n → take n xs ≡ xs
take_whole [] zero h = refl
take_whole [] (suc n) h = refl
take_whole (x ∷ xs) zero h = absurd (omega arith)
take_whole (x ∷ xs) (suc n) h = ap (λ t. x ∷ t) (take_whole xs n (omega arith))

some_words : (items : List Item) (final : Item) → (length (line_words items final) == 0) ≡ false
some_words [] final = refl
some_words (i ∷ items) final = ground arith

module _ (fuel : ℕ) (instance : Strsub Sink) (buffer : ℕ) (items : List Item) (final : Item)
    (all : AreItems items) (last : IsItem final) (few : length items < argc_max - 1)
    (plain : ArePlain instance (line_text items final))
    (short : length (line_text items final) < line_size_max) where
  -- `parse_line` gives the words of a line that has at most 13 words, plain ones (one byte or more, no
  -- blanks, quotes or NUL) or quoted ones (any bytes but a double quote and NUL), with one blank between
  -- them, and fewer than 256 bytes, none of which escapes or opens a substitution.
  pub parse_line-words :
      (cell : ℕ → ℕ)
      → (cell' : ℕ → ℕ) × (parse_line fuel instance buffer (line_text items final) cell
          ≡ some (line_words items final, cell'))
  unfolding parse_line split_line
  parse_line-words cell =
      let line = line_text items final in
      let mem = write_bytes (write_bytes cell buffer (0 ∷ [])) buffer (line ++ 0 ∷ []) in
      let whole = length-append line (0 ∷ []) in
      let (rest, read) =
        read_bytes-write_bytes (line ++ 0 ∷ []) (write_bytes cell buffer (0 ∷ [])) buffer
          line_strsub_size_max (omega (arith, whole, short)) in
      let parsed =
        strsub_parse_string_to-plain fuel instance cell line [] plain (length line) buffer 319
          (inr (omega arith)) (omega arith) in
      let size : min (length line) 319 ≡ length line = omega (arith, short) in
      let fits : take 319 (line ++ 0 ∷ []) ≡ line ++ 0 ∷ [] =
        take_whole (line ++ 0 ∷ []) 319 (omega (arith, whole, short)) in
      let run : strsub_parse_string_to fuel instance cell (some (line ++ 0 ∷ [])) (length line)
            buffer line_strsub_size_max
          ≡ some (length line, mem) =
        parsed
        ∙ ap₂ (λ k t. some (k, write_bytes (write_bytes cell buffer (0 ∷ [])) buffer t)) size
            fits in
      let bytes : read_bytes mem buffer line_strsub_size_max ≡ line ++ 0 ∷ rest =
        read ∙ append_assoc line (0 ∷ []) rest in
      let words =
        corshell_cmd_split-line items final rest (argc_max - 1) (length line) all last few
          (omega arith) in
      (
        (split_line buffer (length line) mem).1,
        rw (parse_line, run)
            (ap (λ t. some (t, (split_line buffer (length line) mem).1))
              (ap
                  (λ t.
                    words_at (corshell_cmd_split t (length line) (argc_max - 1)).1
                      (corshell_cmd_split t (length line) (argc_max - 1)).0)
                  bytes
                ∙ words)),
      )

  -- `run_line` of a line of words is what its words do.
  pub run_line-words :
      {W : Type 0} (shell_out : ShellOut W) (call : Call W) (walk : ℕ) (name : List ℕ)
      (unfit : Bool × ℕ → ℤ) (n : ℕ) (st : Script) (s : Shell W)
      → (cell : ℕ → ℕ) × (run_line shell_out call walk name unfit fuel instance buffer
            (line_text items final)
            n
            (st, s)
          ≡ run_words shell_out call walk name unfit
              (line_words items final)
              n
              (record st { cell = cell }, s))
  unfolding run_line
  run_line-words shell_out call walk name unfit n st s =
      let (cell, run) = parse_line-words st.cell in
      let more : (length (line_words items final) == 0) ≡ false = some_words items final in
      (cell, rw (run_line, run, more) refl)
