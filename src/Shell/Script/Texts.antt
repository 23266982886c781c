-- ===== src/Shell/Script/Texts.antt =====
-- A text of lines, as the loop of `corshell_script_run` of src/shell/corshell.c takes it apart.
use nvol.Base.{
  ℕ, suc, ◌+◌, ◌-◌, ◌≤◌, ◌<◌, ◌≡◌, refl, ap, ap₂, ◌∙◌, List, [], ◌∷◌, ◌++◌, true, false, arith, ltb,
  ◌==◌, if◌then◌else◌, length, drop, get_or, length-append, drop_append, get_or-append_right,
  lt→ltb,
}
use nvol.Shell.Lines.{line_size_max, is_break, copy_line, skip_breaks}
use nvol.Shell.Lines.Progress.{copy_line-break, copy_line-char}
use nvol.Shell.Script.Rounds.{drop_add, line_at, end_at, number_at, breaks_at, next_at}

abbrev pub HasNoBreak : List ℕ → Type 0
HasNoBreak [] = Unit
HasNoBreak (c ∷ line) = (is_break c ≡ false) × HasNoBreak line

-- A line with a byte at least, no line breaks or NUL, and not too long for the buffer.
abbrev pub IsLine : List ℕ → Type 0
IsLine [] = ⊥
IsLine (c ∷ line) = HasNoBreak (c ∷ line) × (length (c ∷ line) < line_size_max)

abbrev pub AreLines : List (List ℕ) → Type 0
AreLines [] = Unit
AreLines (line ∷ ls) = IsLine line × AreLines ls

-- Each line with a newline.
abbrev pub text_of : List (List ℕ) → List ℕ
text_of [] = []
text_of (line ∷ ls) = line ++ 10 ∷ text_of ls

pub line_parts : (line : List ℕ) → IsLine line → HasNoBreak line × (length line < line_size_max)
line_parts [] h = absurd h
line_parts (c ∷ line) h = h

copy_line-line :
    (line rest : List ℕ) (left room : ℕ)
    → HasNoBreak line
    → length line < left
    → length line ≤ room
    → copy_line (line ++ 10 ∷ rest) left room ≡ line
unfolding is_break
copy_line-line [] rest left room h fits short = copy_line-break 10 rest left room refl
copy_line-line (c ∷ line) rest left room (h, more) fits short =
    copy_line-char c (line ++ 10 ∷ rest) left room h (omega arith) (omega arith)
    ∙ ap (λ t. c ∷ t)
        (copy_line-line line rest (left - 1) (room - 1) more (omega arith) (omega arith))

-- Behind the newline of a line stands the next one, or nothing.
one_break :
    (ls : List (List ℕ)) (left : ℕ)
    → AreLines ls
    → left ≡ length (text_of ls) + 1
    → skip_breaks (10 ∷ text_of ls) left ≡ (1, 1)
unfolding skip_breaks is_break
one_break [] left h e = let size : left ≡ 1 = e ∙ omega arith in rw size refl
one_break ([] ∷ ls) left (h, rest) e = absurd h
one_break ((c ∷ line) ∷ ls) left (((h, more), short), rest) e =
    let some_left : ltb 0 left ≡ true = lt→ltb 0 left (omega (arith, e)) in
    rw (skip_breaks, some_left) (rw (skip_breaks, h) refl)

module _ (line : List ℕ) (ls : List (List ℕ)) (done : List ℕ) (own : IsLine line)
    (all : AreLines ls) where
  abbrev pub start : List ℕ
  start = done ++ (line ++ 10 ∷ text_of ls)

  pub size_lem : length start ≡ length done + (length line + (1 + length (text_of ls)))
  size_lem =
      omega
        (arith, length-append done (line ++ 10 ∷ text_of ls), length-append line (10 ∷ text_of ls))

  from_here : drop (length done) start ≡ line ++ 10 ∷ text_of ls
  from_here = drop_append done (line ++ 10 ∷ text_of ls)

  pub line_at_lem : line_at start (length start) (length done) ≡ line
  line_at_lem =
      let (clean, short) = line_parts line own in
      ap (λ t. copy_line t (length start - length done) (line_size_max - 1)) from_here
      ∙ copy_line-line line (text_of ls) (length start - length done) (line_size_max - 1) clean
          (omega (arith, size_lem)) (omega (arith, short))

  end_at_lem : end_at start (length start) (length done) ≡ length done + length line
  end_at_lem = ap (λ t. length done + length t) line_at_lem

  pub number_at_lem : (n : ℕ) → number_at start (length start) (length done) n ≡ suc n
  number_at_lem n =
      let here : length line ≡ length line + 0 = omega arith in
      let at_end : get_or start (end_at start (length start) (length done)) 0 ≡ 10 =
        ap (λ k. get_or start k 0) end_at_lem
        ∙ get_or-append_right done (line ++ 10 ∷ text_of ls) (length line) 0
        ∙ ap (λ k. get_or (line ++ 10 ∷ text_of ls) k 0) here
        ∙ get_or-append_right line (10 ∷ text_of ls) 0 0 in
      ap (λ c. if c == 10 then suc n else n) at_end

  pub breaks_at_lem : breaks_at start (length start) (length done) ≡ (1, 1)
  breaks_at_lem =
      let rest : drop (end_at start (length start) (length done)) start ≡ 10 ∷ text_of ls =
        ap (λ k. drop k start) end_at_lem
        ∙ drop_add (length done) (length line) start
        ∙ ap (λ t. drop (length line) t) from_here
        ∙ drop_append line (10 ∷ text_of ls) in
      ap (λ t. skip_breaks t (length start - end_at start (length start) (length done))) rest
      ∙ one_break ls (length start - end_at start (length start) (length done)) all
          (omega (arith, size_lem, end_at_lem))

  pub next_at_lem' : next_at start (length start) (length done) ≡ length done + length line + 1
  next_at_lem' = ap₂ (λ k (b : ℕ × ℕ). k + b.0) end_at_lem breaks_at_lem
