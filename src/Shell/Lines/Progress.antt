-- ===== src/Shell/Lines/Progress.antt =====
-- How far the loops over the bytes of a text go in a round (src/shell/corshell.c).
use nvol.Base.{
  ℕ, suc, ◌+◌, ◌-◌, ◌≤◌, ◌<◌, ◌≡◌, refl, List, [], ◌∷◌, true, false, arith, ◌==◌, ◌||◌, length,
  drop, Bool-cases, inl, inr, lt→ltb,
}
use nvol.Shell.Lines.{line_size_max, is_break, copy_line, skip_breaks}

pub copy_line-short : (text : List ℕ) (left room : ℕ) → length (copy_line text left room) ≤ room
unfolding copy_line
copy_line-short [] left room = omega arith
copy_line-short (c ∷ text) left room =
    let rest = copy_line-short text (left - 1) (room - 1) in
    elim (Bool-cases (is_break c || left == 0 || room == 0)) [
      | inl e ↦ rw e (omega arith)
      | inr e ↦ rw e (ground (arith, e, rest))
    ]

pub copy_line-break :
    (c : ℕ) (text : List ℕ) (left room : ℕ)
    → is_break c ≡ true
    → copy_line (c ∷ text) left room ≡ []
unfolding copy_line
copy_line-break c text left room e = rw e refl

pub copy_line-char :
    (c : ℕ) (text : List ℕ) (left room : ℕ)
    → is_break c ≡ false
    → 0 < left
    → 0 < room
    → copy_line (c ∷ text) left room ≡ c ∷ copy_line text (left - 1) (room - 1)
unfolding copy_line
copy_line-char c text left room e h h' =
    let more : (left == 0) ≡ false = ground arith in
    let more' : (room == 0) ≡ false = ground arith in rw (e, more, more') refl

pub skip_breaks-break :
    (c : ℕ) (text : List ℕ) (left : ℕ)
    → is_break c ≡ true
    → 0 < left
    → (skip_breaks (c ∷ text) left).0 ≡ suc (skip_breaks text (left - 1)).0
unfolding skip_breaks
skip_breaks-break c text left e h = rw (e, lt→ltb 0 left h) refl

-- The bytes that a round passes by at the start of a text.
abbrev pub passed : List ℕ → ℕ → ℕ
passed text left =
    let line = copy_line text left (line_size_max - 1) in
    length line + (skip_breaks (drop (length line) text) (left - length line)).0

-- A round that starts before the end passes by one byte at least.
pub passed_lem : (text : List ℕ) (left : ℕ) → 0 < left → 0 < passed text left
unfolding skip_breaks copy_line
passed_lem [] left h = omega arith
passed_lem (c ∷ text) left h = elim (Bool-cases (is_break c)) [
  | inl e ↦ rw (copy_line-break c text left (line_size_max - 1) e) (
      let all : left - 0 ≡ left = omega arith in
      rw (all, skip_breaks-break c text left e h) (omega arith))
  | inr e ↦ rw (copy_line-char c text left (line_size_max - 1) e h (ground arith)) (omega arith)
]
