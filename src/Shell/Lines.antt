-- ===== src/Shell/Lines.antt =====
-- The loops of `corshell_script_run` of src/shell/corshell.c over the bytes of a text.
pub mod Progress
use nvol.Base.{
  ℕ, zero, suc, ◌+◌, ◌-◌, List, [], ◌∷◌, Bool, true, ltb, ◌==◌, ◌&&◌, ◌||◌, if◌then◌else◌,
}

-- `CORSHELL_LINE_SIZE_MAX`
abbrev pub line_size_max : ℕ
line_size_max = 256

unfoldable pub is_break : ℕ → Bool
is_break c = c == 13 || c == 10 || c == 0

-- The loop that copies a line: up to a break, the end of the text, or the end of the buffer.
unfoldable pub copy_line : List ℕ → ℕ → ℕ → List ℕ
unfolding is_break
copy_line [] left room = []
copy_line (c ∷ text) left room =
    let rest = copy_line text (left - 1) (room - 1) in
    if is_break c || left == 0 || room == 0 then [] else c ∷ rest

-- The loop over the breaks: how many, and how many of them are newlines. Behind the bytes of the text
-- there is NUL, up to its length.
unfoldable pub skip_breaks : List ℕ → ℕ → ℕ × ℕ
unfolding is_break
skip_breaks [] left = (left, 0)
skip_breaks (c ∷ text) left =
    let (n, lines) = skip_breaks text (left - 1) in
    if is_break c && ltb 0 left then (suc n, if c == 10 then suc lines else lines) else (0, 0)

-- The bytes of the memory from an address on.
unfoldable pub read_bytes : (ℕ → ℕ) → ℕ → ℕ → List ℕ
read_bytes cell a zero = []
read_bytes cell a (suc n) = cell a ∷ read_bytes cell (a + 1) n
