-- ===== src/Shell/Split.antt =====
-- `corshell_cmd_split` of src/shell/corshell.c. A pointer into the buffer is its offset.
pub mod Bounds
pub mod Words
pub mod Cut
pub mod Line
use nvol.Base.{
  ℕ, suc, ◌+◌, ◌-◌, List, [], ◌∷◌, ◌++◌, Bool, true, false, ltb, leb, ◌==◌, not, ◌&&◌, ◌||◌,
  if◌then◌else◌, get_or, set, drop, length, take,
}
use nvol.Dictionary.Keys.{c_string}

pub data SplitState : Type 0 where
  dull in_word in_string in_word_string : SplitState

-- The local variables; of `argv`, the `argc` pointers that are set.
pub record Splitter : Type 0 where
  pub state : SplitState
  pub start_of_word : ℕ
  pub strchar : ℕ
  pub buffer : List ℕ
  pub argv : List ℕ

-- `isspace`, in the C locale
unfoldable pub is_space : ℕ → Bool
is_space c = c == 32 || leb 9 c && leb c 13

-- `*p = 0 ; argv[argc++] = start_of_word ; state = DULL`
unfoldable pub end_word : ℕ → Splitter → Splitter
end_word p st = record st {
  buffer = set st.buffer p 0;
  argv = st.argv ++ st.start_of_word ∷ [];
  state = dull;
}

-- The body of the loop for the character `c` at `p`.
unfoldable pub split_char : SplitState → ℕ → ℕ → Splitter → Splitter
unfolding is_space end_word
split_char dull p c st =
    if is_space c
    then st
    else if c == 34 || c == 39
    then record st { state = in_string; strchar = c; start_of_word = p + 1 }
    else record st { state = in_word; start_of_word = p }
split_char in_string p c st = if c == st.strchar then end_word p st else st
split_char in_word p c st =
    if is_space c
    then end_word p st
    else if c == 34
    then record st { state = in_word_string }
    else st
split_char in_word_string p c st = if c == 34 then record st { state = in_word } else st

-- The loop over the characters from `p` on, up to `argv_size` words, a NUL, or `len` characters.
unfoldable pub split_loop : ℕ → ℕ → List ℕ → ℕ → Splitter → Splitter
unfolding split_char
split_loop argv_size len [] p st = st
split_loop argv_size len (c ∷ rest) p st =
    let next = split_loop argv_size len rest (p + 1) (split_char st.state p c st) in
    if ltb (length st.argv) argv_size && not (c == 0) && ltb p len then next else st

unfoldable pub is_dull : SplitState → Bool
is_dull dull = true
is_dull _ = false

-- The word that the end of the text closes.
unfoldable pub last_word : ℕ → Splitter → Splitter
unfolding is_dull
last_word argv_size st =
    if not (is_dull st.state) && ltb (length st.argv) argv_size
    then record st { argv = st.argv ++ st.start_of_word ∷ [] }
    else st

-- `corshell_cmd_split`: the words' offsets, whose number is returned, and the buffer.
unfoldable pub corshell_cmd_split : List ℕ → ℕ → ℕ → List ℕ × List ℕ
unfolding split_loop last_word
corshell_cmd_split buffer len argv_size =
    let st = last_word argv_size (
      split_loop argv_size len buffer 0
        (record { state = dull; start_of_word = 0; strchar = 0; buffer = buffer; argv = [] })) in
    (st.argv, st.buffer)

-- The strings that the pointers of `argv` lead to.
unfoldable pub words_at : List ℕ → List ℕ → List (List ℕ)
unfolding c_string
words_at buffer [] = []
words_at buffer (p ∷ argv) = c_string (drop p buffer) ∷ words_at buffer argv
