-- ===== src/Shell/Split/Words.antt =====
-- The words that `corshell_cmd_split` of src/shell/corshell.c finds.
use nvol.Base.{
  ℕ, zero, suc, ◌+◌, ◌≤◌, ◌<◌, ◌≡◌, ◌≢◌, refl, ap, ◌∙◌, List, [], ◌∷◌, ◌++◌, false, arith, length,
  drop, set, lt→ltb, ==_ne,
}
use nvol.Dictionary.Keys.{c_string}
use nvol.Shell.Split.{
  SplitState, dull, in_word, in_string, Splitter, is_space, end_word, split_char, split_loop,
  words_at,
}

-- A word of a line as it is typed: plain, or between double quotes.
pub data Item : Type 0 where
  plain quoted : List ℕ → Item

-- A character of a plain word, and of a quoted one.
pub record IsWordChar (c : ℕ) : Type 0 where
  pub nonzero : c ≢ 0
  pub dark : is_space c ≡ false
  pub single : c ≢ 39
  pub double : c ≢ 34

abbrev pub AreWordChars : List ℕ → Type 0
AreWordChars [] = Unit
AreWordChars (c ∷ w) = IsWordChar c × AreWordChars w

abbrev pub AreQuotable : List ℕ → Type 0
AreQuotable [] = Unit
AreQuotable (c ∷ w) = (c ≢ 0) × (c ≢ 34) × AreQuotable w

abbrev pub IsItem : Item → Type 0
IsItem (plain []) = ⊥
IsItem (plain (c ∷ w)) = IsWordChar c × AreWordChars w
IsItem (quoted w) = AreQuotable w

abbrev pub AreItems : List Item → Type 0
AreItems [] = Unit
AreItems (i ∷ items) = IsItem i × AreItems items

abbrev pub item_word : Item → List ℕ
item_word (plain w) = w
item_word (quoted w) = w

abbrev pub item_text : Item → List ℕ
item_text (plain w) = w
item_text (quoted w) = 34 ∷ w ++ 34 ∷ []

-- The items, each before a blank, and the last one.
abbrev pub line_text : List Item → Item → List ℕ
line_text [] final = item_text final
line_text (i ∷ items) final = item_text i ++ 32 ∷ line_text items final

abbrev pub line_words : List Item → Item → List (List ℕ)
line_words [] final = item_word final ∷ []
line_words (i ∷ items) final = item_word i ∷ line_words items final

abbrev pub at : SplitState → ℕ → ℕ → List ℕ → List ℕ → Splitter
at state start strchar buffer argv = record {
  state = state;
  start_of_word = start;
  strchar = strchar;
  buffer = buffer;
  argv = argv;
}

pub set-middle :
    (done rest : List ℕ) (c : ℕ) → set (done ++ c ∷ rest) (length done) 0 ≡ done ++ 0 ∷ rest
set-middle [] rest c = refl
set-middle (x ∷ done) rest c = ap (λ t. x ∷ t) (set-middle done rest c)

pub words_at-snoc :
    (buffer argv : List ℕ) (p : ℕ)
    → words_at buffer (argv ++ p ∷ []) ≡ words_at buffer argv ++ c_string (drop p buffer) ∷ []
unfolding words_at
words_at-snoc buffer [] p = refl
words_at-snoc buffer (q ∷ argv) p =
    ap (λ t. c_string (drop q buffer) ∷ t) (words_at-snoc buffer argv p)

-- No byte of the word ends a string.
abbrev pub IsWhole : List ℕ → Type 0
IsWhole [] = Unit
IsWhole (c ∷ w) = (c ≢ 0) × IsWhole w

chars-IsWhole : (w : List ℕ) → AreWordChars w → IsWhole w
chars-IsWhole [] h = tt
chars-IsWhole (c ∷ w) (h, more) = (h.nonzero, chars-IsWhole w more)

quotable-IsWhole : (w : List ℕ) → AreQuotable w → IsWhole w
quotable-IsWhole [] h = tt
quotable-IsWhole (c ∷ w) (h, other, more) = (h, quotable-IsWhole w more)

pub item-IsWhole : (i : Item) → IsItem i → IsWhole (item_word i)
item-IsWhole (plain []) h = absurd h
item-IsWhole (plain (c ∷ w)) h = chars-IsWhole (c ∷ w) h
item-IsWhole (quoted w) h = quotable-IsWhole w h

pub c_string-IsWhole : (w rest : List ℕ) → IsWhole w → c_string (w ++ 0 ∷ rest) ≡ w
unfolding c_string
c_string-IsWhole [] rest h = refl
c_string-IsWhole (zero ∷ w) rest (h, more) = absurd (h refl)
c_string-IsWhole (suc c ∷ w) rest (h, more) = ap (λ t. suc c ∷ t) (c_string-IsWhole w rest more)

module _ (argv_size len : ℕ) where
  -- The loop goes on with a byte that is not NUL.
  pub step :
      (c : ℕ) (rest : List ℕ) (p : ℕ) (st : Splitter)
      → c ≢ 0
      → length st.argv < argv_size
      → p < len
      → split_loop argv_size len (c ∷ rest) p st
        ≡ split_loop argv_size len rest (p + 1) (split_char st.state p c st)
  unfolding split_loop
  step c rest p st h room here =
      rw (lt→ltb (length st.argv) argv_size room, ==_ne c 0 h, lt→ltb p len here) refl

  word_run :
      (w rest : List ℕ) (p start strchar : ℕ) (buffer argv : List ℕ)
      → AreWordChars w
      → length argv < argv_size
      → p + length w ≤ len
      → split_loop argv_size len (w ++ rest) p (at in_word start strchar buffer argv)
        ≡ split_loop argv_size len rest (p + length w) (at in_word start strchar buffer argv)
  unfolding split_char
  word_run [] rest p start strchar buffer argv h room fits =
      let e : p + 0 ≡ p = omega arith in rw e refl
  word_run (c ∷ w) rest p start strchar buffer argv (h, more) room fits =
      let e : p + 1 + length w ≡ p + suc (length w) = omega arith in
      let here : p < len = omega arith in
      step c (w ++ rest) p (at in_word start strchar buffer argv) h.nonzero room here
      ∙ rw (h.dark, ==_ne c 34 h.double, ← e)
          (word_run w rest (p + 1) start strchar buffer argv more room (omega arith))

  string_run :
      (w rest : List ℕ) (p start : ℕ) (buffer argv : List ℕ)
      → AreQuotable w
      → length argv < argv_size
      → p + length w ≤ len
      → split_loop argv_size len (w ++ rest) p (at in_string start 34 buffer argv)
        ≡ split_loop argv_size len rest (p + length w) (at in_string start 34 buffer argv)
  unfolding split_char
  string_run [] rest p start buffer argv h room fits = let e : p + 0 ≡ p = omega arith in rw e refl
  string_run (c ∷ w) rest p start buffer argv (h, other, more) room fits =
      let e : p + 1 + length w ≡ p + suc (length w) = omega arith in
      let here : p < len = omega arith in
      step c (w ++ rest) p (at in_string start 34 buffer argv) h room here
      ∙ rw (==_ne c 34 other, ← e)
          (string_run w rest (p + 1) start buffer argv more room (omega arith))

  pub plain_run :
      (c : ℕ) (w rest : List ℕ) (p start strchar : ℕ) (buffer argv : List ℕ)
      → IsWordChar c × AreWordChars w
      → length argv < argv_size
      → p + suc (length w) ≤ len
      → split_loop argv_size len (c ∷ w ++ rest) p (at dull start strchar buffer argv)
        ≡ split_loop argv_size len rest (p + suc (length w)) (at in_word p strchar buffer argv)
  unfolding split_char
  plain_run c w rest p start strchar buffer argv (h, more) room fits =
      let here : p < len = omega arith in
      let e : p + 1 + length w ≡ p + suc (length w) = omega arith in
      step c (w ++ rest) p (at dull start strchar buffer argv) h.nonzero room here
      ∙ rw (h.dark, ==_ne c 34 h.double, ==_ne c 39 h.single, ← e)
          (word_run w rest (p + 1) p strchar buffer argv more room (omega arith))

  pub quoted_run :
      (w rest : List ℕ) (p start strchar : ℕ) (buffer argv : List ℕ)
      → AreQuotable w
      → length argv < argv_size
      → p + length w + 2 ≤ len
      → split_loop argv_size len (34 ∷ w ++ 34 ∷ rest) p (at dull start strchar buffer argv)
        ≡ split_loop argv_size len rest
            (p + length w + 2)
            (at dull (p + 1) 34 (set buffer (p + 1 + length w) 0) (argv ++ (p + 1) ∷ []))
  unfolding split_char is_space end_word
  quoted_run w rest p start strchar buffer argv h room fits =
      let here : p < len = omega arith in
      let there : p + 1 + length w < len = omega arith in
      let e : p + 1 + length w + 1 ≡ p + length w + 2 = omega arith in
      step 34 (w ++ 34 ∷ rest) p (at dull start strchar buffer argv) (ground arith) room here
      ∙ string_run w (34 ∷ rest) (p + 1) (p + 1) buffer argv h room (omega arith)
      ∙ step 34 rest (p + 1 + length w) (at in_string (p + 1) 34 buffer argv) (ground arith) room
          there
      ∙ rw e refl

  pub blank_run :
      (rest : List ℕ) (p start strchar : ℕ) (buffer argv : List ℕ)
      → length argv < argv_size
      → p < len
      → split_loop argv_size len (32 ∷ rest) p (at in_word start strchar buffer argv)
        ≡ split_loop argv_size len rest
            (p + 1)
            (at dull start strchar (set buffer p 0) (argv ++ start ∷ []))
  unfolding split_char is_space end_word
  blank_run rest p start strchar buffer argv room here =
      step 32 rest p (at in_word start strchar buffer argv) (ground arith) room here

  pub skip_run :
      (rest : List ℕ) (p start strchar : ℕ) (buffer argv : List ℕ)
      → length argv < argv_size
      → p < len
      → split_loop argv_size len (32 ∷ rest) p (at dull start strchar buffer argv)
        ≡ split_loop argv_size len rest (p + 1) (at dull start strchar buffer argv)
  unfolding split_char is_space
  skip_run rest p start strchar buffer argv room here =
      step 32 rest p (at dull start strchar buffer argv) (ground arith) room here
