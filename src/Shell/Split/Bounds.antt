-- ===== src/Shell/Split/Bounds.antt =====
-- What `corshell_cmd_split` of src/shell/corshell.c writes, and where the words start.
use nvol.Base.{
  ℕ, zero, suc, ◌+◌, ◌≤◌, ◌<◌, ◌≡◌, refl, ◌∙◌, List, [], ◌∷◌, ◌++◌, arith, ltb, ◌==◌, not, ◌&&◌,
  ◌||◌, length, get_or, set, length-append, length-set, get_or-set_ne, Bool-cases, inl, inr,
}
use nvol.Shell.Split.{
  SplitState, dull, in_word, in_string, in_word_string, Splitter, is_space, end_word, split_char,
  split_loop, is_dull, last_word, corshell_cmd_split,
}

get_or-snoc :
    (xs : List ℕ) (x bound i : ℕ)
    → ((j : ℕ) → get_or xs j 0 ≤ bound)
    → x ≤ bound
    → get_or (xs ++ x ∷ []) i 0 ≤ bound
get_or-snoc [] x bound zero h l = l
get_or-snoc [] x bound (suc i) h l = omega arith
get_or-snoc (y ∷ xs) x bound zero h l = h 0
get_or-snoc (y ∷ xs) x bound (suc i) h l = get_or-snoc xs x bound i (λ j. h (suc j)) l

module _ (argv_size len : ℕ) (buffer : List ℕ) where
  -- The pointers lead into the buffer, and behind the first `len` bytes it is as it was.
  pub record Inside (st : Splitter) : Type 0 where
    pub count : length st.argv ≤ argv_size
    pub starts : (i : ℕ) → get_or st.argv i 0 ≤ len
    pub start : st.start_of_word ≤ len
    pub size : length st.buffer ≡ length buffer
    pub behind : (i : ℕ) → len ≤ i → get_or st.buffer i 0 ≡ get_or buffer i 0

  one_more :
      (st : Splitter) (bytes : List ℕ) (state : SplitState)
      → Inside st
      → length st.argv < argv_size
      → length bytes ≡ length buffer
      → ((i : ℕ) → len ≤ i → get_or bytes i 0 ≡ get_or buffer i 0)
      → Inside
          (record st { buffer = bytes; argv = st.argv ++ st.start_of_word ∷ []; state = state })
  one_more st bytes state h room size behind = record {
    count = omega (arith, length-append st.argv (st.start_of_word ∷ []));
    starts = λ i. get_or-snoc st.argv st.start_of_word len i h.starts h.start;
    start = h.start;
    size = size;
    behind = behind;
  }

  end_word-Inside :
      (p : ℕ) (st : Splitter)
      → Inside st
      → p < len
      → length st.argv < argv_size
      → Inside (end_word p st)
  unfolding end_word
  end_word-Inside p st h here room =
      one_more st (set st.buffer p 0) dull h room (length-set st.buffer p 0 ∙ h.size)
        (λ i l. get_or-set_ne st.buffer p i 0 0 (omega (arith, here, l)) ∙ h.behind i l)

  -- Only the state, the start of a word inside the buffer, and the closing quote change.
  moved :
      (st : Splitter) (state : SplitState) (start strchar : ℕ)
      → Inside st
      → start ≤ len
      → Inside (record st { state = state; start_of_word = start; strchar = strchar })
  moved st state start strchar h l = record {
    count = h.count;
    starts = h.starts;
    start = l;
    size = h.size;
    behind = h.behind;
  }

  split_char-Inside :
      (state : SplitState) (p c : ℕ) (st : Splitter)
      → Inside st
      → p < len
      → length st.argv < argv_size
      → Inside (split_char state p c st)
  unfolding split_char
  split_char-Inside dull p c st h here room = elim (Bool-cases (is_space c)) [
    | inl blank ↦ rw blank h
    | inr dark ↦ elim (Bool-cases (c == 34 || c == 39)) [
      | inl quote ↦ rw (dark, quote) (moved st in_string (p + 1) c h (omega (arith, here)))
      | inr char ↦ rw (dark, char) (moved st in_word p st.strchar h (omega (arith, here)))
    ]
  ]
  split_char-Inside in_string p c st h here room = elim (Bool-cases (c == st.strchar)) [
    | inl quote ↦ rw quote (end_word-Inside p st h here room)
    | inr char ↦ rw char h
  ]
  split_char-Inside in_word p c st h here room = elim (Bool-cases (is_space c)) [
    | inl blank ↦ rw blank (end_word-Inside p st h here room)
    | inr dark ↦ elim (Bool-cases (c == 34)) [
      | inl quote ↦ rw (dark, quote) (moved st in_word_string st.start_of_word st.strchar h h.start)
      | inr char ↦ rw (dark, char) h
    ]
  ]
  split_char-Inside in_word_string p c st h here room = elim (Bool-cases (c == 34)) [
    | inl quote ↦ rw quote (moved st in_word st.start_of_word st.strchar h h.start)
    | inr char ↦ rw char h
  ]

  split_loop-Inside :
      (rest : List ℕ) (p : ℕ) (st : Splitter)
      → Inside st
      → Inside (split_loop argv_size len rest p st)
  unfolding split_loop
  split_loop-Inside [] p st h = h
  split_loop-Inside (c ∷ rest) p st h =
      let next = split_loop-Inside rest (p + 1) (split_char st.state p c st) in
      elim (Bool-cases (ltb (length st.argv) argv_size && not (c == 0) && ltb p len)) [
        | inl go ↦
            rw go
              (next (split_char-Inside st.state p c st h (ground (arith, go)) (ground (arith, go))))
        | inr stop ↦ rw stop h
      ]

  last_word-Inside : (st : Splitter) → Inside st → Inside (last_word argv_size st)
  unfolding last_word
  last_word-Inside st h =
      elim (Bool-cases (not (is_dull st.state) && ltb (length st.argv) argv_size)) [
        | inl more ↦
            rw more (one_more st st.buffer st.state h (ground (arith, more)) h.size h.behind)
        | inr done ↦ rw done h
      ]

  -- `corshell_cmd_split` of any buffer finds at most `argv_size` words, each of which starts in the
  -- first `len` bytes or directly behind them; the size of the buffer stays, and behind its first
  -- `len` bytes it is as it was.
  pub corshell_cmd_split-bounds :
      (length (corshell_cmd_split buffer len argv_size).0 ≤ argv_size)
      × ((i : ℕ) → get_or (corshell_cmd_split buffer len argv_size).0 i 0 ≤ len)
      × (length (corshell_cmd_split buffer len argv_size).1 ≡ length buffer)
      × ((i : ℕ)
          → len ≤ i
          → get_or (corshell_cmd_split buffer len argv_size).1 i 0 ≡ get_or buffer i 0)
  unfolding corshell_cmd_split
  corshell_cmd_split-bounds =
      let start : Splitter = record {
        state = dull;
        start_of_word = 0;
        strchar = 0;
        buffer = buffer;
        argv = [];
      } in
      let h : Inside start = record {
        count = omega arith;
        starts = λ i. omega arith;
        start = omega arith;
        size = refl;
        behind = λ i l. refl;
      } in
      let r = last_word-Inside _ (split_loop-Inside buffer 0 start h) in
      (r.count, r.starts, r.size, r.behind)
