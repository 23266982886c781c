-- ===== src/Strsub/Word.antt =====
-- A delimited word in a text (src/common/strsub.c).
use nvol.Base.{
  ℕ, suc, ◌+◌, ◌-◌, ◌≤◌, ◌<◌, ◌≡◌, ◌≢◌, refl, ap, ◌∙◌, List, [], ◌∷◌, ◌++◌, true, false, none, some,
  arith, not, ◌&&◌, ◌==◌, length, ==_ne, length-append, Option-cases, inl, inr,
}
use nvol.Strsub.Chain.{Chain, first_answer, try_handlers-Chain}
use nvol.Strsub.{
  Token, dull, esc, token1, token2, token3, last, token_index, Answer, wrote, refused, Replace,
  Strsub, Parser, first_handler, is_char, find_open, closes, emitted, close_word, in_word, in_dull,
  parse_char, parse_loop,
}

module _ {S : Type 0} (fuel : ℕ) (instance : Strsub S) (cb : Replace S) where
  -- Characters that do not end a word of token `i`.
  abbrev pub AreLetters : ℕ → List ℕ → Type 0
  AreLetters i [] = Unit
  AreLetters i (c ∷ word) = (c ≢ 0) × (closes instance c i ≡ false) × AreLetters i word

  parse_char-token :
      (p : List ℕ) (c i : ℕ) (token : Token) (st : Parser S)
      → token_index token ≡ some i
      → parse_char fuel instance cb p c token st ≡ in_word fuel instance cb p c i st
  unfolding token_index parse_char
  parse_char-token p c i dull st e = cc
  parse_char-token p c i esc st e = cc
  parse_char-token p c i token1 st e = cc
  parse_char-token p c i token2 st e = cc
  parse_char-token p c i token3 st e = cc
  parse_char-token p c i last st e = cc

  -- The loop takes one character that it reads.
  parse_loop-step :
      (c : ℕ) (p : List ℕ) (left n : ℕ) (st : Parser S)
      → c ≢ 0
      → 0 < left
      → st.res ≡ wrote n
      → parse_loop fuel instance cb (c ∷ p) left st
        ≡ elim (parse_char fuel instance cb (c ∷ p) c st.state st) [
          | none ↦ none
          | some st' ↦ parse_loop fuel instance cb p (left - 1) st'
        ]
  unfolding parse_loop
  parse_loop-step c p left n st real more e =
      simp (parse_loop, e, ==_ne c 0 real, ==_ne left 0 (omega arith))

  -- The letters of a word are passed over.
  parse_loop-letters :
      (word rest : List ℕ) (left n i : ℕ) (st : Parser S)
      → AreLetters i word
      → token_index st.state ≡ some i
      → st.res ≡ wrote n
      → length word ≤ left
      → parse_loop fuel instance cb (word ++ rest) left st
        ≡ parse_loop fuel instance cb rest (left - length word) st
  unfolding in_word
  parse_loop-letters [] rest left n i st letters e r h =
      let same : left ≡ left - 0 = omega arith in
      ap (λ (k : ℕ). parse_loop fuel instance cb rest k st) same
  parse_loop-letters (c ∷ word) rest left n i st (real, inside, letters) e r h =
      let same : left - 1 - length word ≡ left - suc (length word) = omega arith in
      let ih = parse_loop-letters word rest (left - 1) n i st letters e r (omega arith) in
      parse_loop-step c (word ++ rest) left n st real (omega arith) r
      ∙ simp (parse_char-token (c ∷ word ++ rest) c i st.state st e, in_word, inside)
          (ih ∙ ap (λ (k : ℕ). parse_loop fuel instance cb rest k st) same)

  -- What a word from `o` to `c` becomes: what the first handler with an answer made of it, or, if none
  -- has one, the word with its delimiters.
  pub word_result : ℕ → List ℕ → List ℕ → ℕ → List ℕ → Parser S → Parser S
  word_result o word rest c l st =
      let (found, s) =
        first_answer instance.memory cb (word ++ c ∷ rest) (length word) st.offset l st.arg in
      elim found [
        | some n ↦ record st {
          state = dull;
          word = o ∷ word ++ c ∷ rest;
          res = wrote n;
          offset = st.offset + n;
          arg = s;
        }
        | none ↦
            record (emitted (record st { word = o ∷ word ++ c ∷ rest })
              (cb (o ∷ word ++ c ∷ rest) (length word + 2) st.offset s)) { state = dull }
      ]

  pub word_result-found :
      (o : ℕ) (word rest : List ℕ) (c m : ℕ) (l : List ℕ) (st : Parser S) (s : S)
      → first_answer instance.memory cb (word ++ c ∷ rest) (length word) st.offset l st.arg
        ≡ (some m, s)
      → word_result o word rest c l st ≡ record st {
        state = dull;
        word = o ∷ word ++ c ∷ rest;
        res = wrote m;
        offset = st.offset + m;
        arg = s;
      }
  unfolding word_result
  word_result-found o word rest c m l st s e = simp (word_result, e)

  emitted_outside :
      (token : Token) (st : Parser S) (r : Answer × S)
      → record (emitted (record st { state = token }) r) { state = dull }
        ≡ record (emitted st r) { state = dull }
  unfolding emitted
  emitted_outside token st (wrote n, s) = refl
  emitted_outside token st (refused, s) = refl

  close_run :
      (o : ℕ) (word rest : List ℕ) (c i : ℕ) (l : List ℕ) (st : Parser S)
      → Chain instance.memory (first_handler instance i) l
      → length l < fuel
      → (token : Token)
      → close_word fuel instance cb
          (c ∷ rest)
          i
          (record st { state = token; word = o ∷ word ++ c ∷ rest })
        ≡ some (word_result o word rest c l st)
  unfolding close_word word_result
  close_run o word rest c i l st chain enough token =
      let str = word ++ c ∷ rest in
      let size : length str - length (c ∷ rest) ≡ length word = rw length-append (omega arith) in
      let asked =
        try_handlers-Chain instance.memory cb str (length word) st.offset l fuel
          (first_handler instance i) st.arg chain enough in
      elim (Option-cases (first_answer instance.memory cb str (length word) st.offset l st.arg).0) [
        | inl e ↦
            simp (close_word, word_result, size, asked, e)
              (ap some (emitted_outside token (record st { word = o ∷ str }) _))
        | inr (n, e) ↦ simp (close_word, word_result, size, asked, e)
      ]

  -- Outside of words, while the last answer is not negative, the parser is at a character that is
  -- not NUL, not the escape character, and opens token `i`; letters of a word follow, none of them NUL or
  -- closing the token, and then a character, not NUL, that does; `left` covers all of them, and the
  -- handlers of the token form a chain that the fuel is enough for. Then the handlers are asked in
  -- the order of their chain: the first answer that is not negative counts as what was written, and if there
  -- is none the word is passed on with its delimiters; the parser goes on behind the word.
  pub parse_loop-word :
      (o : ℕ) (word rest : List ℕ) (c i left n : ℕ) (token : Token) (l : List ℕ) (st : Parser S)
      → st.state ≡ dull
      → st.res ≡ wrote n
      → o ≢ 0
      → (not (instance.escape == 0) && is_char o instance.escape) ≡ false
      → find_open instance o ≡ some token
      → token_index token ≡ some i
      → AreLetters i word
      → c ≢ 0
      → closes instance c i ≡ true
      → Chain instance.memory (first_handler instance i) l
      → length l < fuel
      → length word + 2 ≤ left
      → parse_loop fuel instance cb (o ∷ word ++ c ∷ rest) left st
        ≡ parse_loop fuel instance cb rest
            (left - (length word + 2))
            (word_result o word rest c l st)
  unfolding parse_char in_dull in_word
  parse_loop-word o word rest c i left n token l st outside r ro plain opening index letters rc
        closing chain enough h =
      let text = word ++ c ∷ rest in
      let st1 : Parser S = record st { state = token; word = o ∷ text } in
      let opened : parse_char fuel instance cb (o ∷ text) o st.state st ≡ some st1 =
        simp (parse_char, in_dull, outside, plain, opening) in
      let closed : parse_char fuel instance cb (c ∷ rest) c token st1
          ≡ some (word_result o word rest c l st) =
        parse_char-token (c ∷ rest) c i token st1 index
        ∙ simp (in_word, closing) (close_run o word rest c i l st chain enough token) in
      let left1 : left - 1 - length word - 1 ≡ left - (length word + 2) = omega arith in
      parse_loop-step o text left n st ro (omega arith) r
      ∙ simp opened (
          parse_loop-letters word (c ∷ rest) (left - 1) n i st1 letters index r (omega arith)
          ∙ parse_loop-step c rest (left - 1 - length word) n st1 rc (omega arith) r
          ∙ simp closed (
              ap (λ (k : ℕ). parse_loop fuel instance cb rest k (word_result o word rest c l st))
                left1))
