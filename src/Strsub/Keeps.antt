-- ===== src/Strsub/Keeps.antt =====
-- What `strsub_parse` of src/common/strsub.c leaves true of the state behind `arg`, and that it ends.
use nvol.Base.{
  ℕ, ◌+◌, ◌-◌, ◌^◌, ◌≤◌, ◌<◌, ◌≡◌, refl, List, [], ◌∷◌, Option, some, arith, not, ◌&&◌, ◌==◌,
  length, drop, length-drop, Option-cases, Bool-cases, inl, inr,
}
use nvol.Strsub.Chain.{Chain, first_answer, try_handlers-Chain, Answer-cases}
use nvol.Strsub.{
  Token, dull, esc, token1, token2, token3, last, Answer, wrote, refused, Replace, Handler, Strsub,
  Parser, first_handler, is_char, find_open, closes, emitted, close_word, in_word, in_dull,
  parse_char, parse_loop, terminate, strsub_parse,
}

module _ {S : Type 0} (P : S → Type 0) where
  -- A function that is handed fewer than 2 ^ 31 bytes keeps `P`.
  abbrev pub Keeps : Replace S → Type 0
  Keeps cb = (str : List ℕ) (len o : ℕ) (s : S) → len < 2 ^ 31 → P s → P (cb str len o s).1

  -- A handler keeps `P` if the function that it is given does.
  abbrev pub Polite : (ℕ → Handler S) → Type 0
  Polite memory = (h : ℕ) (cb : Replace S) → Keeps cb → Keeps ((memory h).cb cb)

  -- The handlers of every token form a chain that the fuel is enough for.
  abbrev pub HasChains : ℕ → Strsub S → Type 0
  HasChains fuel instance =
      (i : ℕ)
      → (l : List ℕ) × Chain instance.memory (first_handler instance i) l × (length l < fuel)

  first_answer-Keeps :
      (memory : ℕ → Handler S) (cb : Replace S) (str : List ℕ) (len o : ℕ) (l : List ℕ) (s : S)
      → Keeps cb
      → Polite memory
      → len < 2 ^ 31
      → P s
      → P (first_answer memory cb str len o l s).1
  unfolding first_answer
  first_answer-Keeps memory cb str len o [] s k polite small p = p
  first_answer-Keeps memory cb str len o (h ∷ l) s k polite small p =
      let p' = polite h cb k str len o s small p in
      elim (Answer-cases ((memory h).cb cb str len o s).0) [
        | inl (n, e) ↦ simp (first_answer, e) p'
        | inr e ↦
            simp (first_answer, e)
              (first_answer-Keeps memory cb str len o l ((memory h).cb cb str len o s).1 k polite
                small p')
      ]

  -- A parser between characters of a text of fewer than 2 ^ 31 - 1 bytes.
  abbrev IsGood : ℕ → Parser S → Type 0
  IsGood size st = P st.arg × (length st.word ≤ size)

  -- The step comes to an end in such a state.
  abbrev Goes : ℕ → Option (Parser S) → Type 0
  Goes size r = (st : Parser S) × (r ≡ some st) × IsGood size st

  emitted-IsGood :
      (size : ℕ) (st : Parser S) (r : Answer × S)
      → P r.1
      → length st.word ≤ size
      → IsGood size (emitted st r)
  unfolding emitted
  emitted-IsGood size st (wrote n, s) p h = (p, h)
  emitted-IsGood size st (refused, s) p h = (p, h)

  module _ (fuel : ℕ) (instance : Strsub S) (cb : Replace S) (k : Keeps cb)
      (polite : Polite instance.memory) (chains : HasChains fuel instance) (size : ℕ)
      (small : size + 1 < 2 ^ 31) where
    close_word-Goes :
        (p : List ℕ) (i : ℕ) (st : Parser S)
        → IsGood size st
        → Goes size (close_word fuel instance cb p i st)
    unfolding close_word
    close_word-Goes p i st (ps, h) =
        let str = drop 1 st.word in
        let n = length str - length p in
        let bound : n + 2 < 2 ^ 31 = omega (arith, length-drop 1 st.word) in
        let (l, chain, enough) = chains i in
        let asked =
          try_handlers-Chain instance.memory cb str n st.offset l fuel (first_handler instance i)
            st.arg chain enough in
        let s = (first_answer instance.memory cb str n st.offset l st.arg).1 in
        let ps' =
          first_answer-Keeps instance.memory cb str n st.offset l st.arg k polite (omega arith)
            ps in
        elim (Option-cases (first_answer instance.memory cb str n st.offset l st.arg).0) [
          | inl e ↦
              let good =
                emitted-IsGood size st (cb st.word (n + 2) st.offset s)
                  (k st.word (n + 2) st.offset s bound ps') h in
              (
                record (emitted st (cb st.word (n + 2) st.offset s)) { state = dull },
                simp (close_word, asked, e),
                good,
              )
          | inr (m, e) ↦ (
            record st { state = dull; res = wrote m; offset = st.offset + m; arg = s },
            simp (close_word, asked, e),
            (ps', h),
          )
        ]

    in_word-Goes :
        (p : List ℕ) (c i : ℕ) (st : Parser S)
        → IsGood size st
        → Goes size (in_word fuel instance cb p c i st)
    unfolding in_word
    in_word-Goes p c i st g = elim (Bool-cases (closes instance c i)) [
      | inl e ↦ rw e (close_word-Goes p i st g)
      | inr e ↦ rw e (st, refl, g)
    ]

    in_dull-IsGood :
        (p : List ℕ) (c : ℕ) (st : Parser S)
        → length p ≤ size
        → IsGood size st
        → IsGood size (in_dull instance cb p c st)
    unfolding in_dull
    in_dull-IsGood p c st hp (ps, h) =
        elim (Bool-cases (not (instance.escape == 0) && is_char c instance.escape)) [
          | inl e ↦ rw e (ps, h)
          | inr e ↦ rw e (elim (Option-cases (find_open instance c)) [
            | inl none_open ↦ rw none_open (
                emitted-IsGood size st (cb p 1 st.offset st.arg)
                  (k p 1 st.offset st.arg (omega arith) ps) h)
            | inr (token, opening) ↦ rw opening (ps, hp)
          ])
        ]

    parse_char-Goes :
        (p : List ℕ) (c : ℕ) (token : Token) (st : Parser S)
        → length p ≤ size
        → IsGood size st
        → Goes size (parse_char fuel instance cb p c token st)
    unfolding parse_char
    parse_char-Goes p c dull st hp g =
        (in_dull instance cb p c st, refl, in_dull-IsGood p c st hp g)
    parse_char-Goes p c esc st hp (ps, h) =
        let good =
          emitted-IsGood size st (cb p 1 st.offset st.arg) (k p 1 st.offset st.arg (omega arith) ps)
            h in
        (record (emitted st (cb p 1 st.offset st.arg)) { state = dull }, refl, good)
    parse_char-Goes p c token1 st hp g = in_word-Goes p c 0 st g
    parse_char-Goes p c token2 st hp g = in_word-Goes p c 1 st g
    parse_char-Goes p c token3 st hp g = in_word-Goes p c 2 st g
    parse_char-Goes p c last st hp g = (record st { state = dull }, refl, g)

    parse_loop-Goes :
        (p : List ℕ) (left : ℕ) (st : Parser S)
        → length p ≤ size
        → IsGood size st
        → Goes size (parse_loop fuel instance cb p left st)
    unfolding parse_loop
    parse_loop-Goes [] left st hp g = (st, refl, g)
    parse_loop-Goes (c ∷ p) left st hp g = elim (Answer-cases st.res) [
      | inr e ↦ (st, simp (parse_loop, e), g)
      | inl (n, e) ↦ elim (Bool-cases (c == 0)) [
        | inl z ↦ (st, simp (parse_loop, e, z), g)
        | inr more ↦ elim (Bool-cases (left == 0)) [
          | inl out ↦ (st, simp (parse_loop, e, more, out), g)
          | inr room ↦
              let (st', run, g') = parse_char-Goes (c ∷ p) c st.state st hp g in
              let (st'', run', g'') = parse_loop-Goes p (left - 1) st' (omega arith) g' in
              (st'', simp (parse_loop, e, more, room, run) run', g'')
        ]
      ]
    ]

    terminate-Keeps : (st : Parser S) → P st.arg → P (terminate cb st).1
    unfolding terminate
    terminate-Keeps st p = elim (Answer-cases st.res) [
      | inl (n, e) ↦ simp (terminate, e) (k (0 ∷ []) 1 st.offset st.arg (omega arith) p)
      | inr e ↦ simp (terminate, e) p
    ]

    -- `strsub_parse` of a buffer of fewer than 2 ^ 31 - 1 bytes ends, whatever the text, if the handlers
    -- of each token form a chain that the fuel is enough for; and a property of what `arg` leads to
    -- that holds at first holds afterwards, if the function given keeps it when it is handed fewer than
    -- 2 ^ 31 bytes, and the handlers do so with every function that does.
    pub strsub_parse-Keeps :
        (buffer : List ℕ) (len : ℕ) (s : S)
        → length buffer ≤ size
        → P s
        → (offset : ℕ) × (s' : S) × (strsub_parse fuel instance cb buffer len s ≡ some (offset, s'))
          × P s'
    unfolding strsub_parse
    strsub_parse-Keeps buffer len s h p =
        let st0 : Parser S = record {
          state = dull;
          word = buffer;
          offset = 0;
          res = wrote 0;
          arg = s;
        } in
        let (st, run, g) = parse_loop-Goes buffer len st0 h (p, h) in
        ((terminate cb st).0, (terminate cb st).1, simp (strsub_parse, run), terminate-Keeps st g.0)
