-- ===== src/Shell/Split/Line.antt =====
-- A line that `corshell_cmd_split` of src/shell/corshell.c takes apart again.
use nvol.Base.{
  ℕ, suc, ◌+◌, ◌≤◌, ◌<◌, ◌≡◌, refl, sym, ap, ap₂, ◌∙◌, List, [], ◌∷◌, ◌++◌, arith, ltb, length, set,
  length-append, append_assoc, lt→ltb, Bool-cases, inl, inr,
}
use nvol.Shell.Split.Cut.{Cut, Cut-more, Cut-snoc, cut_at}
use nvol.Shell.Split.Words.{
  Item, plain, quoted, AreItems, IsItem, AreQuotable, item_word, item_text, line_text, line_words,
  at, item-IsWhole, plain_run, quoted_run, blank_run, skip_run,
}
use nvol.Shell.Split.{
  dull, in_word, Splitter, split_loop, is_dull, last_word, corshell_cmd_split, words_at,
}

module _ (argv_size len : ℕ) where
  -- Between words, behind the part `done` of the buffer.
  abbrev Between : List ℕ → List ℕ → ℕ → ℕ → List ℕ → Splitter
  Between done rest start strchar argv =
      split_loop argv_size len rest (length done) (at dull start strchar (done ++ rest) argv)

  -- A quoted word: its closing quote becomes the NUL.
  quoted_part :
      (w done rest argv : List ℕ) (start strchar : ℕ)
      → AreQuotable w
      → length argv < argv_size
      → length done + length w + 2 ≤ len
      → Between done (item_text (quoted w) ++ rest) start strchar argv
        ≡ split_loop argv_size len rest (length done + length w + 2) (
            at dull
              (length (done ++ 34 ∷ []))
              34
              (done ++ 34 ∷ [] ++ w ++ 0 ∷ rest)
              (argv ++ length (done ++ 34 ∷ []) ∷ []))
  quoted_part w done rest argv start strchar h room fits =
      let p = length done in
      let e : item_text (quoted w) ++ rest ≡ 34 ∷ (w ++ 34 ∷ rest) =
        ap (λ t. 34 ∷ t) (append_assoc w (34 ∷ []) rest) in
      let long : p + 1 ≡ length (done ++ 34 ∷ []) = omega (arith, length-append done (34 ∷ [])) in
      let ends : p + 1 + length w ≡ length (done ++ 34 ∷ []) + length w = omega (arith, long) in
      let buffer : List ℕ = done ++ (34 ∷ (w ++ 34 ∷ rest)) in
      let whole : set buffer (p + 1 + length w) 0 ≡ done ++ 34 ∷ [] ++ w ++ 0 ∷ rest =
        ap (λ t. set t (p + 1 + length w) 0) (sym (append_assoc done (34 ∷ []) (w ++ 34 ∷ rest)))
        ∙ cut_at (done ++ 34 ∷ []) w rest 34 (p + 1 + length w) ends in
      ap (λ t. Between done t start strchar argv) e
      ∙ quoted_run argv_size len w rest p start strchar buffer argv h room fits
      ∙ ap₂
          (λ q b.
            split_loop argv_size len rest (p + length w + 2) (at dull q 34 b (argv ++ q ∷ [])))
          long whole

  record Next (i : Item) (done rest argv : List ℕ) (ws : List (List ℕ)) (from : Splitter)
      : Type 0 where
    done' : List ℕ
    argv' : List ℕ
    start' : ℕ
    strchar' : ℕ
    run : from ≡ Between done' rest start' strchar' argv'
    far : length done' ≡ length done + length (item_text i) + 1
    more : length argv' ≡ suc (length argv)
    cut : Cut done' argv' (ws ++ item_word i ∷ [])

  item_run :
      (i : Item) (done rest argv : List ℕ) (ws : List (List ℕ)) (start strchar : ℕ)
      → IsItem i
      → Cut done argv ws
      → suc (length argv) < argv_size
      → length done + length (item_text i) + 1 ≤ len
      → Next i done rest argv ws (Between done (item_text i ++ 32 ∷ rest) start strchar argv)
  item_run (plain []) done rest argv ws start strchar h cut room fits = absurd h
  item_run (plain (c ∷ w)) done rest argv ws start strchar h cut room fits =
      let word : List ℕ = c ∷ w in
      let p : ℕ = length done + suc (length w) in
      let buffer : List ℕ = done ++ (word ++ 32 ∷ rest) in
      let long : length (done ++ word ++ 0 ∷ []) ≡ p + 1 =
        omega (arith, length-append (done ++ word) (0 ∷ []), length-append done word) in
      let whole : set buffer p 0 ≡ done ++ word ++ 0 ∷ [] ++ rest =
        cut_at done word rest 32 p refl ∙ sym (append_assoc (done ++ word) (0 ∷ []) rest) in
      record {
        done' = done ++ word ++ 0 ∷ [];
        argv' = argv ++ length done ∷ [];
        start' = length done;
        strchar' = strchar;
        run =
            plain_run argv_size len c w (32 ∷ rest) (length done) start strchar buffer argv h
              (omega arith) (omega arith)
            ∙ blank_run argv_size len rest p (length done) strchar buffer argv (omega arith)
                (omega arith)
            ∙ ap₂
                (λ q b.
                  split_loop argv_size len rest q
                    (at dull (length done) strchar b (argv ++ length done ∷ [])))
                (sym long) whole;
        far = omega (arith, long);
        more = omega (arith, length-append argv (length done ∷ []));
        cut = Cut-snoc done word [] argv ws cut (item-IsWhole (plain (c ∷ w)) h);
      }
  item_run (quoted w) done rest argv ws start strchar h cut room fits =
      let start' : ℕ = length (done ++ 34 ∷ []) in
      let argv' : List ℕ = argv ++ start' ∷ [] in
      let there : length (done ++ 34 ∷ [] ++ w) ≡ length done + 1 + length w =
        omega (arith, length-append (done ++ 34 ∷ []) w, length-append done (34 ∷ [])) in
      let long : length (done ++ 34 ∷ [] ++ w ++ 0 ∷ 32 ∷ []) ≡ length done + length w + 2 + 1 =
        omega (arith, there, length-append (done ++ 34 ∷ [] ++ w) (0 ∷ 32 ∷ [])) in
      let size : length (item_text (quoted w)) ≡ length w + 2 =
        omega (arith, length-append w (34 ∷ [])) in
      let whole : done ++ 34 ∷ [] ++ w ++ 0 ∷ 32 ∷ rest
          ≡ done ++ 34 ∷ [] ++ w ++ 0 ∷ 32 ∷ [] ++ rest =
        sym (append_assoc (done ++ 34 ∷ [] ++ w) (0 ∷ 32 ∷ []) rest) in
      let count : length argv' ≡ suc (length argv) =
        omega (arith, length-append argv (start' ∷ [])) in
      record {
        done' = done ++ 34 ∷ [] ++ w ++ 0 ∷ 32 ∷ [];
        argv' = argv';
        start' = start';
        strchar' = 34;
        run =
            quoted_part w done (32 ∷ rest) argv start strchar h (omega arith) (omega (arith, size))
            ∙ skip_run argv_size len rest (length done + length w + 2) start' 34
                (done ++ 34 ∷ [] ++ w ++ 0 ∷ 32 ∷ rest) argv' (omega (arith, count, room))
                (omega (arith, size, fits))
            ∙ ap₂ (λ q b. split_loop argv_size len rest q (at dull start' 34 b argv')) (sym long)
                whole;
        far = omega (arith, long, size);
        more = count;
        cut =
            Cut-snoc (done ++ 34 ∷ []) w (32 ∷ []) argv ws (Cut-more done (34 ∷ []) argv ws cut)
              (item-IsWhole (quoted w) h);
      }

  stop : (rest : List ℕ) (p : ℕ) (st : Splitter) → split_loop argv_size len (0 ∷ rest) p st ≡ st
  unfolding split_loop
  stop rest p st = elim (Bool-cases (ltb (length st.argv) argv_size)) [
    | inl e ↦ rw e refl
    | inr e ↦ rw e refl
  ]

  -- What the words are when the loop is left.
  abbrev Found : Splitter → List (List ℕ) → Type 0
  Found st ws = words_at (last_word argv_size st).buffer (last_word argv_size st).argv ≡ ws

  final_run :
      (i : Item) (done rest argv : List ℕ) (ws : List (List ℕ)) (start strchar : ℕ)
      → IsItem i
      → Cut done argv ws
      → length argv < argv_size
      → length done + length (item_text i) ≤ len
      → Found (Between done (item_text i ++ 0 ∷ rest) start strchar argv) (ws ++ item_word i ∷ [])
  unfolding last_word is_dull
  final_run (plain []) done rest argv ws start strchar h cut room fits = absurd h
  final_run (plain (c ∷ w)) done rest argv ws start strchar h cut room fits =
      let word : List ℕ = c ∷ w in
      let p : ℕ = length done + suc (length w) in
      let buffer : List ℕ = done ++ (word ++ 0 ∷ rest) in
      let run : Between done (word ++ 0 ∷ rest) start strchar argv
          ≡ at in_word (length done) strchar buffer argv =
        plain_run argv_size len c w (0 ∷ rest) (length done) start strchar buffer argv h room fits
        ∙ stop rest p (at in_word (length done) strchar buffer argv) in
      let found : words_at buffer (argv ++ length done ∷ []) ≡ ws ++ word ∷ [] =
        ap (λ t. words_at t (argv ++ length done ∷ []))
          (sym (append_assoc done word (0 ∷ rest))
            ∙ sym (append_assoc (done ++ word) (0 ∷ []) rest))
        ∙ Cut-snoc done word [] argv ws cut (item-IsWhole (plain (c ∷ w)) h) rest in
      rw run (rw (lt→ltb (length argv) argv_size room) found)
  final_run (quoted w) done rest argv ws start strchar h cut room fits =
      let start' : ℕ = length (done ++ 34 ∷ []) in
      let argv' : List ℕ = argv ++ start' ∷ [] in
      let size : length (item_text (quoted w)) ≡ length w + 2 =
        omega (arith, length-append w (34 ∷ [])) in
      let run =
        quoted_part w done (0 ∷ rest) argv start strchar h room (omega (arith, size))
        ∙ stop rest (length done + length w + 2)
            (at dull start' 34 (done ++ 34 ∷ [] ++ w ++ 0 ∷ 0 ∷ rest) argv') in
      let found : words_at (done ++ 34 ∷ [] ++ w ++ 0 ∷ 0 ∷ rest) argv' ≡ ws ++ w ∷ [] =
        ap (λ t. words_at t argv') (sym (append_assoc (done ++ 34 ∷ [] ++ w) (0 ∷ []) (0 ∷ rest)))
        ∙ Cut-snoc (done ++ 34 ∷ []) w [] argv ws (Cut-more done (34 ∷ []) argv ws cut)
            (item-IsWhole (quoted w) h) (0 ∷ rest) in
      rw run found

  line_run :
      (items : List Item) (final : Item) (done rest argv : List ℕ) (ws : List (List ℕ))
      (start strchar : ℕ)
      → AreItems items
      → IsItem final
      → Cut done argv ws
      → length argv + length items < argv_size
      → length done + length (line_text items final) ≤ len
      → Found
          (Between done (line_text items final ++ 0 ∷ rest) start strchar argv)
          (ws ++ line_words items final)
  line_run [] final done rest argv ws start strchar all last cut room fits =
      final_run final done rest argv ws start strchar last cut (omega arith) fits
  line_run (i ∷ items) final done rest argv ws start strchar (h, all) last cut room fits =
      let tail : List ℕ = line_text items final ++ 0 ∷ rest in
      let size : length (item_text i ++ 32 ∷ line_text items final)
          ≡ length (item_text i) + suc (length (line_text items final)) =
        length-append (item_text i) (32 ∷ line_text items final) in
      let n =
        item_run i done tail argv ws start strchar h cut (omega arith) (omega (arith, size)) in
      let found =
        line_run items final n.done' rest n.argv' (ws ++ item_word i ∷ []) n.start' n.strchar' all
          last n.cut (omega (arith, n.more)) (omega (arith, n.far, size)) in
      let shape : line_text (i ∷ items) final ++ 0 ∷ rest ≡ item_text i ++ 32 ∷ tail =
        append_assoc (item_text i) (32 ∷ line_text items final) (0 ∷ rest) in
      rw (shape, n.run) (found ∙ append_assoc ws (item_word i ∷ []) (line_words items final))

-- `corshell_cmd_split` of a line, written to a buffer before a NUL and any other bytes, finds the
-- words of the line: if they are plain words (one byte or more, no blanks, quotes or NUL) or quoted ones (any bytes
-- but a double quote and NUL), with one blank between them; if there are at most `argv_size`; and if
-- `len` covers the line.
pub corshell_cmd_split-line :
    (items : List Item) (final : Item) (rest : List ℕ) (argv_size len : ℕ)
    → AreItems items
    → IsItem final
    → length items < argv_size
    → length (line_text items final) ≤ len
    → words_at
        (corshell_cmd_split (line_text items final ++ 0 ∷ rest) len argv_size).1
        (corshell_cmd_split (line_text items final ++ 0 ∷ rest) len argv_size).0
      ≡ line_words items final
unfolding corshell_cmd_split words_at
corshell_cmd_split-line items final rest argv_size len all last room fits =
    line_run argv_size len items final [] rest [] [] 0 0 all last (λ tail. refl) (omega arith)
      (omega arith)
