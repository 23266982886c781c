-- ===== src/Strsub/Plain.antt =====
-- Text without words and escapes (src/common/strsub.c).
use Prim.Native.Nat.{min}
use nvol.Base.{
  ℕ, zero, suc, ◌+◌, ◌-◌, ◌%◌, ◌^◌, ◌≤◌, ◌<◌, ◌≡◌, ◌≢◌, refl, ◌∙◌, List, [], ◌∷◌, ◌++◌, false, none,
  some, arith, leb, not, ◌&&◌, ◌==◌, if◌then◌else◌, ap, length, take, ==_ne,
}
use nvol.Strsub.Sink.{Sink, write_bytes, room, taken, as_answer, strsub_cb}
use nvol.Strsub.{
  Strsub, Replace, Parser, wrote, refused, dull, is_char, find_open, emitted, in_dull, parse_char,
  parse_loop, terminate,
}

module _ {S : Type 0} where
  -- A character that neither escapes nor opens a word, and is not the closing NUL.
  pub record IsPlain (instance : Strsub S) (c : ℕ) : Type 0 where
    pub nonzero : c ≢ 0
    pub escape : (not (instance.escape == 0) && is_char c instance.escape) ≡ false
    pub opening : find_open instance c ≡ none

  abbrev pub ArePlain : Strsub S → List ℕ → Type 0
  ArePlain instance [] = Unit
  ArePlain instance (c ∷ text) = IsPlain instance c × ArePlain instance text

  -- After a negative answer nothing is read.
  pub parse_loop-refused :
      (fuel : ℕ) (instance : Strsub S) (cb : Replace S) (p : List ℕ) (left : ℕ) (st : Parser S)
      → st.res ≡ refused
      → parse_loop fuel instance cb p left st ≡ some st
  unfolding parse_loop
  parse_loop-refused fuel instance cb [] left st e = refl
  parse_loop-refused fuel instance cb (c ∷ p) left st e = rw e

  -- A plain character is passed on.
  pub parse_loop-plain :
      (fuel : ℕ) (instance : Strsub S) (cb : Replace S) (c : ℕ) (p : List ℕ) (left n offset : ℕ)
      (word : List ℕ) (arg : S)
      → IsPlain instance c
      → parse_loop fuel instance cb
          (c ∷ p)
          (suc left)
          (record { state = dull; word = word; offset = offset; res = wrote n; arg = arg })
        ≡ parse_loop fuel instance cb p left (
            emitted
              (record { state = dull; word = word; offset = offset; res = wrote n; arg = arg })
              (cb (c ∷ p) 1 offset arg))
  unfolding parse_loop parse_char in_dull
  parse_loop-plain fuel instance cb c p left n offset word arg plain =
      let one : suc left - 1 ≡ left = omega arith in
      let more : (suc left == 0) ≡ false = ground arith in
      rw (==_ne c 0 plain.nonzero, more, one, plain.escape, plain.opening)

-- The buffer of `size` bytes at `dst`.
abbrev pub sink : (ℕ → ℕ) → ℕ → ℕ → Sink
sink cell dst size = record { cell = cell; buffer = some dst; len = size }

cb_full :
    (str : List ℕ) (n o dst size : ℕ) (cell : ℕ → ℕ)
    → size ≡ o + 1
    → size < 2 ^ 31
    → strsub_cb str n o (sink cell dst size) ≡ (refused, sink cell dst size)
unfolding strsub_cb room
cb_full str n o dst size cell e h = ground arith

cb_byte :
    (c : ℕ) (p : List ℕ) (o dst size : ℕ) (cell : ℕ → ℕ)
    → o + 1 < size
    → size < 2 ^ 31
    → strsub_cb (c ∷ p) 1 o (sink cell dst size)
      ≡ (wrote 1, sink (λ a. if a == dst + o then c else cell a) dst size)
unfolding strsub_cb room taken as_answer write_bytes
cb_byte c p o dst size cell e h =
    let space : leb ((size + 2 ^ 32 - 1) % 2 ^ 32) o ≡ false = ground arith in
    let one : taken size 1 o ≡ 1 = ground arith in rw (space, one)

-- The parser at offset `o` between words.
abbrev pub before : List ℕ → ℕ → ℕ → Sink → Parser Sink
before word n o arg = record { state = dull; word = word; offset = o; res = wrote n; arg = arg }

-- What the parser ends with: the offset, and the memory.
abbrev pub Ends : ℕ → Strsub Sink → List ℕ → ℕ → Parser Sink → ℕ → (ℕ → ℕ) → Type 0
Ends fuel instance p left st offset cell =
    (st' : Parser Sink) × (parse_loop fuel instance strsub_cb p left st ≡ some st')
    × (terminate strsub_cb st' ≡ (offset, record st.arg { cell = cell }))

take-nil : (n : ℕ) → take {A = ℕ} n [] ≡ []
take-nil zero = refl
take-nil (suc n) = refl

shifted :
    (cell : ℕ → ℕ) (dst o : ℕ) (bytes : List ℕ)
    → write_bytes cell (dst + (o + 1)) bytes ≡ write_bytes cell (dst + o + 1) bytes
shifted cell dst o bytes =
    let e : dst + (o + 1) ≡ dst + o + 1 = omega arith in ap (λ (a : ℕ). write_bytes cell a bytes) e

-- Plain text goes to the buffer as far as there is room, with the closing NUL if there is room for it.
pub plain-Ends :
    (fuel : ℕ) (instance : Strsub Sink) (text rest word : List ℕ) (left n o dst r size : ℕ)
    (cell : ℕ → ℕ)
    → ArePlain instance text
    → length text ≤ left
    → size ≡ o + r + 1
    → size < 2 ^ 31
    → Ends fuel instance
        (text ++ 0 ∷ rest)
        left
        (before word n o (sink cell dst size))
        (o + min (length text) r)
        (write_bytes cell (dst + o) (take r (text ++ 0 ∷ [])))
unfolding parse_loop terminate write_bytes emitted
plain-Ends fuel instance [] rest word left n o dst zero size cell plain h e small =
    let same : o ≡ o + min 0 0 = omega arith in
    (
      before word n o (sink cell dst size),
      refl,
      rw (cb_full (0 ∷ []) 1 o dst size cell (omega arith) small)
          (λ i. (same i, sink cell dst size)),
    )
plain-Ends fuel instance [] rest word left n o dst (suc r) size cell plain h e small =
    let same : o ≡ o + min 0 (suc r) = omega arith in
    (
      before word n o (sink cell dst size),
      refl,
      rw (take-nil r, cb_byte 0 [] o dst size cell (omega arith) small)
          (λ i. (same i, sink (λ a. if a == dst + o then 0 else cell a) dst size)),
    )
plain-Ends fuel instance (c ∷ text) rest word zero n o dst r size cell plain h e small =
    absurd (omega arith)
plain-Ends fuel instance (c ∷ text) rest word (suc left) n o dst zero size cell (pc, plain) h e
      small =
    let st = record (before word n o (sink cell dst size)) { res = refused } in
    let same : o ≡ o + min (suc (length text)) 0 = omega arith in
    (
      st,
      parse_loop-plain fuel instance strsub_cb c (text ++ 0 ∷ rest) left n o word
            (sink cell dst size) pc
          ∙ rw (cb_full (c ∷ text ++ 0 ∷ rest) 1 o dst size cell (omega arith) small)
              (parse_loop-refused fuel instance strsub_cb (text ++ 0 ∷ rest) left st refl),
      λ i. (same i, sink cell dst size),
    )
plain-Ends fuel instance (c ∷ text) rest word (suc left) n o dst (suc r) size cell (pc, plain) h e
      small =
    let cell' : ℕ → ℕ = λ a. if a == dst + o then c else cell a in
    let same : o + 1 + min (length text) r ≡ o + min (suc (length text)) (suc r) = omega arith in
    let (st, run, ends) =
      plain-Ends fuel instance text rest word left 1 (o + 1) dst r size cell' plain (omega arith)
        (omega arith) small in
    (
      st,
      parse_loop-plain fuel instance strsub_cb c (text ++ 0 ∷ rest) left n o word
            (sink cell dst size) pc
          ∙ rw (cb_byte c (text ++ 0 ∷ rest) o dst size cell (omega arith) small) run,
      ends ∙ (λ i. (same i, sink (shifted cell' dst o (take r (text ++ 0 ∷ [])) i) dst size)),
    )
