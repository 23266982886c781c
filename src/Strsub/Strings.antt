-- ===== src/Strsub/Strings.antt =====
-- The string functions of src/common/strsub.c on text without words and escapes.
use Prim.Native.Nat.{min}
use nvol.Base.{
  ℕ, zero, suc, ◌+◌, ◌-◌, ◌%◌, ◌^◌, ◌≤◌, ◌<◌, ◌≡◌, ◌⊎◌, inl, inr, refl, ap, ◌∙◌, List, [], ◌∷◌,
  ◌++◌, false, none, some, arith, leb, ◌==◌, if◌then◌else◌, length, take, ==_ne, lt→ltb,
  take_append,
}
use nvol.Dictionary.Keys.{c_string}
use nvol.Strsub.Plain.{ArePlain, parse_loop-plain, sink, before, plain-Ends}
use nvol.Strsub.Sink.{
  Sink, write_bytes, room, taken, as_answer, strsub_cb, given_length, strsub_parse_get_dst_length,
  strsub_parse_string_to,
}
use nvol.Strsub.{Strsub, Parser, wrote, emitted, parse_loop, terminate, strsub_parse}

-- Cells outside of the range stay.
pub write_bytes_outside :
    (cell : ℕ → ℕ) (addr : ℕ) (bytes : List ℕ) (a : ℕ)
    → (a < addr) ⊎ (addr + length bytes ≤ a)
    → write_bytes cell addr bytes a ≡ cell a
unfolding write_bytes
write_bytes_outside cell addr [] a h = refl
write_bytes_outside cell addr (b ∷ bytes) a h =
    write_bytes_outside (λ x. if x == addr then b else cell x) (addr + 1) bytes a (omega arith)
    ∙ rw (==_ne a addr (omega arith))

-- The string of a plain text is the text.
c_string-plain :
    (instance : Strsub Sink) (text rest : List ℕ)
    → ArePlain instance text
    → c_string (text ++ 0 ∷ rest) ≡ text
unfolding c_string
c_string-plain instance [] rest plain = refl
c_string-plain instance (zero ∷ text) rest (pc, plain) = absurd (pc.nonzero refl)
c_string-plain instance (suc c ∷ text) rest (pc, plain) =
    rw (c_string-plain instance text rest plain)

-- The length argument covers the text: it is 0, or counts it.
abbrev pub Covers : ℕ → List ℕ → Type 0
Covers len text = (len ≡ 0) ⊎ (length text ≤ len)

length-le-given_length :
    (instance : Strsub Sink) (text rest : List ℕ) (len : ℕ)
    → ArePlain instance text
    → Covers len text
    → length text ≤ given_length (text ++ 0 ∷ rest) len
unfolding given_length
length-le-given_length instance text rest len plain (inl e) =
    rw e (rw (c_string-plain instance text rest plain) (omega arith))
length-le-given_length instance text rest len plain (inr h) =
    ground (arith, c_string-plain instance text rest plain)

-- Where only the length is wanted, every byte is counted.
abbrev counter : (ℕ → ℕ) → Sink
counter cell = record { cell = cell; buffer = none; len = 2 ^ 32 - 1 }

cb_count :
    (str : List ℕ) (o : ℕ) (cell : ℕ → ℕ)
    → o + 1 < 2 ^ 31
    → strsub_cb str 1 o (counter cell) ≡ (wrote 1, counter cell)
unfolding strsub_cb room taken as_answer
cb_count str o cell h =
    let space : leb ((2 ^ 32 - 1 + 2 ^ 32 - 1) % 2 ^ 32) o ≡ false = ground arith in
    let one : taken (2 ^ 32 - 1) 1 o ≡ 1 = ground arith in rw (space, one)

count_plain :
    (fuel : ℕ) (instance : Strsub Sink) (text rest word : List ℕ) (left n o : ℕ) (cell : ℕ → ℕ)
    → ArePlain instance text
    → length text ≤ left
    → o + length text + 1 < 2 ^ 31
    → (m : ℕ) × (parse_loop fuel instance strsub_cb
          (text ++ 0 ∷ rest)
          left
          (before word n o (counter cell))
        ≡ some (before word m (o + length text) (counter cell)))
unfolding parse_loop emitted
count_plain fuel instance [] rest word left n o cell plain h small =
    let same : o ≡ o + 0 = omega arith in (n, λ i. some (before word n (same i) (counter cell)))
count_plain fuel instance (c ∷ text) rest word zero n o cell plain h small = absurd (omega arith)
count_plain fuel instance (c ∷ text) rest word (suc left) n o cell (pc, plain) h small =
    let (m, run) =
      count_plain fuel instance text rest word left 1 (o + 1) cell plain (omega arith)
        (omega arith) in
    let same : o + 1 + length text ≡ o + suc (length text) = omega arith in
    (
      m,
      parse_loop-plain fuel instance strsub_cb c (text ++ 0 ∷ rest) left n o word (counter cell) pc
          ∙ rw (cb_count (c ∷ text ++ 0 ∷ rest) o cell (omega arith)) run
          ∙ (λ i. some (before word m (same i) (counter cell))),
    )

parsed :
    (fuel : ℕ) (instance : Strsub Sink) (buffer : List ℕ) (len : ℕ) (arg : Sink) (st : Parser Sink)
    → parse_loop fuel instance strsub_cb buffer len (before buffer 0 0 arg) ≡ some st
    → strsub_parse fuel instance strsub_cb buffer len arg ≡ some (terminate strsub_cb st)
unfolding strsub_parse
parsed fuel instance buffer len arg st run = simp (strsub_parse, run)

module _ (fuel : ℕ) (instance : Strsub Sink) (cell : ℕ → ℕ) (text rest : List ℕ)
    (plain : ArePlain instance text) where
  -- `strsub_parse_string_to` with a plain text, a length argument that is 0 or covers it, and a buffer
  -- of r + 1 bytes, fewer than 2 ^ 31: the offset returned is that of the text, cut off after r
  -- bytes; after a NUL in the first byte, the first r bytes of the text and its closing NUL, or all of
  -- them if they are fewer, are written to the buffer.
  pub strsub_parse_string_to-plain :
      (len dst r : ℕ)
      → Covers len text
      → r + 1 < 2 ^ 31
      → strsub_parse_string_to fuel instance cell (some (text ++ 0 ∷ rest)) len dst (r + 1)
        ≡ some (
          min (length text) r,
          write_bytes (write_bytes cell dst (0 ∷ [])) dst (take r (text ++ 0 ∷ [])),
        )
  unfolding strsub_parse_string_to
  strsub_parse_string_to-plain len dst r covers small =
      let first = write_bytes cell dst (0 ∷ []) in
      let (st, run, ends) =
        plain-Ends fuel instance text rest (text ++ 0 ∷ rest) (given_length (text ++ 0 ∷ rest) len)
          0 0 dst r (r + 1) first plain (length-le-given_length instance text rest len plain covers)
          (omega arith) small in
      let start : dst + 0 ≡ dst = omega arith in
      let count : 0 + min (length text) r ≡ min (length text) r = omega arith in
      let whole =
        parsed fuel instance (text ++ 0 ∷ rest) (given_length (text ++ 0 ∷ rest) len)
          (sink first dst (r + 1)) st run
        ∙ ap some ends in
      rw (strsub_parse_string_to, whole)
        (λ i. some (count i, write_bytes first (start i) (take r (text ++ 0 ∷ []))))

  -- `strsub_parse_get_dst_length` of a plain text is its length and one.
  pub strsub_parse_get_dst_length-plain :
      (len : ℕ)
      → Covers len text
      → length text + 1 < 2 ^ 31
      → strsub_parse_get_dst_length fuel instance cell (some (text ++ 0 ∷ rest)) len
        ≡ some (length text + 1)
  unfolding strsub_parse_get_dst_length terminate
  strsub_parse_get_dst_length-plain len covers small =
      let (m, run) =
        count_plain fuel instance text rest (text ++ 0 ∷ rest) (given_length (text ++ 0 ∷ rest) len)
          0 0 cell plain (length-le-given_length instance text rest len plain covers)
          (omega arith) in
      let count : 0 + length text ≡ length text = omega arith in
      let whole =
        parsed fuel instance (text ++ 0 ∷ rest) (given_length (text ++ 0 ∷ rest) len) (counter cell)
          _ run in
      rw (strsub_parse_get_dst_length, whole)
        (rw (count, lt→ltb (length text) (2 ^ 31) (omega arith)))

  -- A plain text of at least one byte and fewer than 2 ^ 31 - 1, with a length argument that is 0 or
  -- covers it, parsed into a buffer of the size that `strsub_parse_get_dst_length` asks for, which is
  -- its length and one: the offset is the length of the text, and the byte behind it, the last of the
  -- buffer, where the closing NUL would stand, is left as it was.
  pub get_dst_length-unterminated :
      (len dst : ℕ)
      → Covers len text
      → 0 < length text
      → length text + 1 < 2 ^ 31
      → (size : ℕ) × (mem : ℕ → ℕ) × (strsub_parse_get_dst_length fuel instance cell
            (some (text ++ 0 ∷ rest))
            len
          ≡ some size)
        × (strsub_parse_string_to fuel instance cell (some (text ++ 0 ∷ rest)) len dst size
            ≡ some (length text, mem))
        × (size ≡ length text + 1)
        × (mem (dst + length text) ≡ cell (dst + length text))
  unfolding write_bytes
  get_dst_length-unterminated len dst covers pos small =
      let first = write_bytes cell dst (0 ∷ []) in
      let whole : min (length text) (length text) ≡ length text = omega arith in
      let all = take_append text (0 ∷ []) in
      (
        length text + 1,
        write_bytes first dst text,
        strsub_parse_get_dst_length-plain len covers small,
        strsub_parse_string_to-plain len dst (length text) covers small
            ∙ (λ i. some (whole i, write_bytes first dst (all i))),
        refl,
        write_bytes_outside first dst text (dst + length text) (inr (omega arith))
            ∙ rw (==_ne (dst + length text) dst (omega arith)),
      )
