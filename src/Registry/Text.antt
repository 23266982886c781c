-- ===== src/Registry/Text.antt =====
-- A text with the name of a stored value, parsed into a buffer: src/registry/registry.c as a handler
-- of src/common/strsub.c.
use nvol.Base.{
  ℕ, ◌+◌, ◌-◌, ◌%◌, ◌^◌, ◌≤◌, ◌<◌, ◌≡◌, ◌≢◌, refl, ap, ◌∙◌, List, [], ◌∷◌, ◌++◌, true, false, none,
  some, arith, ltb, leb, not, ◌&&◌, ◌==◌, length, take,
}
use nvol.Base.Status.{eok}
use nvol.Dictionary.{Dictionary}
use nvol.Nvol.{Entry}
use nvol.Registry.SetGet.{IsOpen, IsPair, IsNew}
use nvol.Registry.WordValue.{AreCharacters, registry_strsub_cb-registry_value_set}
use nvol.Registry.Words.{Shared, registry_strsub_cb}
use nvol.Registry.{Registry, registry_key_length, registry_value_set}
use nvol.Strsub.Chain.{Chain, first_answer-wrote}
use nvol.Strsub.Sink.{Sink, write_bytes, room, taken, as_answer, strsub_cb}
use nvol.Strsub.Word.{AreLetters, word_result, word_result-found, parse_loop-word}
use nvol.Strsub.{
  wrote, refused, Replace, Lookup, Strsub, Parser, dull, token1, token_index, first_handler,
  is_char, find_open, closes, parse_loop,
}

-- `strsub_cb` beside the static variables of the registry.
pub on_sink : Replace (Shared Sink)
unfolding strsub_cb
on_sink str n offset none = (refused, none)
on_sink str n offset (some (r, s)) =
    let (answer, s') = strsub_cb str n offset s in (answer, some (r, s'))

-- A part of a text that fits the room that is left is written as a whole.
strsub_cb-room :
    (bytes : List ℕ) (n o dst size : ℕ) (cell : ℕ → ℕ)
    → o + n + 1 < size
    → size < 2 ^ 31
    → strsub_cb bytes n o (record { cell = cell; buffer = some dst; len = size }) ≡ (
      wrote n,
      record { cell = write_bytes cell (dst + o) (take n bytes); buffer = some dst; len = size },
    )
unfolding strsub_cb room taken as_answer
strsub_cb-room bytes n o dst size cell h small =
    let free : leb ((size + 2 ^ 32 - 1) % 2 ^ 32) o ≡ false = ground arith in
    let all : leb ((size + 2 ^ 32 - 1) % 2 ^ 32) ((n + o) % 2 ^ 32) ≡ false = ground arith in
    let count : ltb n (2 ^ 31) ≡ true = ground arith in rw (free, all, count)

module _ (r : Registry) (dict : Dictionary Entry) (word value : List ℕ) (n : ℕ) (is : IsOpen r dict)
    (pair : IsPair word value n) (characters : AreCharacters word)
    (short : length word ≤ registry_key_length) (fuel node : ℕ) (instance : Strsub (Shared Sink))
    (chain : Chain instance.memory (first_handler instance 0) (node ∷ []))
    (ours : (instance.memory node).cb ≡ registry_strsub_cb) (enough : 1 < fuel) where
  -- The parser in a text, outside of words, with a buffer.
  abbrev pub at : ℕ → List ℕ → ℕ → Registry → (ℕ → ℕ) → ℕ → ℕ → Parser (Shared Sink)
  at k start o r' cell dst size = record {
    state = dull;
    word = start;
    offset = o;
    res = wrote k;
    arg = some (r', record { cell = cell; buffer = some dst; len = size });
  }

  parsed_word :
      (o c k left offset dst size : ℕ) (rest start bytes : List ℕ) (cell : ℕ → ℕ)
      (r' r'' : Registry)
      → registry_strsub_cb on_sink
          (word ++ c ∷ rest)
          (length word)
          offset
          (some (r', record { cell = cell; buffer = some dst; len = size }))
        ≡ on_sink bytes n offset (some (r'', record { cell = cell; buffer = some dst; len = size }))
      → take n bytes ≡ take n value
      → offset + n + 1 < size
      → size < 2 ^ 31
      → word_result fuel instance on_sink o word rest c
          (node ∷ [])
          (at k start offset r' cell dst size)
        ≡ at n
            (o ∷ word ++ c ∷ rest)
            (offset + n)
            r''
            (write_bytes cell (dst + offset) (take n value))
            dst
            size
  unfolding on_sink
  parsed_word o c k left offset dst size rest start bytes cell r' r'' asked same fits small =
      let s : Sink = record { cell = cell; buffer = some dst; len = size } in
      let s' : Sink = record {
        cell = write_bytes cell (dst + offset) (take n value);
        buffer = some dst;
        len = size;
      } in
      let str = word ++ c ∷ rest in
      let written = strsub_cb-room bytes n offset dst size cell fits small in
      let replaced : on_sink bytes n offset (some (r'', s)) ≡ (wrote n, some (r'', s')) =
        simp (on_sink, written, same) in
      let called : (instance.memory node).cb on_sink str (length word) offset (some (r', s))
          ≡ (wrote n, some (r'', s')) =
        ap (λ (f : Lookup (Shared Sink)). f on_sink str (length word) offset (some (r', s))) ours
        ∙ asked
        ∙ replaced in
      word_result-found fuel instance on_sink o word rest c n (node ∷ [])
        (at k start offset r' cell dst size) (some (r'', s'))
        (first_answer-wrote instance.memory on_sink str (length word) offset node n []
          (some (r', s)) (some (r'', s')) called)

  -- After a value of 1 to 224 bytes is set under a new name of up to 24 characters in an open registry
  -- with room, the parser replaces the name by the value where it stands between the delimiters of a
  -- token whose only handler is `registry_strsub_cb`. This is so at the offset `offset` of a buffer
  -- of `size` bytes, fewer than 2 ^ 31, with more than one byte left behind the value, for a parser
  -- outside of words that `left` characters are left for, the word and its delimiters at least, if
  -- the delimiter that opens is not the escape character and the name does not hold the closing one:
  -- the n bytes of the value are written to the buffer at the offset, which grows by n, and the
  -- parser goes on behind the word, with the volume as it was.
  pub parse_loop-registry_value_set :
      (o c k left offset dst size : ℕ) (rest start : List ℕ) (cell : ℕ → ℕ)
      → IsNew r dict word value n is pair
      → o ≢ 0
      → (not (instance.escape == 0) && is_char o instance.escape) ≡ false
      → find_open instance o ≡ some token1
      → AreLetters fuel instance on_sink 0 word
      → c ≢ 0
      → closes instance c 0 ≡ true
      → length word + 2 ≤ left
      → offset + n + 1 < size
      → size < 2 ^ 31
      → (r' r'' : Registry) × (registry_value_set (some word) (some value) n r ≡ some (eok, r'))
        × (parse_loop fuel instance on_sink
              (o ∷ word ++ c ∷ rest)
              left
              (at k start offset r' cell dst size)
            ≡ parse_loop fuel instance on_sink rest (left - (length word + 2)) (
                at n
                  (o ∷ word ++ c ∷ rest)
                  (offset + n)
                  r''
                  (write_bytes cell (dst + offset) (take n value))
                  dst
                  size))
        × (r''.volume ≡ r'.volume)
  unfolding token_index
  parse_loop-registry_value_set o c k left offset dst size rest start cell absent ro plain opening
        letters rc closing more fits small =
      let (r', run, replaces) =
        registry_strsub_cb-registry_value_set r dict word value n is pair characters short absent in
      let s : Sink = record { cell = cell; buffer = some dst; len = size } in
      let (bytes, r'', asked, same, kept) = replaces on_sink (c ∷ rest) offset s in
      (
        r',
        r'',
        run,
        parse_loop-word fuel instance on_sink o word rest c 0 left k token1 (node ∷ [])
              (at k start offset r' cell dst size) refl refl ro plain opening refl letters rc
              closing chain enough more
            ∙ ap
                (λ (st : Parser (Shared Sink)).
                  parse_loop fuel instance on_sink rest (left - (length word + 2)) st)
                (parsed_word o c k left offset dst size rest start bytes cell r' r'' asked same fits
                  small),
        kept,
      )
