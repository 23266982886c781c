-- ===== src/Examples/Words.antt =====
-- Examples of src/common/strsub.c: the words `[...]` and `<...>` have one handler each, which writes a
-- digit in their place.
use nvol.Base.{ℕ, zero, suc, ◌<◌, ◌≡◌, ◌≢◌, refl, List, [], ◌∷◌, none, some, arith, inl, inr}
use nvol.Strsub.Bounds.{Inside, strsub_cb-Inside, strsub_parse_string_to-bounds}
use nvol.Strsub.Chain.{Chain}
use nvol.Strsub.Keeps.{Polite, HasChains, strsub_parse-Keeps}
use nvol.Strsub.Plain.{ArePlain}
use nvol.Strsub.Sink.{Sink, strsub_cb, strsub_parse_get_dst_length, strsub_parse_string_to}
use nvol.Strsub.Strings.{get_dst_length-unterminated}
use nvol.Strsub.Word.{word_result, parse_loop-word}
use nvol.Strsub.{
  Strsub, Lookup, Parser, token_index, token1, dull, wrote, is_char, opens, find_open, closes,
  parse_loop, strsub_parse,
}

abbrev digit : Lookup Sink
digit cb str len offset s = cb (55 ∷ []) 1 offset s

abbrev brackets : Strsub Sink
brackets = record {
  escape = 92;
  tokens = some (91, 93) ∷ some (60, 62) ∷ none ∷ [];
  handlers = 5 ∷ 6 ∷ 0 ∷ [];
  memory = λ a. record { next = 0; cb = digit };
}

abbrev blank : ℕ → ℕ
blank a = 255

-- The text `ok`.
abbrev ok : List ℕ
ok = 111 ∷ 107 ∷ []

ok-ArePlain : ArePlain brackets ok
unfolding is_char opens find_open
ok-ArePlain = (
  record { nonzero = λ e. absurd (omega (arith, e)); escape = refl; opening = refl },
  (record { nonzero = λ e. absurd (omega (arith, e)); escape = refl; opening = refl }, tt),
)

get_dst_length-unterminated_example :
    (size : ℕ) × (mem : ℕ → ℕ) × (strsub_parse_get_dst_length 3 brackets blank
        (some (111 ∷ 107 ∷ 0 ∷ []))
        0
      ≡ some size)
    × (strsub_parse_string_to 3 brackets blank (some (111 ∷ 107 ∷ 0 ∷ [])) 0 50 size
        ≡ some (2, mem))
    × (size ≡ 3)
    × (mem 52 ≡ 255)
get_dst_length-unterminated_example =
    get_dst_length-unterminated 3 brackets blank ok [] ok-ArePlain 0 50 (inl refl) (omega arith)
      (omega arith)

node-Chain : (h : ℕ) → h ≢ 0 → Chain brackets.memory h (h ∷ [])
node-Chain h real = (refl, real, tt, refl)

real : (h : ℕ) → 0 < h → h ≢ 0
real h pos e = absurd (omega (arith, e, pos))

abbrev start : Parser Sink
start = record {
  state = dull;
  word = [];
  offset = 0;
  res = wrote 0;
  arg = record { cell = blank; buffer = some 50; len = 8 };
}

-- The text `[a]`.
parse_loop-word_example :
    parse_loop 3 brackets strsub_cb (91 ∷ 97 ∷ 93 ∷ 0 ∷ []) 9 start
    ≡ parse_loop 3 brackets strsub_cb
        (0 ∷ [])
        6
        (word_result 3 brackets strsub_cb 91 (97 ∷ []) (0 ∷ []) 93 (5 ∷ []) start)
unfolding is_char opens find_open closes token_index
parse_loop-word_example =
    parse_loop-word 3 brackets strsub_cb 91 (97 ∷ []) (0 ∷ []) 93 0 9 0 token1 (5 ∷ []) start refl
      refl (λ e. absurd (omega (arith, e))) refl refl refl
      ((λ e. absurd (omega (arith, e))), refl, tt) (λ e. absurd (omega (arith, e))) refl
      (node-Chain 5 (real 5 (omega arith))) (omega arith) (omega arith)

brackets-Polite : Polite (Inside blank 50 8) brackets.memory
brackets-Polite h cb k str len o s small p = k (55 ∷ []) 1 o s (omega arith) p

brackets-HasChains : HasChains (Inside blank 50 8) 3 brackets
brackets-HasChains zero = (5 ∷ [], node-Chain 5 (real 5 (omega arith)), omega arith)
brackets-HasChains (suc zero) = (6 ∷ [], node-Chain 6 (real 6 (omega arith)), omega arith)
brackets-HasChains (suc (suc zero)) = ([], refl, omega arith)
brackets-HasChains (suc (suc (suc i))) = ([], refl, omega arith)

strsub_parse_string_to-bounds_example :
    (offset : ℕ) × (mem : ℕ → ℕ) × (strsub_parse_string_to 3 brackets blank
        (some (91 ∷ 97 ∷ 93 ∷ 0 ∷ []))
        0
        50
        8
      ≡ some (offset, mem))
    × (mem 58 ≡ 255)
strsub_parse_string_to-bounds_example =
    strsub_parse_string_to-bounds blank 50 8 3 brackets (91 ∷ 97 ∷ 93 ∷ 0 ∷ []) 0 58
      (inr (omega arith)) (omega arith) (omega arith) (omega arith) brackets-Polite
      brackets-HasChains

strsub_parse-Keeps_example :
    (offset : ℕ) × (s' : Sink) × (strsub_parse 3 brackets strsub_cb
        (91 ∷ 97 ∷ 93 ∷ 0 ∷ [])
        9
        start.arg
      ≡ some (offset, s'))
    × Inside blank 50 8 s'
strsub_parse-Keeps_example =
    strsub_parse-Keeps (Inside blank 50 8) 3 brackets strsub_cb
      (strsub_cb-Inside blank 50 8 (omega arith) (omega arith)) brackets-Polite brackets-HasChains 4
      (omega arith) (91 ∷ 97 ∷ 93 ∷ 0 ∷ []) 9 start.arg (omega arith)
      (record { outside = λ a out. refl; buffer = refl; len = refl })
