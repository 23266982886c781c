-- ===== src/Shell/Scan/Digits.antt =====
-- Numbers that `corshell_scan_int` of src/shell/corshell.c reads.
use nvol.Base.{
  ℕ, ◌+◌, ◌*◌, ◌^◌, ◌≤◌, ◌<◌, ◌≡◌, ◌≢◌, refl, ap, ◌∙◌, List, [], ◌∷◌, Bool, true, false, Option,
  none, some, arith, ltb, lt→ltb, ◌==◌, if◌then◌else◌,
}
use nvol.Shell.Scan.{
  is_digit, is_xdigit, digit_value, read_digits, read_number, has_prefix, read_hex, read_any,
  skip_spaces, read_signed, fits_int, fits_unsigned, as_word, scan_word, decimal, hexadecimal,
  scan_type, is_prefixed, type_of, convert, corshell_scan_int,
}
use nvol.Shell.Split.{is_space}

-- The character of a digit below 16.
abbrev pub digit_char : ℕ → ℕ
digit_char d = if ltb d 10 then 48 + d else 87 + d

abbrev pub digit_chars : List ℕ → List ℕ
digit_chars [] = []
digit_chars (d ∷ ds) = digit_char d ∷ digit_chars ds

abbrev pub AreDigits : ℕ → List ℕ → Type 0
AreDigits base [] = Unit
AreDigits base (d ∷ ds) = (d < base) × AreDigits base ds

-- The number that the digits are, the highest first.
abbrev pub horner : ℕ → List ℕ → ℕ → ℕ
horner base [] value = value
horner base (d ∷ ds) value = horner base ds (value * base + d)

digit_value-char : (d : ℕ) → d < 16 → digit_value (digit_char d) ≡ d
unfolding digit_value is_digit
digit_value-char d h = ground arith

-- What kind of character it is.
record IsDigitChar (c : ℕ) : Type 0 where
  nonzero : (c == 0) ≡ false
  dark : is_space c ≡ false
  plus : (c == 43) ≡ false
  minus : (c == 45) ≡ false
  lower : (c == 120) ≡ false
  upper : (c == 88) ≡ false
  hex : is_xdigit c ≡ true

digit_char-Is : (d : ℕ) → d < 16 → IsDigitChar (digit_char d)
unfolding is_space is_xdigit is_digit
digit_char-Is d h = record {
  nonzero = ground arith;
  dark = ground arith;
  plus = ground arith;
  minus = ground arith;
  lower = ground arith;
  upper = ground arith;
  hex = ground arith;
}

is_digit-char : (d : ℕ) → d < 10 → is_digit (digit_char d) ≡ true
unfolding is_digit
is_digit-char d h = ground arith

read_digits-chars :
    (base : ℕ) (ds : List ℕ) (value : ℕ)
    → base ≤ 16
    → AreDigits base ds
    → read_digits base (digit_chars ds) value ≡ horner base ds value
unfolding read_digits
read_digits-chars base [] value small h = refl
read_digits-chars base (d ∷ ds) value small (h, more) =
    let e = digit_value-char d (omega arith) in
    let below : ltb d base ≡ true = ground arith in
    rw (e, below) (read_digits-chars base ds (value * base + d) small more)

read_number-chars :
    (base d : ℕ) (ds : List ℕ)
    → base ≤ 16
    → AreDigits base (d ∷ ds)
    → read_number base (digit_chars (d ∷ ds)) ≡ some (horner base (d ∷ ds) 0)
unfolding read_number
read_number-chars base d ds small (h, more) =
    let e = digit_value-char d (omega arith) in
    let below : ltb d base ≡ true = ground arith in
    rw (read_number, e, below) (ap some (read_digits-chars base ds (0 * base + d) small more))

scan_type-decimal : (ds : List ℕ) → AreDigits 10 ds → scan_type decimal (digit_chars ds) ≡ decimal
unfolding scan_type
scan_type-decimal [] h = refl
scan_type-decimal (d ∷ ds) (h, more) =
    let c = digit_char-Is d (omega arith) in
    rw (c.nonzero, is_digit-char d h) (scan_type-decimal ds more)

scan_type-hexadecimal :
    (ds : List ℕ) → AreDigits 16 ds → scan_type hexadecimal (digit_chars ds) ≡ hexadecimal
unfolding scan_type
scan_type-hexadecimal [] h = refl
scan_type-hexadecimal (d ∷ ds) (h, more) =
    let c = digit_char-Is d h in rw (c.nonzero, c.hex) (scan_type-hexadecimal ds more)

-- The second character is no `x`.
has_prefix-chars :
    (base d : ℕ) (ds : List ℕ)
    → base ≤ 16
    → AreDigits base (d ∷ ds)
    → has_prefix (digit_chars (d ∷ ds)) ≡ false
unfolding has_prefix
has_prefix-chars base d [] small h = ground arith
has_prefix-chars base d (d' ∷ ds) small (h, (h', more)) =
    let c = digit_char-Is d' (omega arith) in rw (c.lower, c.upper) (ground arith)

skip_spaces-chars :
    (d : ℕ) (ds : List ℕ) → d < 16 → skip_spaces (digit_chars (d ∷ ds)) ≡ digit_chars (d ∷ ds)
unfolding skip_spaces
skip_spaces-chars d ds h = let c = digit_char-Is d h in rw c.dark refl

read_signed-chars :
    (read : List ℕ → Option ℕ) (d n : ℕ) (ds : List ℕ)
    → d < 16
    → read (digit_chars (d ∷ ds)) ≡ some n
    → read_signed read (digit_chars (d ∷ ds)) ≡ some (false, n)
unfolding read_signed
read_signed-chars read d n ds h e =
    let c = digit_char-Is d h in
    rw (read_signed, c.minus, c.plus, e) (ap (λ b. some (b, n)) c.minus)

scan_word-chars :
    (unfit : Bool × ℕ → ℕ) (fits : Bool × ℕ → Bool) (read : List ℕ → Option ℕ) (d n : ℕ)
    (ds : List ℕ)
    → d < 16
    → read (digit_chars (d ∷ ds)) ≡ some n
    → fits (false, n) ≡ true
    → scan_word unfit fits read (digit_chars (d ∷ ds)) ≡ some n
unfolding scan_word as_word
scan_word-chars unfit fits read d n ds h e room =
    ap (λ (r : Option (Bool × ℕ)). elim r [ none ↦ none | some r ↦ some (as_word unfit fits r) ])
      (ap (λ t. read_signed read t) (skip_spaces-chars d ds h) ∙ read_signed-chars read d n ds h e)
    ∙ rw room refl

type_of-decimal :
    (d : ℕ) (ds : List ℕ) → d ≢ 0 → AreDigits 10 (d ∷ ds) → type_of (digit_chars (d ∷ ds)) ≡ decimal
unfolding type_of is_prefixed
type_of-decimal d ds first (h, more) =
    let c = digit_char-Is d (omega arith) in
    let zero_not : (digit_char d == 48) ≡ false = ground arith in
    rw (type_of, zero_not, c.plus, c.minus) (scan_type-decimal (d ∷ ds) (h, more))

type_of-prefix :
    (h : ℕ) (hs : List ℕ)
    → AreDigits 16 (h ∷ hs)
    → type_of (48 ∷ 120 ∷ digit_chars (h ∷ hs)) ≡ hexadecimal
unfolding type_of is_prefixed
type_of-prefix h hs all = scan_type-hexadecimal (h ∷ hs) all

read_any-chars :
    (d : ℕ) (ds : List ℕ)
    → d ≢ 0
    → AreDigits 10 (d ∷ ds)
    → read_any (digit_chars (d ∷ ds)) ≡ some (horner 10 (d ∷ ds) 0)
unfolding read_any
read_any-chars d ds first (h, more) =
    let zero_not : (digit_char d == 48) ≡ false = ground arith in
    rw (read_any, has_prefix-chars 10 d ds (omega arith) (h, more), zero_not)
      (read_number-chars 10 d ds (omega arith) (h, more))

read_hex-chars :
    (h : ℕ) (hs : List ℕ)
    → AreDigits 16 (h ∷ hs)
    → read_hex (digit_chars (h ∷ hs)) ≡ some (horner 16 (h ∷ hs) 0)
unfolding read_hex
read_hex-chars h hs all =
    rw (read_hex, has_prefix-chars 16 h hs (omega arith) all)
      (read_number-chars 16 h hs (omega arith) all)

-- `corshell_scan_int` of decimal digits of which the first is not 0, if their number is below 2 ^ 31,
-- and of `0x` and at least one hexadecimal digit, in small letters, if their number is below 2 ^ 32:
-- it accepts them, and stores the number that they are.
pub corshell_scan_int-digits :
    (unfit : Bool × ℕ → ℕ) (d h val : ℕ) (ds hs : List ℕ)
    → d ≢ 0
    → AreDigits 10 (d ∷ ds)
    → AreDigits 16 (h ∷ hs)
    → horner 10 (d ∷ ds) 0 < 2 ^ 31
    → horner 16 (h ∷ hs) 0 < 2 ^ 32
    → (corshell_scan_int unfit (digit_chars (d ∷ ds)) val ≡ (true, horner 10 (d ∷ ds) 0))
      × (corshell_scan_int unfit (48 ∷ 120 ∷ digit_chars (h ∷ hs)) val
          ≡ (true, horner 16 (h ∷ hs) 0))
unfolding corshell_scan_int convert is_prefixed fits_int fits_unsigned
corshell_scan_int-digits unfit d h val ds hs first dec hex small small' =
    let below = dec.0 in
    let number =
      scan_word-chars unfit fits_int read_any d _ ds (omega (arith, below))
        (read_any-chars d ds first dec) (lt→ltb _ _ small) in
    let number' =
      scan_word-chars unfit fits_unsigned read_hex h _ hs hex.0 (read_hex-chars h hs hex)
        (lt→ltb _ _ small') in
    (
      rw (corshell_scan_int, type_of-decimal d ds first dec, number) refl,
      rw (corshell_scan_int, type_of-prefix h hs hex, number') refl,
    )
