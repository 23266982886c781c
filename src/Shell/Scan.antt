-- ===== src/Shell/Scan.antt =====
-- `corshell_scan_int` of src/shell/corshell.c, with the conversions of `sscanf` that it uses and the
-- classes of characters in the C locale.
pub mod Digits
use nvol.Base.{
  ℕ, zero, suc, ◌+◌, ◌-◌, ◌*◌, ◌%◌, ◌^◌, List, [], ◌∷◌, Bool, true, false, Option, none, some, ltb,
  leb, ◌==◌, ◌&&◌, ◌||◌, not, if◌then◌else◌, get_or, drop,
}
use nvol.Base.Integer.{ℤ, pos, negsuc}
use nvol.Shell.Split.{is_space}

unfoldable pub is_digit : ℕ → Bool
is_digit c = leb 48 c && leb c 57

unfoldable pub is_xdigit : ℕ → Bool
unfolding is_digit
is_xdigit c = is_digit c || leb 65 c && leb c 70 || leb 97 c && leb c 102

-- What a digit counts, whatever the base; 36 for any other character.
unfoldable pub digit_value : ℕ → ℕ
unfolding is_digit
digit_value c =
    if is_digit c
    then c - 48
    else if leb 65 c && leb c 90
    then c - 55
    else if leb 97 c && leb c 122
    then c - 87
    else 36

-- The digits of the base at the start of the text, read into `value`.
unfoldable pub read_digits : ℕ → List ℕ → ℕ → ℕ
unfolding digit_value
read_digits base [] value = value
read_digits base (c ∷ text) value =
    let rest = read_digits base text (value * base + digit_value c) in
    if ltb (digit_value c) base then rest else value

-- The number after its sign: `none` without a digit.
unfoldable pub read_number : ℕ → List ℕ → Option ℕ
unfolding read_digits digit_value
read_number base text =
    if ltb (digit_value (get_or text 0 0)) base then some (read_digits base text 0) else none

-- The prefix `0x`, which is skipped where a hexadecimal digit follows.
unfoldable pub has_prefix : List ℕ → Bool
has_prefix text = get_or text 0 0 == 48 && (get_or text 1 0 == 120 || get_or text 1 0 == 88)

unfoldable pub read_hex : List ℕ → Option ℕ
unfolding read_number has_prefix digit_value
read_hex text =
    if has_prefix text && ltb (digit_value (get_or text 2 0)) 16
    then read_number 16 (drop 2 text)
    else read_number 16 text

-- `%i` after the sign: hexadecimal, octal or decimal, by the prefix.
unfoldable pub read_any : List ℕ → Option ℕ
unfolding read_number has_prefix read_hex
read_any text =
    if has_prefix text
    then read_hex text
    else if get_or text 0 0 == 48
    then read_number 8 text
    else read_number 10 text

unfoldable pub skip_spaces : List ℕ → List ℕ
unfolding is_space
skip_spaces [] = []
skip_spaces (c ∷ text) = let rest = skip_spaces text in if is_space c then rest else c ∷ text

-- An optional sign before the number.
unfoldable pub read_signed : (List ℕ → Option ℕ) → List ℕ → Option (Bool × ℕ)
read_signed read text =
    let minus = get_or text 0 0 == 45 in
    elim (read (if minus || get_or text 0 0 == 43 then drop 1 text else text)) [
      | none ↦ none
      | some n ↦ some (minus, n)
    ]

-- A value as an int
unfoldable pub as_int : Bool × ℕ → ℤ
as_int (true, zero) = pos 0
as_int (true, suc n) = negsuc n
as_int (false, n) = pos n

-- Whether an int, or an unsigned int, has the value.
unfoldable pub fits_int : Bool × ℕ → Bool
fits_int (true, n) = leb n (2 ^ 31)
fits_int (false, n) = ltb n (2 ^ 31)

unfoldable pub fits_unsigned : Bool × ℕ → Bool
fits_unsigned (true, n) = n == 0
fits_unsigned (false, n) = ltb n (2 ^ 32)

-- `sscanf (str, "%d", &i)`. C leaves open what is stored for a value that does not fit: this is `unfit`.
unfoldable pub scan_decimal : (Bool × ℕ → ℤ) → List ℕ → Option ℤ
unfolding skip_spaces read_signed read_number as_int fits_int
scan_decimal unfit str = elim (read_signed (read_number 10) (skip_spaces str)) [
  | none ↦ none
  | some r ↦ some (if fits_int r then as_int r else unfit r)
]

-- The variable `type`: 0, 1 or 2.
pub data Radix : Type 0 where
  decimal hexadecimal invalid : Radix

-- The loop over the characters behind the sign or the prefix.
unfoldable pub scan_type : Radix → List ℕ → Radix
unfolding is_digit is_xdigit
scan_type type [] = type
scan_type decimal (c ∷ str) =
    let as_decimal = scan_type decimal str in
    let as_hex = scan_type hexadecimal str in
    if c == 0
    then decimal
    else if is_digit c
    then as_decimal
    else if is_xdigit c
    then as_hex
    else invalid
scan_type hexadecimal (c ∷ str) =
    let as_hex = scan_type hexadecimal str in
    if c == 0 then hexadecimal else if is_xdigit c then as_hex else invalid
scan_type invalid (c ∷ str) = invalid

-- `str[0] == '0' && str[1] == 'x'`
unfoldable pub is_prefixed : List ℕ → Bool
is_prefixed str = get_or str 0 0 == 48 && get_or str 1 0 == 120

-- Which characters are looked at first: behind the prefix, or behind a sign.
unfoldable pub type_of : List ℕ → Radix
unfolding scan_type is_prefixed
type_of str =
    if is_prefixed str
    then scan_type hexadecimal (drop 2 str)
    else if get_or str 0 0 == 43 || get_or str 0 0 == 45
    then scan_type decimal (drop 1 str)
    else scan_type decimal str

-- `unfit` is what `sscanf` stores for a value that does not fit.
module _ (unfit : Bool × ℕ → ℕ) where
  -- The 32 bits that are stored for a value.
  unfoldable pub as_word : (Bool × ℕ → Bool) → Bool × ℕ → ℕ
  as_word fits (minus, n) =
      if fits (minus, n)
      then (if minus then (2 ^ 32 - n) % 2 ^ 32 else n)
      else unfit (minus, n) % 2 ^ 32

  -- `sscanf (str, "%i", &i)` and `sscanf (str, "%x", &i)`, where `read` is the conversion
  unfoldable pub scan_word : (Bool × ℕ → Bool) → (List ℕ → Option ℕ) → List ℕ → Option ℕ
  unfolding skip_spaces read_signed as_word
  scan_word fits read str = elim (read_signed read (skip_spaces str)) [
    | none ↦ none
    | some r ↦ some (as_word fits r)
  ]

  -- The conversion that is called. In `"0x%x"` the prefix is matched before the number.
  unfoldable pub convert : Radix → List ℕ → Option ℕ
  unfolding scan_word fits_int fits_unsigned read_any read_hex is_prefixed
  convert decimal str = scan_word fits_int read_any str
  convert hexadecimal str =
      if is_prefixed str
      then scan_word fits_unsigned read_hex (drop 2 str)
      else scan_word fits_unsigned read_hex str
  convert invalid str = none

  -- `corshell_scan_int`: whether the code is CORSHELL_CMD_E_OK and not CORSHELL_CMD_E_FAIL, and the
  -- value at `val` afterwards, which stays where nothing is converted.
  unfoldable pub corshell_scan_int : List ℕ → ℕ → Bool × ℕ
  unfolding type_of convert
  corshell_scan_int str val = elim (type_of str) [
    | invalid ↦ (false, val)
    | type ↦ (true, elim (convert type str) [ none ↦ val | some n ↦ n ])
  ]
