-- ===== src/Parser/Literals.antt =====
-- parse.cpp: the values of number and string literals in `parse_primary_expr`.
use janguage.Base.{
  ℕ, suc, ◌+◌, ◌-◌, ◌*◌, ◌^◌, Bool, true, false, not, ◌&&◌, ◌||◌, Bytes, [], ◌∷◌, Option, none,
  some, ltb, leb, ◌==◌, if◌then◌else◌, length, take,
}
use janguage.Token.{Token, text, peek, peek_second}
use janguage.Ast.{LiteralValue, uint64, float, double, string, Literal}
use janguage.StringUtil.{drop}

-- What the code uses of the C library on floating point numbers, which are bit patterns: `strtof`
-- and `strtod` give the number at the start of a text and the length of what they have read.
pub record FloatLibrary : Type 0 where
  pub strtof : Bytes → ℕ × ℕ
  pub strtod : Bytes → ℕ × ℕ
  pub is_nan_float : ℕ → Bool
  pub is_nan_double : ℕ → Bool

-- The value of a digit, letters included.
unfoldable pub digit_value : ℕ → Option ℕ
digit_value c =
    if leb b'0' c && leb c b'9'
    then some (c - b'0')
    else if leb b'a' c && leb c b'z'
    then some (c - b'a' + 10)
    else if leb b'A' c && leb c b'Z'
    then some (c - b'A' + 10)
    else none

-- The digits of a base at the start of a text: how many they are, and their value behind `value`.
unfoldable pub read_digits : ℕ → Bytes → ℕ → ℕ × ℕ
unfolding digit_value
read_digits base [] value = (0, value)
read_digits base (c ∷ cs) value = elim (digit_value c) [
  | none ↦ (0, value)
  | some d ↦
      let (count, result) = read_digits base cs (value * base + d) in
      if ltb d base then (suc count, result) else (0, value)
]

-- `std::from_chars` on a `uint64_t`, and the two tests behind it: the whole text is a number that
-- fits.
unfoldable pub from_chars : ℕ → Bytes → Option ℕ
unfolding read_digits
from_chars base cs =
    let (count, value) = read_digits base cs 0 in
    if ltb 0 count && ltb value (2 ^ 64) && count == length cs then some value else none

abbrev last_byte : Bytes → ℕ
last_byte [] = 0
last_byte (b ∷ []) = b
last_byte (_ ∷ bs) = last_byte bs

abbrev contains_byte : ℕ → Bytes → Bool
contains_byte c [] = false
contains_byte c (b ∷ bs) = b == c || contains_byte c bs

-- A number that the C library has read, if it is one and is as long as the text in front of the
-- suffix.
abbrev accept_float : (ℕ → LiteralValue) → (ℕ → Bool) → ℕ × ℕ → ℕ → Option LiteralValue
accept_float make is_nan (value, read) size =
    if is_nan value then none else if read == size then some (make value) else none

-- The literal of a number token; `none` is one of the errors.
unfoldable pub number_literal_value : FloatLibrary → Token → Option Literal
unfolding text from_chars
number_literal_value lib token =
    let word = text token in
    let rest = token.pos.rest in
    let is_hex = peek rest == b'0' && peek_second rest == b'x' in
    let last = last_byte word in
    let has_suffix = last == b'u' || (not is_hex && last == b'f') in
    let suffix = (if has_suffix then last else 0) in
    let size = (if has_suffix then token.length - 1 else token.length) in
    let value =
      (if suffix == b'f'
        then accept_float float lib.is_nan_float (lib.strtof rest) size
        else if contains_byte b'.' word
        then accept_float double lib.is_nan_double (lib.strtod rest) size
        else elim (if is_hex
            then from_chars 16 (drop 2 (take size word))
            else from_chars 10 (take size word)) [ none ↦ none | some n ↦ some (uint64 n) ]) in
    elim value [ none ↦ none | some v ↦ some (record { suffix = suffix; value = v }) ]

-- The byte that a backslash and a letter stand for.
unfoldable pub escape_value : ℕ → Option ℕ
escape_value c =
    if c == b'a'
    then some 7
    else if c == b'b'
    then some 8
    else if c == b'e'
    then some 27
    else if c == b'f'
    then some 12
    else if c == b'n'
    then some 10
    else if c == b'r'
    then some 13
    else if c == b't'
    then some 9
    else if c == b'v'
    then some 11
    else if c == b'0'
    then some 0
    else if c == b'"'
    then some b'"'
    else if c == b'\\'
    then some b'\\'
    else none

abbrev pub cons_byte : ℕ → Option Bytes → Option Bytes
cons_byte b none = none
cons_byte b (some bs) = some (b ∷ bs)

-- The loop over the `count` bytes between the quotes, at the bytes of the source from there on. The
-- byte behind a backslash may be the one behind the count. At the source's end stands a NUL byte.
unfoldable pub unescape : ℕ → Bytes → Option Bytes
unfolding escape_value
unescape count [] = if count == 0 then some [] else some (0 ∷ [])
unescape count (b ∷ []) = if count == 0 then some [] else if b == b'\\' then none else some (b ∷ [])
unescape count (b ∷ c ∷ bs) = elim (count == 0) [
  | true ↦ some []
  | false ↦ elim (b == b'\\') [
    | true ↦ elim (escape_value c) [ none ↦ none | some e ↦ cons_byte e (unescape (count - 2) bs) ]
    | false ↦ cons_byte b (unescape (count - 1) (c ∷ bs))
  ]
]

-- `std::string(data)` stops at the first NUL byte.
unfoldable pub until_nul : Bytes → Bytes
until_nul [] = []
until_nul (b ∷ bs) = if b == 0 then [] else b ∷ until_nul bs

unfoldable pub string_literal_value : Token → Option Literal
unfolding unescape until_nul
string_literal_value token = elim (unescape (token.length - 2) (drop 1 token.pos.rest)) [
  | none ↦ none
  | some bs ↦ some (record { suffix = 0; value = string (until_nul bs) })
]
