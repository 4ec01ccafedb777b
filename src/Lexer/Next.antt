-- ===== src/Lexer/Next.antt =====
-- lex.cpp: `emit` and `Lexer::next_token`, one definition for each kind of token, in the order in
-- which the code tries them.
use janguage.Base.{
  suc, ◌-◌, Bool, true, false, not, ◌&&◌, ◌||◌, Bytes, List, [], ◌∷◌, none, some, ltb, ◌==◌,
  if◌then◌else◌, length, codes, bytes_eq, take, Outcome, ok, ◌>>=◌, ◌>>◌, assert,
}
use janguage.Token.{
  TokenType, asterisk, slash, mod_, plus, minus, assign, bit_and, bit_or, bit_xor, left_shift,
  right_shift, equal, inequal, greater_than_or_equal, greater_than, less_than_or_equal, less_than,
  logical_and, logical_or, colon, comma, triple_dot, parenthesis_open, parenthesis_close,
  brace_open, brace_close, bracket_open, bracket_close, identifier, keyword, number_literal,
  string_literal, single_line_comment, multi_line_comment, eof, Token, Cursor, peek, peek_second,
}
use janguage.Lexer.Scan.{
  Lexer, next, consume_sequence, is_ident, is_white, is_digit, loop_next, skip_comment, skip_digits,
  skip_string,
}

abbrev pub is_eof : TokenType → Bool
is_eof eof = true
is_eof _ = false

unfoldable pub emit : Lexer → Cursor → TokenType → Outcome (Token × Lexer)
emit lx start t = do
  assert (is_eof t || ltb start.offset lx.cursor.offset)
  ok (record { type = t; pos = start; length = lx.cursor.offset - start.offset }, lx)

unfoldable pub contains : List Bytes → Bytes → Bool
contains [] w = false
contains (k ∷ ks) w = bytes_eq k w || contains ks w

abbrev pub keywords : List Bytes
keywords =
    codes "break"
    ∷ codes "continue"
    ∷ codes "else"
    ∷ codes "external"
    ∷ codes "false"
    ∷ codes "for"
    ∷ codes "goto"
    ∷ codes "if"
    ∷ codes "proc"
    ∷ codes "return"
    ∷ codes "true"
    ∷ codes "while"
    ∷ []

-- Identifiers and keywords, the end of the source, and bytes that begin no token.
unfoldable pub lex_word : Cursor → Lexer → Outcome (Token × Lexer)
unfolding contains
lex_word start lx =
    let lx' = loop_next (λ offset b. is_ident b (offset - start.offset)) lx in
    if ltb start.offset lx'.cursor.offset
    then (let word = take (lx'.cursor.offset - start.offset) start.rest in
        if contains keywords word then emit lx' start keyword else emit lx' start identifier)
    else if peek lx'.cursor.rest == 0
    then emit lx' start eof
    else emit (record lx' { cursor = next lx'.cursor }) start eof

abbrev pub simple_tokens : List (Bytes × TokenType)
simple_tokens =
    (codes "...", triple_dot)
    ∷ (codes "<<", left_shift)
    ∷ (codes ">>", right_shift)
    ∷ (codes "&&", logical_and)
    ∷ (codes "||", logical_or)
    ∷ (codes "==", equal)
    ∷ (codes "!=", inequal)
    ∷ (codes ">=", greater_than_or_equal)
    ∷ (codes "<=", less_than_or_equal)
    ∷ (codes "*", asterisk)
    ∷ (codes "/", slash)
    ∷ (codes "%", mod_)
    ∷ (codes "+", plus)
    ∷ (codes "-", minus)
    ∷ (codes "=", assign)
    ∷ (codes "&", bit_and)
    ∷ (codes "^", bit_xor)
    ∷ (codes "|", bit_or)
    ∷ (codes ",", comma)
    ∷ (codes "(", parenthesis_open)
    ∷ (codes ")", parenthesis_close)
    ∷ (codes "{", brace_open)
    ∷ (codes "}", brace_close)
    ∷ (codes "[", bracket_open)
    ∷ (codes "]", bracket_close)
    ∷ (codes ">", greater_than)
    ∷ (codes "<", less_than)
    ∷ (codes ":", colon)
    ∷ []

-- The loop over `simple_tokens`, and what follows it.
unfoldable pub lex_simple : List (Bytes × TokenType) → Cursor → Lexer → Outcome (Token × Lexer)
lex_simple [] start lx = lex_word start lx
lex_simple ((prefix, t) ∷ tokens) start lx = elim (consume_sequence lx prefix) [
  | some lx' ↦ emit lx' start t
  | none ↦ lex_simple tokens start lx
]

unfoldable pub lex_string : Cursor → Lexer → Outcome (Token × Lexer)
lex_string start lx =
    if peek lx.cursor.rest == b'"'
    then (do
      let inside = next lx.cursor
      c ← skip_string (suc (length inside.rest)) inside
      emit (record lx { cursor = next c }) start string_literal)
    else lex_simple simple_tokens start lx

-- The cursor behind the digits, or where it was if no number literal begins there.
unfoldable pub skip_number : Cursor → Cursor
skip_number c =
    let has_point = peek c.rest == b'.' in
    if is_digit (peek c.rest) || (has_point && not (peek_second c.rest == b'.'))
    then (let c' = next c in
        let c'' = (if peek c'.rest == b'x' then next c' else c') in
        skip_digits (length c''.rest) has_point c'')
    else c

-- A suffix `u` or `f`, if one stands at the cursor.
unfoldable pub skip_suffix : Cursor → Cursor
skip_suffix c = if peek c.rest == b'u' || peek c.rest == b'f' then next c else c

unfoldable pub lex_number : Cursor → Lexer → Outcome (Token × Lexer)
lex_number start lx =
    let c = skip_number lx.cursor in
    if ltb start.offset c.offset
    then emit (record lx { cursor = skip_suffix c }) start number_literal
    else lex_string start (record lx { cursor = c })

unfoldable pub lex_comment : Cursor → Lexer → Outcome (Token × Lexer)
lex_comment start lx = elim (consume_sequence lx (codes "//")) [
  | some lx' ↦
      emit (loop_next (λ _ b. not (b == 0) && not (b == b'\n')) lx') start single_line_comment
  | none ↦ elim (consume_sequence lx (codes "/*")) [
    | some lx' ↦ emit (skip_comment (suc (length lx'.cursor.rest)) 1 lx') start multi_line_comment
    | none ↦ lex_number start lx
  ]
]

unfoldable pub next_token : Lexer → Outcome (Token × Lexer)
next_token lx = let lx' = loop_next (λ _ b. is_white b) lx in lex_comment lx'.cursor lx'

-- `Lexer::peek_token` works on a copy of the lexer.
unfoldable pub peek_token : Lexer → Outcome Token
peek_token lx = do (token, _) ← next_token lx; ok token

-- A lexer at the start of a source.
abbrev pub lexer_at : Bytes → Lexer
lexer_at source = record {
  source = source;
  cursor = record { rest = source; offset = 0; line = 0; line_offset = 0 };
}
