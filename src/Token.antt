-- ===== src/Token.antt =====
-- lex.h: token types, cursors and tokens.
use janguage.Base.{ℕ, Bytes, [], ◌∷◌, take}

pub data TokenType : Type 0 where
  none asterisk slash mod_ plus minus assign bit_and bit_or bit_xor : TokenType
  left_shift right_shift equal inequal : TokenType
  greater_than_or_equal greater_than less_than_or_equal less_than : TokenType
  logical_and logical_or colon comma triple_dot : TokenType
  parenthesis_open parenthesis_close brace_open brace_close bracket_open bracket_close : TokenType
  identifier keyword number_literal string_literal : TokenType
  single_line_comment multi_line_comment eof : TokenType

unfoldable pub TokenType-discrete : Discrete TokenType
TokenType-discrete = hlevel

-- A pointer into the source is the list of the bytes from it to the source's end, and its offset
-- from the source's first byte.
pub record Cursor : Type 0 where
  pub rest : Bytes
  pub offset : ℕ
  pub line : ℕ
  pub line_offset : ℕ

pub record Token : Type 0 where
  pub type : TokenType
  pub pos : Cursor
  pub length : ℕ

-- `Token::text`
unfoldable pub text : Token → Bytes
text t = take t.length t.pos.rest

-- `*at`: the source is followed by a NUL byte, as `std::string` and string literals are.
abbrev pub peek : Bytes → ℕ
peek [] = 0
peek (b ∷ _) = b

-- `at[1]`
abbrev pub peek_second : Bytes → ℕ
peek_second [] = 0
peek_second (_ ∷ bs) = peek bs

-- The higher the precedence, the stronger the operator binds its arguments; 0 for a token that is
-- no binary operator.
unfoldable pub binary_operator_precedence : TokenType → ℕ
binary_operator_precedence asterisk = 110
binary_operator_precedence slash = 110
binary_operator_precedence mod_ = 110
binary_operator_precedence plus = 100
binary_operator_precedence minus = 100
binary_operator_precedence left_shift = 90
binary_operator_precedence right_shift = 90
binary_operator_precedence less_than = 80
binary_operator_precedence greater_than = 80
binary_operator_precedence less_than_or_equal = 80
binary_operator_precedence greater_than_or_equal = 80
binary_operator_precedence equal = 70
binary_operator_precedence inequal = 70
binary_operator_precedence bit_and = 50
binary_operator_precedence bit_xor = 40
binary_operator_precedence bit_or = 30
binary_operator_precedence logical_and = 20
binary_operator_precedence logical_or = 10
binary_operator_precedence assign = 5
binary_operator_precedence _ = 0
