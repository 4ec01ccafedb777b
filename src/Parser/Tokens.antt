-- ===== src/Parser/Tokens.antt =====
-- parse.cpp: `Parser` without the parse functions. The parse functions return the parser behind
-- what they have read, or the one that they were given; `advance` tells which.
use janguage.Base.{
  ℕ, zero, suc, Bool, true, false, Bytes, Option, none, some, ltb, leb, if◌then◌else◌, length, take,
  bytes_eq, Outcome, ok, abort, out_of_fuel, ◌>>=◌, ◌>>◌,
}
use janguage.Token.{
  TokenType, TokenType-discrete, Token, keyword, single_line_comment, multi_line_comment,
}
use janguage.Lexer.Scan.{Lexer}
use janguage.Lexer.Next.{next_token, peek_token}
use janguage.StringUtil.{extract_line}

-- `armed` says whether `error_context` is not null. What it points at is never read.
pub record Parser : Type 0 where
  pub lexer : Lexer
  pub armed : Bool

abbrev pub arm : Parser → Parser
arm p = record p { armed = true }

abbrev pub quiet : Parser → Parser
quiet p = record p { armed = false }

-- `Parser::error`, which prints. `start` is the parser that the message shows.
unfoldable pub parser_error : Parser → Parser → Outcome (Unit {0})
unfolding peek_token
parser_error p start =
    if p.armed
    then (do
      current_token ← peek_token start.lexer
      line ← extract_line start.lexer.source current_token.pos.offset
      ok tt)
    else ok tt

-- `Parser::peek_token`, which does not skip comments.
unfoldable pub parser_peek_token : Parser → Outcome Token
unfolding peek_token
parser_peek_token p = peek_token p.lexer

unfoldable pub is_comment : TokenType → Bool
is_comment single_line_comment = true
is_comment multi_line_comment = true
is_comment _ = false

unfoldable pub skip_comments : ℕ → Lexer → Outcome (Token × Lexer)
skip_comments zero lx = abort out_of_fuel
skip_comments (suc fuel) lx = next_token lx >>= λ (t, lx'). elim (is_comment t.type) [
  | true ↦ skip_comments fuel lx'
  | false ↦ ok (t, lx')
]

-- `Parser::next_token`. Every comment but the last one leaves less of the source.
unfoldable pub parser_next_token : Parser → Outcome (Token × Parser)
unfolding skip_comments
parser_next_token p = do
  (token, lx) ← skip_comments (suc (length p.lexer.cursor.rest)) p.lexer
  ok (token, record p { lexer = lx })

abbrev pub decided : {P : Type 0} → Dec P → Bool
decided (yes _) = true
decided (no _) = false

abbrev pub same_type : TokenType → TokenType → Bool
same_type a b = decided (TokenType-discrete a b)

-- `Parser::parse_token`; the token is what is written to `out_token`.
unfoldable pub parse_token : Parser → TokenType → Outcome (Option Token × Parser)
parse_token start type = do
  (token, p) ← parser_next_token start
  (if same_type token.type type
      then ok (some token, p)
      else parser_error start start >> ok (none, start))

abbrev pub is_keyword : TokenType → Bool
is_keyword keyword = true
is_keyword _ = false

-- `strncmp(…, len) == 0` on strings without a NUL byte.
abbrev pub same_prefix : ℕ → Bytes → Bytes → Bool
same_prefix len a b = bytes_eq (take len a) (take len b)

-- `Parser::parse_keyword`
unfoldable pub parse_keyword : Parser → Bytes → Outcome Parser
parse_keyword start word = do
  (token, p) ← parser_next_token start
  (if is_keyword token.type
      then (let len = (if ltb token.length (length word) then token.length else length word) in
          if same_prefix len token.pos.rest word then ok p else parser_error p start >> ok start)
      else parser_error start start >> ok start)

-- `Parser::advance`: whether the parsed parser has moved on, and the parser that goes on.
unfoldable pub advance : Parser → Parser → Bool × Parser
advance p parsed =
    if leb parsed.lexer.cursor.offset p.lexer.cursor.offset
    then (false, p)
    else (true, record p { lexer = parsed.lexer })
