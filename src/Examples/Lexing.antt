-- ===== src/Examples/Lexing.antt =====
-- lex.cpp at short source texts.
use janguage.Base.{
  ◌∷◌, ◌++◌, [], ◌<◌, ◌≤◌, ◌≡◌, refl, true, Bytes, codes, bytes_eq, length, ok, abort, todo, arith,
}
use janguage.Token.{TokenType, Token, left_shift}
use janguage.Lexer.Scan.{
  Lexer, next, next_times, consume_sequence, is_ident, is_white, is_digit, is_hex_digit, while_next,
  skip_comment, skip_digits, skip_string, matches,
}
use janguage.Lexer.Next.{
  emit, lex_word, lex_simple, lex_string, skip_number, skip_suffix, lex_number, lex_comment,
  next_token, lexer_at, simple_tokens,
}
use janguage.Lexer.Comments.{Closes}
use janguage.Lexer.Strings.{StringBody}
use janguage.Lexer.Sound.{Tokenizes, next_token-Tokenizes}
use janguage.Lexer.Complete.{Finds, next_token-string, next_token-comment}
use janguage.Lexer.Munch.{Listed, TakesLongest, lex_simple-longest}
use janguage.Lexer.Traces.{Trace, Woven, Trace-Woven, Trace-length}
use janguage.Lexer.Steps.{Steps, IsAt, Unterminated, Steps-IsAt, Steps-advances, Steps-abort}

abbrev loop_source : Bytes
loop_source = codes "  while (i <= 10)"

next_token-Tokenizes_example : Tokenizes (lexer_at loop_source) (next_token (lexer_at loop_source))
next_token-Tokenizes_example =
    next_token-Tokenizes (lexer_at loop_source) (record { size_is = omega arith })

abbrev open_string : Bytes
open_string = codes " \"abc"

open_string_run : next_token (lexer_at open_string) ≡ abort todo
unfolding next_token lex_comment lex_number skip_suffix skip_number lex_string lex_simple lex_word
    emit skip_string skip_digits skip_comment while_next is_hex_digit is_digit is_white is_ident
    consume_sequence next_times next
open_string_run = refl

Steps-abort_example : (todo ≡ todo) × Unterminated (lexer_at open_string)
Steps-abort_example = Steps-abort todo Steps.begun open_string_run

abbrev behind_while : Lexer
behind_while = record {
  source = loop_source;
  cursor = record { rest = codes " (i <= 10)"; offset = 7; line = 0; line_offset = 7 };
}

abbrev while_token : Token
while_token = record {
  type = TokenType.keyword;
  pos = record { rest = codes "while (i <= 10)"; offset = 2; line = 0; line_offset = 2 };
  length = 5;
}

while_run : next_token (lexer_at loop_source) ≡ ok (while_token, behind_while)
unfolding next_token lex_comment lex_number skip_suffix skip_number lex_string lex_simple lex_word
    emit skip_string skip_digits skip_comment while_next is_hex_digit is_digit is_white is_ident
    consume_sequence next_times next bytes_eq
while_run = refl

Steps-IsAt_example : IsAt loop_source behind_while
Steps-IsAt_example = Steps-IsAt (Steps.step Steps.begun while_run)

Steps-advances_example : (0 < 7) × (7 ≤ length loop_source)
Steps-advances_example = Steps-advances Steps.begun while_run (λ e. ground arith)

abbrev string_source : Bytes
string_source = codes "\"a\\\"b\" + c"

-- The body `a\"b`.
string_body : StringBody (codes "a\\\"b")
string_body =
    StringBody.plain refl refl refl
      (StringBody.quote (StringBody.plain refl refl refl StringBody.nil))

next_token-string_example :
    Finds (lexer_at string_source) TokenType.string_literal (codes "\"a\\\"b\"")
next_token-string_example =
    next_token-string (lexer_at string_source) (codes "a\\\"b") (codes " + c") refl string_body

abbrev comment_source : Bytes
comment_source = codes "/*a/*b*/*/ x"

comment_body : Closes 1 (codes "a/*b*/*/")
unfolding matches
comment_body =
    Closes.other refl refl refl
      (Closes.opening (Closes.other refl refl refl (Closes.closing (Closes.closing Closes.done))))

next_token-comment_example :
    Finds (lexer_at comment_source) TokenType.multi_line_comment (codes "/*a/*b*/*/")
next_token-comment_example =
    next_token-comment (lexer_at comment_source) (codes "a/*b*/*/") (codes " x")
      (record { size_is = omega arith }) comment_body refl

abbrev shift_source : Bytes
shift_source = codes "<<=1"

shift_matches : matches (codes "<<") shift_source ≡ true
unfolding matches
shift_matches = refl

lex_simple-longest_example : TakesLongest simple_tokens (lexer_at shift_source) 2
lex_simple-longest_example =
    lex_simple-longest (lexer_at shift_source) (codes "<<") left_shift
      (record { size_is = omega arith }) (Listed.there Listed.here) shift_matches

while-Trace : Trace loop_source (while_token ∷ []) behind_while
while-Trace = Trace.read Trace.start while_run

Trace-Woven_example :
    (bs : Bytes) × Woven (while_token ∷ []) bs
    × (loop_source ≡ bs ++ codes " (i <= 10)")
    × (7 ≡ length bs)
Trace-Woven_example = Trace-Woven while-Trace

Trace-length_example : (1 ≤ 7) × (7 ≤ length loop_source)
Trace-length_example = Trace-length while-Trace ((λ e. ground arith), tt)
