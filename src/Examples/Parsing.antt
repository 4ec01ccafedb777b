-- ===== src/Examples/Parsing.antt =====
-- parse.cpp and string_util.cpp at short source texts.
use janguage.Base.{
  ◌≡◌, ◌==◌, ◌&&◌, refl, true, false, Bytes, codes, bytes_eq, if◌then◌else◌, ok, none, some, arith,
}
use janguage.Token.{TokenType, Token, text}
use janguage.Lexer.Scan.{
  next, next_times, consume_sequence, is_ident, is_white, is_digit, is_hex_digit, while_next,
  skip_comment, skip_digits, skip_string,
}
use janguage.Lexer.Next.{
  emit, contains, lex_word, lex_simple, lex_string, skip_number, skip_suffix, lex_number,
  lex_comment, next_token, lexer_at, keywords,
}
use janguage.Lexer.Steps.{Steps}
use janguage.StringUtil.{byte_at, is_blank, extract_line}
use janguage.StringUtil.Lines.{Extracts, extract_line-Extracts}
use janguage.Parser.Tokens.{
  Parser, is_keyword, is_comment, same_type, skip_comments, parser_next_token, parse_keyword,
}
use janguage.Parser.Comments.{Significant, lexed, parser_next_token-Significant}
use janguage.Parser.Keywords.{parse_keyword-exact}
use janguage.Parser.Advance.{accept_token, accept_keyword, accept_token-exact, accept_keyword-exact}

-- A loop behind a comment.
abbrev loop_text : Bytes
loop_text = codes "/*c*/ while i"

abbrev before_loop : Parser
before_loop = record { lexer = lexer_at loop_text; armed = false }

abbrev while_word : Token
while_word = record {
  type = TokenType.keyword;
  pos = record { rest = codes "while i"; offset = 6; line = 0; line_offset = 6 };
  length = 5;
}

abbrev behind_word : Parser
behind_word = record {
  lexer = record {
    source = loop_text;
    cursor = record { rest = codes " i"; offset = 11; line = 0; line_offset = 11 };
  };
  armed = false;
}

word_run : parser_next_token before_loop ≡ ok (while_word, behind_word)
unfolding parser_next_token skip_comments is_comment next_token lex_comment lex_number skip_suffix
    skip_number lex_string lex_simple lex_word emit skip_string skip_digits skip_comment while_next
    is_hex_digit is_digit is_white is_ident consume_sequence next_times next bytes_eq
word_run = refl

for_is_keyword : contains keywords (codes "for") ≡ true
unfolding contains bytes_eq
for_is_keyword = refl

while_is_keyword : contains keywords (codes "while") ≡ true
unfolding contains bytes_eq
while_is_keyword = refl

parser_next_token-Significant_example :
    Significant (lexer_at loop_text) (lexed (parser_next_token before_loop))
parser_next_token-Significant_example = parser_next_token-Significant before_loop Steps.begun

parse_keyword-exact_example :
    parse_keyword before_loop (codes "for")
    ≡ ok (
        if is_keyword TokenType.keyword && bytes_eq (text while_word) (codes "for")
        then behind_word
        else before_loop)
parse_keyword-exact_example =
    parse_keyword-exact before_loop behind_word while_word (codes "for") Steps.begun refl
      for_is_keyword word_run

accept_keyword-exact_example :
    accept_keyword before_loop (codes "while")
    ≡ ok (
        if is_keyword TokenType.keyword && bytes_eq (text while_word) (codes "while")
        then (true, behind_word)
        else (false, before_loop))
accept_keyword-exact_example =
    accept_keyword-exact before_loop behind_word while_word Steps.begun word_run (codes "while")
      while_is_keyword

accept_token-exact_example :
    accept_token before_loop TokenType.keyword
    ≡ ok (
        if same_type TokenType.keyword TokenType.keyword
        then (true, some while_word, behind_word)
        else (false, none, before_loop))
accept_token-exact_example =
    accept_token-exact before_loop behind_word while_word Steps.begun word_run TokenType.keyword
      (λ e. ground arith)

abbrev three_lines : Bytes
three_lines = codes "a\n  b c \nd"

not_blank : is_blank (byte_at three_lines 6) ≡ false
unfolding byte_at
not_blank = refl

not_feed : (byte_at three_lines 6 == b'\n') ≡ false
unfolding byte_at
not_feed = refl

extract_line-Extracts_example : Extracts three_lines 6 (extract_line three_lines 6)
extract_line-Extracts_example = extract_line-Extracts three_lines 6 (omega arith) not_blank not_feed
