-- ===== src/Lexer/Tests.antt =====
-- Runs of the lexer at fixed inputs.
use janguage.Base.{ℕ, ◌≡◌, refl, codes, Outcome, ok, abort, todo, Bytes, bytes_eq}
use janguage.Token.{TokenType, Token}
use janguage.Lexer.Scan.{
  Lexer, next, next_times, consume_sequence, is_ident, is_white, is_digit, is_hex_digit, while_next,
  skip_comment, skip_digits, skip_string,
}
use janguage.Lexer.Next.{
  emit, lex_word, lex_simple, lex_string, skip_number, skip_suffix, lex_number, lex_comment,
  next_token, lexer_at,
}

abbrev shown : Outcome (Token × Lexer) → Outcome (TokenType × ℕ × ℕ × ℕ)
shown (ok (t, lx)) = ok (t.type, t.length, lx.cursor.line, lx.cursor.line_offset)
shown (abort e) = abort e

run : Bytes → Outcome (TokenType × ℕ × ℕ × ℕ)
unfolding next_token lex_comment lex_number skip_suffix skip_number lex_string lex_simple lex_word
    emit skip_string skip_digits skip_comment while_next is_hex_digit is_digit is_white is_ident
    consume_sequence next_times next bytes_eq
run s = shown (next_token (lexer_at s))

ident_run : run (codes "  foo1 bar") ≡ ok (TokenType.identifier, 4, 0, 6)
unfolding run
ident_run = refl

reserved_run : run (codes "\n while") ≡ ok (TokenType.keyword, 5, 1, 6)
unfolding run
reserved_run = refl

comment_run : run (codes "/* a /* b */\n c */ x") ≡ ok (TokenType.multi_line_comment, 18, 1, 5)
unfolding run
comment_run = refl

number_run : run (codes "0x1fu+") ≡ ok (TokenType.number_literal, 5, 0, 5)
unfolding run
number_run = refl

string_run : run (codes "\"a\\\"b\" c") ≡ ok (TokenType.string_literal, 6, 0, 6)
unfolding run
string_run = refl

shift_run : run (codes "<<=") ≡ ok (TokenType.left_shift, 2, 0, 2)
unfolding run
shift_run = refl

-- A backslash before the closing quote always escapes it, also behind another backslash.
backslash_run : run (codes "\"a\\\\\"") ≡ abort todo
unfolding run
backslash_run = refl
