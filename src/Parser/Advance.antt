-- ===== src/Parser/Advance.antt =====
-- parse.cpp: the tests `p >>= p.quiet().parse_token(type)` and `p >>= p.quiet().parse_keyword(word)`
-- by which the parse functions choose their branches.
use mathlib.Core.Path.{subst}
use janguage.Base.{
  suc, ◌≤◌, ◌<◌, ◌≡◌, ◌≢◌, ◌↔◌, refl, sym, ap, ◌∙◌, Bool, true, false, ◌&&◌, Bytes, Option, none,
  some, if◌then◌else◌, length, bytes_eq, Bool-cases, inl, inr, Outcome, ok, abort, ◌>>=◌, arith,
}
use janguage.Token.{TokenType, TokenType-discrete, Token, eof, text}
use janguage.Lexer.Scan.{Lexer}
use janguage.Lexer.Next.{contains, keywords}
use janguage.Lexer.Steps.{Steps, Steps-IsAt, IsAt-IsWithin, next_token-Stepped}
use janguage.Parser.Tokens.{
  Parser, quiet, is_keyword, decided, same_type, parse_token, parse_keyword, parser_next_token,
  advance,
}
use janguage.Parser.Comments.{
  OverComments, Significant, skip_comments-Significant, OverComments-Steps,
}
use janguage.Parser.Keywords.{with_lexer, parser_error-quiet, parse_keyword-exact}

pub OverComments-le :
    {source : Bytes} {lx lx' : Lexer}
    → Steps source lx
    → OverComments lx lx'
    → lx.cursor.offset ≤ lx'.cursor.offset
OverComments-le s OverComments.here = omega arith
OverComments-le s (OverComments.over {lx'} o c e) =
    let k = next_token-Stepped lx' (IsAt-IsWithin lx' (Steps-IsAt (OverComments-Steps s o))) e in
    omega (arith, OverComments-le s o, k.skips.offset_is, k.reads.offset_is)

-- Where a parser has got a token other than the end, it has moved on.
abbrev HasMoved : Parser → Outcome (Token × Parser) → Type 0
HasMoved p (ok (t, p')) = t.type ≢ eof → p.lexer.cursor.offset < p'.lexer.cursor.offset
HasMoved p (abort _) = Unit

Significant-HasMoved :
    {source : Bytes} (p : Parser) {o : Outcome (Token × Lexer)}
    → Steps source p.lexer
    → Significant p.lexer o
    → HasMoved p (with_lexer p o)
Significant-HasMoved p s (Significant.stopped o u) = tt
Significant-HasMoved p s (Significant.found {lx'} {lx''} {t} o c e) =
    let k = next_token-Stepped lx' (IsAt-IsWithin lx' (Steps-IsAt (OverComments-Steps s o))) e in
    λ ne. omega (arith, OverComments-le s o, k.progress ne)

parser_next_token-HasMoved :
    {source : Bytes} (p : Parser) → Steps source p.lexer → HasMoved p (parser_next_token p)
unfolding parser_next_token
parser_next_token-HasMoved p s = Significant-HasMoved p s (
    skip_comments-Significant (suc (length p.lexer.cursor.rest)) p.lexer p.lexer s OverComments.here
      (omega arith))

pub advance-true :
    (p p' : Parser)
    → p.lexer.cursor.offset < p'.lexer.cursor.offset
    → advance p p' ≡ (true, record p { lexer = p'.lexer })
unfolding advance
advance-true p p' h = ground arith

pub advance-same : (p : Parser) → advance p p ≡ (false, p)
unfolding advance
advance-same p = ground arith

advance-quiet : (p : Parser) → advance p (quiet p) ≡ (false, p)
unfolding advance
advance-quiet p = ground arith

pub keyword-ne-eof : (t : TokenType) → is_keyword t ≡ true → t ≢ eof
keyword-ne-eof t k e = ground arith

pub decided_iff : {P : Type 0} (d : Dec P) → (decided d ≡ true) ↔ P
decided_iff (yes x) = (λ _. x, λ _. refl)
decided_iff (no n) = (λ e. cc, λ x. absurd (n x))

parse_token-eq :
    (p p' : Parser) (t : Token) (type : TokenType)
    → p.armed ≡ false
    → parser_next_token p ≡ ok (t, p')
    → parse_token p type ≡ ok (if same_type t.type type then (some t, p') else (none, p))
unfolding parse_token
parse_token-eq p p' t type q e = elim (Bool-cases (same_type t.type type)) [
  | inl same ↦ rw (e, same) refl
  | inr other ↦ rw (e, other, parser_error-quiet p p q) refl
]

-- The test `p >>= p.quiet().parse_token(type)`, with the token that it writes.
unfoldable pub accept_token : Parser → TokenType → Outcome (Bool × Option Token × Parser)
accept_token p type = do
  (out_token, parsed) ← parse_token (quiet p) type
  let (moved, p') = advance p parsed
  ok (moved, out_token, p')

-- The test `p >>= p.quiet().parse_keyword(word)`.
unfoldable pub accept_keyword : Parser → Bytes → Outcome (Bool × Parser)
accept_keyword p word = do parsed ← parse_keyword (quiet p) word; ok (advance p parsed)

module _ {source : Bytes} (p p' : Parser) (t : Token) (reached : Steps source p.lexer)
    (got : parser_next_token (quiet p) ≡ ok (t, p')) where
  moved_on : t.type ≢ eof → p.lexer.cursor.offset < p'.lexer.cursor.offset
  moved_on = subst (HasMoved (quiet p)) got (parser_next_token-HasMoved (quiet p) reached)

  -- Over a reachable lexer with a next token that is no comment, the test for a token type other
  -- than the end holds exactly if this token has the type; then it writes this token and leaves the
  -- parser behind it, and otherwise it leaves the parser as it was.
  pub accept_token-exact :
      (type : TokenType)
      → type ≢ eof
      → accept_token p type
        ≡ ok (
            if same_type t.type type
            then (true, some t, record p { lexer = p'.lexer })
            else (false, none, p))
  unfolding accept_token
  accept_token-exact type ne =
      let e = parse_token-eq (quiet p) p' t type refl got in
      elim (Bool-cases (same_type t.type type)) [
        | inl same ↦
            let type_is = (decided_iff (TokenType-discrete t.type type)).0 same in
            rw (e, same, advance-true p p' (moved_on (λ f. ne (sym type_is ∙ f)))) refl
        | inr other ↦ rw (e, other, advance-quiet p) refl
      ]

  -- Over a reachable lexer with a next token that is no comment, the test for a keyword holds
  -- exactly if this token is the keyword; then it leaves the parser behind the token, and otherwise
  -- as it was.
  pub accept_keyword-exact :
      (word : Bytes)
      → contains keywords word ≡ true
      → accept_keyword p word
        ≡ ok (
            if is_keyword t.type && bytes_eq (text t) word
            then (true, record p { lexer = p'.lexer })
            else (false, p))
  unfolding accept_keyword
  accept_keyword-exact word c =
      let e = parse_keyword-exact (quiet p) p' t word reached refl c got in
      elim (Bool-cases (is_keyword t.type && bytes_eq (text t) word)) [
        | inl b ↦
            rw (e, b) (ap ok (advance-true p p' (moved_on (keyword-ne-eof t.type (ground arith)))))
        | inr b ↦ rw (e, b) (ap ok (advance-quiet p))
      ]
