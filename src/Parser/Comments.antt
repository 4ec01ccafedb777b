-- ===== src/Parser/Comments.antt =====
-- parse.cpp: `Parser::next_token` passes over comments, and over nothing else.
use janguage.Base.{
  ℕ, zero, suc, ◌<◌, ◌≡◌, ◌≢◌, ◌⊎◌, Bytes, refl, true, false, length, Outcome, ok, abort, Abort,
  todo, Bool-cases, inl, inr, ◌>>=◌, arith,
}
use janguage.Token.{TokenType, Token, eof}
use janguage.Lexer.Scan.{Lexer}
use janguage.Lexer.Next.{next_token}
use janguage.Lexer.Reads.{Reads-length}
use janguage.Lexer.Steps.{
  Steps, step, Steps-IsAt, IsAt-IsWithin, next_token-Stepped, Unterminated, Steps-abort,
}
use janguage.Parser.Tokens.{Parser, is_comment, skip_comments, parser_next_token}

-- From the lexer `lx`, steps over comments alone lead to the lexer `lx'`.
pub data OverComments (lx : Lexer) : Lexer → Type 0 where
  here : OverComments lx lx
  over :
      {lx' lx'' : Lexer} {t : Token}
      → OverComments lx lx'
      → is_comment t.type ≡ true
      → next_token lx' ≡ ok (t, lx'')
      → OverComments lx lx''

-- What `Parser::next_token` does behind the comments that it has passed.
pub data Significant (lx : Lexer) : Outcome (Token × Lexer) → Type 0 where
  found :
      {lx' lx'' : Lexer} {t : Token}
      → OverComments lx lx'
      → is_comment t.type ≡ false
      → next_token lx' ≡ ok (t, lx'')
      → Significant lx (ok (t, lx''))
  stopped : {lx' : Lexer} → OverComments lx lx' → Unterminated lx' → Significant lx (abort todo)

pub OverComments-Steps :
    {source : Bytes} {lx lx' : Lexer} → Steps source lx → OverComments lx lx' → Steps source lx'
OverComments-Steps s OverComments.here = s
OverComments-Steps s (OverComments.over o c e) = step (OverComments-Steps s o) e

module _ (fuel : ℕ) (lx : Lexer) where
  skip_comments-abort :
      (a : Abort) → next_token lx ≡ abort a → skip_comments (suc fuel) lx ≡ abort a
  unfolding skip_comments
  skip_comments-abort a e = rw e

  module _ {lx' : Lexer} {t : Token} (e : next_token lx ≡ ok (t, lx')) where
    pub skip_comments-found : is_comment t.type ≡ false → skip_comments (suc fuel) lx ≡ ok (t, lx')
    unfolding skip_comments
    skip_comments-found c = cc (e, c)

    skip_comments-over :
        is_comment t.type ≡ true → skip_comments (suc fuel) lx ≡ skip_comments fuel lx'
    unfolding skip_comments
    skip_comments-over c = cc (e, c)

comment-ne-eof : (t : TokenType) → is_comment t ≡ true → t ≢ eof
unfolding is_comment
comment-ne-eof t c e = ground arith

pub Outcome-cases :
    {A : Type 0} (o : Outcome A) → ((a : A) × (o ≡ ok a)) ⊎ ((e : Abort) × (o ≡ abort e))
Outcome-cases (ok a) = inl (a, refl)
Outcome-cases (abort e) = inr (e, refl)

pub skip_comments-Significant :
    {source : Bytes} (fuel : ℕ) (first lx : Lexer)
    → Steps source lx
    → OverComments first lx
    → length lx.cursor.rest < fuel
    → Significant first (skip_comments fuel lx)
skip_comments-Significant zero first lx s o h = absurd (omega (arith, h))
skip_comments-Significant (suc fuel) first lx s o h = elim (Outcome-cases (next_token lx)) [
  | inr (a, e) ↦
      let (is_todo, u) = Steps-abort a s e in
      rw (skip_comments-abort fuel lx a e, is_todo) (Significant.stopped o u)
  | inl ((t, lx'), e) ↦ elim (Bool-cases (is_comment t.type)) [
    | inr c ↦ rw (skip_comments-found fuel lx e c) (Significant.found o c e)
    | inl c ↦
        let k = next_token-Stepped lx (IsAt-IsWithin lx (Steps-IsAt s)) e in
        let less : length lx'.cursor.rest < fuel = omega (
          arith,
          h,
          k.progress (comment-ne-eof t.type c),
          Reads-length k.skips,
          Reads-length k.reads,
          k.skips.offset_is,
          k.reads.offset_is,
        ) in
        rw (skip_comments-over fuel lx e c)
          (skip_comments-Significant fuel first lx' (step s e) (OverComments.over o c e) less)
  ]
]

abbrev pub lexed : Outcome (Token × Parser) → Outcome (Token × Lexer)
lexed (ok (t, p)) = ok (t, p.lexer)
lexed (abort e) = abort e

lexed-bind :
    (p : Parser) (o : Outcome (Token × Lexer))
    → lexed (o >>= λ (t, lx). ok (t, record p { lexer = lx })) ≡ o
lexed-bind p (ok (t, lx)) = refl
lexed-bind p (abort e) = refl

-- From a parser over a reachable lexer, `Parser::next_token` returns the first token that is no
-- comment, with the lexer behind it, or stops at an unterminated string literal behind comments.
pub parser_next_token-Significant :
    {source : Bytes} (p : Parser)
    → Steps source p.lexer
    → Significant p.lexer (lexed (parser_next_token p))
unfolding parser_next_token
parser_next_token-Significant p s =
    let fuel = suc (length p.lexer.cursor.rest) in
    rw (lexed-bind p (skip_comments fuel p.lexer))
      (skip_comments-Significant fuel p.lexer p.lexer s OverComments.here (omega arith))
