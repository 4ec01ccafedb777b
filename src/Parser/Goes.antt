-- ===== src/Parser/Goes.antt =====
-- parse.cpp: what `Parser::next_token` and `Parser::peek_token` do from a reachable lexer.
use janguage.Base.{
  ℕ, All, suc, ◌≤◌, ◌<◌, ◌≡◌, ◌≢◌, refl, ◌⊎◌, inl, inr, Bool, true, false, Bytes, length,
  length-append, [], ◌∷◌, Outcome, ok, abort, todo, arith,
}
use janguage.Token.{TokenType, Token, eof, string_literal}
use janguage.Lexer.Scan.{Lexer}
use janguage.Lexer.Next.{simple_tokens, next_token, peek_token}
use janguage.Lexer.Shape.{Shape, Picks-All}
use janguage.Lexer.Steps.{
  Steps, step, Steps-IsAt, IsAt-IsWithin, next_token-Stepped, Shape-pos, Steps-abort,
}
use janguage.Parser.Tokens.{Parser, parser_peek_token, parser_next_token}
use janguage.Parser.Keywords.{with_lexer}
use janguage.Parser.Advance.{OverComments-le}
use janguage.Parser.Comments.{
  OverComments, Significant, skip_comments-Significant, OverComments-Steps, Outcome-cases,
}

abbrev pub offset_of : Parser → ℕ
offset_of p = p.lexer.cursor.offset

-- What `Parser::next_token` does.
pub record Goes (source : Bytes) (p : Parser) (t : Token) (q : Parser) : Type 0 where
  pub reached : Steps source q.lexer
  pub forward : offset_of p ≤ offset_of q
  pub moves : t.type ≢ eof → offset_of p < offset_of q
  pub size : t.type ≢ eof → 0 < t.length
  pub quotes : t.type ≡ string_literal → 2 ≤ t.length

abbrev is_string : TokenType → Bool
is_string string_literal = true
is_string _ = false

simple_tokens-All : All (λ entry. is_string entry.1 ≡ false) simple_tokens
simple_tokens-All = ground arith

Shape-quotes :
    {bs rest : Bytes} {t : TokenType} → Shape bs rest t → t ≡ string_literal → 2 ≤ length bs
Shape-quotes (Shape.string body e _) q = rw e (omega (arith, length-append body (b'"' ∷ [])))
Shape-quotes (Shape.simple p _) q =
    cc (q, Picks-All (λ t. is_string t ≡ false) simple_tokens simple_tokens-All p)
Shape-quotes (Shape.keyword_word _ _ _ c) q = cc
Shape-quotes (Shape.line_comment _ _ _ _) q = cc
Shape-quotes (Shape.block_comment _ _ _) q = cc
Shape-quotes (Shape.number _) q = cc
Shape-quotes (Shape.word _ _ _ _) q = cc
Shape-quotes (Shape.end _ _) q = cc
Shape-quotes (Shape.bad_byte _ _ _ _ _) q = cc

pub found-Goes :
    {source : Bytes} (p : Parser) {lx' lx'' : Lexer} {t : Token}
    → Steps source p.lexer
    → OverComments p.lexer lx'
    → next_token lx' ≡ ok (t, lx'')
    → Goes source p t (record p { lexer = lx'' })
found-Goes p {lx'} {lx''} {t} s o e =
    let s' = OverComments-Steps s o in
    let k = next_token-Stepped lx' (IsAt-IsWithin lx' (Steps-IsAt s')) e in
    let le = OverComments-le s o in
    record {
      reached = step s' e;
      forward = omega (arith, le, k.skips.offset_is, k.reads.offset_is);
      moves = λ ne. omega (arith, le, k.progress ne);
      size = λ ne. omega (arith, k.length_is, Shape-pos k.shape ne);
      quotes = λ q. omega (arith, k.length_is, Shape-quotes k.shape q);
    }

Significant-Goes :
    {source : Bytes} (p : Parser) {o : Outcome (Token × Lexer)}
    → Steps source p.lexer
    → Significant p.lexer o
    → (with_lexer p o ≡ abort todo)
      ⊎ ((t : Token) × (q : Parser) × (with_lexer p o ≡ ok (t, q)) × Goes source p t q)
Significant-Goes p s (Significant.stopped o u) = inl refl
Significant-Goes p s (Significant.found {lx'} {lx''} {t} o c e) =
    inr (t, record p { lexer = lx'' }, refl, found-Goes p s o e)

pub next-cases :
    {source : Bytes} (p : Parser)
    → Steps source p.lexer
    → (parser_next_token p ≡ abort todo)
      ⊎ ((t : Token) × (q : Parser) × (parser_next_token p ≡ ok (t, q)) × Goes source p t q)
unfolding parser_next_token
next-cases p s = Significant-Goes p s (
    skip_comments-Significant (suc (length p.lexer.cursor.rest)) p.lexer p.lexer s OverComments.here
      (omega arith))

pub peek-cases :
    {source : Bytes} (p : Parser)
    → Steps source p.lexer
    → (parser_peek_token p ≡ abort todo) ⊎ ((t : Token) × (parser_peek_token p ≡ ok t))
unfolding parser_peek_token peek_token
peek-cases p s = elim (Outcome-cases (next_token p.lexer)) [
  | inl ((t, lx), e) ↦ inr (t, rw e)
  | inr (a, e) ↦ inl (rw (e, (Steps-abort a s e).0))
]
