-- ===== src/Parser/Keywords.antt =====
-- parse.cpp: `parse_keyword` compares no further than the shorter of the two words goes, which is
-- exact on keywords, since no keyword begins another.
use mathlib.Core.Path.{subst}
use janguage.Base.{
  All, ℕ, zero, suc, ◌≤◌, ◌≡◌, refl, sym, ap, ◌∙◌, Bool, true, false, not, ◌&&◌, Bytes, List, [],
  ◌∷◌, ltb, if◌then◌else◌, length, take, bytes_eq, bytes_eq_iff, Bool-cases, inl, inr, Outcome, ok,
  abort, ◌>>=◌, arith,
}
use janguage.Token.{TokenType, Token, text}
use janguage.Lexer.Scan.{Lexer}
use janguage.Lexer.Next.{contains, keywords, simple_tokens}
use janguage.Lexer.Shape.{Picks-All, Shape}
use janguage.Lexer.Steps.{Steps, Steps-IsAt, IsAt-IsWithin, next_token-Stepped}
use janguage.Parser.Comments.{
  OverComments, Significant, skip_comments-Significant, OverComments-Steps,
}
use janguage.Parser.Tokens.{
  Parser, is_keyword, same_prefix, parse_keyword, parser_next_token, parser_error,
}

abbrev every : (Bytes → Bool) → List Bytes → Bool
every f [] = true
every f (w ∷ ws) = f w && every f ws

every-contains :
    (f : Bytes → Bool) (ws : List Bytes) {w : Bytes}
    → every f ws ≡ true
    → contains ws w ≡ true
    → f w ≡ true
unfolding contains
every-contains f (k ∷ ws) {w} e c = elim (Bool-cases (bytes_eq k w)) [
  | inl same ↦ subst (λ v. f v ≡ true) ((bytes_eq_iff k w).0 same) (ground arith)
  | inr other ↦ every-contains f ws (ground arith) (ground arith)
]
every-contains f [] e c = cc

abbrev prefix_length : Bytes → Bytes → ℕ
prefix_length a b = if ltb (length a) (length b) then length a else length b

-- Whether the comparison of two words as far as the shorter one goes is exact.
abbrev agrees : Bytes → Bytes → Bool
agrees a b = if same_prefix (prefix_length a b) a b then bytes_eq a b else not (bytes_eq a b)

keywords-agrees : every (λ a. every (agrees a) keywords) keywords ≡ true
unfolding bytes_eq
keywords-agrees = refl

agrees-eq : (a b : Bytes) → agrees a b ≡ true → same_prefix (prefix_length a b) a b ≡ bytes_eq a b
agrees-eq a b h = ground arith

take-take : (m n : ℕ) (bs : Bytes) → m ≤ n → take m (take n bs) ≡ take m bs
take-take zero n bs h = refl
take-take (suc m) zero bs h = absurd (omega (arith, h))
take-take (suc m) (suc n) [] h = refl
take-take (suc m) (suc n) (b ∷ bs) h = ap (λ t. b ∷ t) (take-take m n bs (omega (arith, h)))

-- No operator is a keyword.
simple_tokens-All : All (λ entry. is_keyword entry.1 ≡ false) simple_tokens
simple_tokens-All = ground arith

Shape-contains :
    {bs rest : Bytes} {t : TokenType}
    → Shape bs rest t
    → is_keyword t ≡ true
    → contains keywords bs ≡ true
Shape-contains (Shape.keyword_word _ _ _ c) k = c
Shape-contains (Shape.simple p _) k =
    cc (k, Picks-All (λ t. is_keyword t ≡ false) simple_tokens simple_tokens-All p)
Shape-contains (Shape.line_comment _ _ _ _) k = cc
Shape-contains (Shape.block_comment _ _ _) k = cc
Shape-contains (Shape.number _) k = cc
Shape-contains (Shape.string _ _ _) k = cc
Shape-contains (Shape.word _ _ _ _) k = cc
Shape-contains (Shape.end _ _) k = cc
Shape-contains (Shape.bad_byte _ _ _ _ _) k = cc

-- What is known of a token that a parser has got.
abbrev Got : Parser → Outcome (Token × Parser) → Type 0
Got p (ok (t, p')) =
    (p'.armed ≡ p.armed)
    × (t.length ≡ length (text t))
    × (is_keyword t.type ≡ true → contains keywords (text t) ≡ true)
Got p (abort _) = Unit

abbrev pub with_lexer : Parser → Outcome (Token × Lexer) → Outcome (Token × Parser)
with_lexer p o = o >>= λ (t, lx). ok (t, record p { lexer = lx })

Significant-Got :
    {source : Bytes} (p : Parser) {o : Outcome (Token × Lexer)}
    → Steps source p.lexer
    → Significant p.lexer o
    → Got p (with_lexer p o)
Significant-Got p s (Significant.stopped o u) = tt
Significant-Got p s (Significant.found {lx'} {lx''} {t} o c e) =
    let k = next_token-Stepped lx' (IsAt-IsWithin lx' (Steps-IsAt (OverComments-Steps s o))) e in
    (refl, k.length_is, Shape-contains k.shape)

parser_next_token-Got :
    {source : Bytes} (p : Parser) → Steps source p.lexer → Got p (parser_next_token p)
unfolding parser_next_token
parser_next_token-Got p s = Significant-Got p s (
    skip_comments-Significant (suc (length p.lexer.cursor.rest)) p.lexer p.lexer s OverComments.here
      (omega arith))

pub parser_error-quiet : (p start : Parser) → p.armed ≡ false → parser_error p start ≡ ok tt
unfolding parser_error
parser_error-quiet p start q = rw q

-- The comparison that `parse_keyword` makes on a token and a word.
abbrev same_word : Token → Bytes → Bool
same_word t word =
    same_prefix (if ltb t.length (length word) then t.length else length word) t.pos.rest word

same_word-eq :
    (t : Token) (word : Bytes)
    → t.length ≡ length (text t)
    → contains keywords (text t) ≡ true
    → contains keywords word ≡ true
    → same_word t word ≡ bytes_eq (text t) word
unfolding text
same_word-eq t word l c c' =
    let all = every-contains (λ a. every (agrees a) keywords) keywords keywords-agrees c in
    let exact = agrees-eq (text t) word (every-contains (agrees (text t)) keywords all c') in
    let len = (if ltb t.length (length word) then t.length else length word) in
    let short : len ≤ t.length = ground arith in
    let e : take len (take t.length t.pos.rest) ≡ take len t.pos.rest =
      take-take len t.length t.pos.rest short in
    let e' : len ≡ prefix_length (text t) word =
      ap (λ n. if ltb n (length word) then n else length word) l in
    ap (λ bs. bytes_eq bs (take len word)) (sym e)
    ∙ ap (λ n. same_prefix n (text t) word) e'
    ∙ exact

-- On a quiet parser over a reachable lexer, whose next token exists, `parse_keyword` with a keyword
-- goes behind that token if it is this keyword, and otherwise returns the parser it was given.
pub parse_keyword-exact :
    {source : Bytes} (p p' : Parser) (t : Token) (word : Bytes)
    → Steps source p.lexer
    → p.armed ≡ false
    → contains keywords word ≡ true
    → parser_next_token p ≡ ok (t, p')
    → parse_keyword p word ≡ ok (if is_keyword t.type && bytes_eq (text t) word then p' else p)
unfolding parse_keyword
parse_keyword-exact p p' t word s q c e =
    let (armed, l, found) = subst (Got p) e (parser_next_token-Got p s) in
    elim (Bool-cases (is_keyword t.type)) [
      | inr n ↦ rw (e, n, parser_error-quiet p p q) refl
      | inl k ↦
          let same = same_word-eq t word l (found k) c in
          elim (Bool-cases (bytes_eq (text t) word)) [
            | inl b ↦ cc (e, k, same, b)
            | inr b ↦ cc (e, k, same, b, parser_error-quiet p' p (armed ∙ q))
          ]
    ]
