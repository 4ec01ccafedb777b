-- ===== src/Parser/Climbing.antt =====
-- parse.cpp 801-848: the operands and the operators that `parse_binary_expr` reads, and the tree
-- that precedence and associativity to the left make of them.
pub mod Inverse
pub mod Result
pub mod Unique
use mathlib.Core.Path.{subst}
use janguage.Base.{
  ℕ, zero, suc, ◌+◌, ◌≤◌, ◌<◌, ◌≡◌, ◌≢◌, ◌⊎◌, inl, inr, refl, sym, ap, ◌∙◌, Bool, true, false, ◌||◌,
  ◌==◌, leb, List, [], ◌∷◌, ◌++◌, All, All-append, All-map, Bool-cases, Option-cases, Option, none,
  some, if◌then◌else◌, Outcome, Abort, ok, abort, ◌>>=◌, arith,
}
use janguage.Token.{TokenType, Token, binary_operator_precedence}
use janguage.Ast.{Ast, binary_operator}
use janguage.Parser.Tokens.{Parser, arm, quiet, parser_peek_token, parser_next_token, advance}
use janguage.Parser.Literals.{FloatLibrary}
use janguage.Parser.Combine.{Parsed, moved, branch, choose}
use janguage.Parser.Grammar.{
  parse_primary_expr, parse_expression_suffix, parse_binary_expr, parse_operators, parse_expr,
}
use janguage.Parser.Comments.{Outcome-cases}

abbrev pub precedence : TokenType × Ast → ℕ
precedence entry = binary_operator_precedence entry.0

-- The tree of an operand and of the operators and operands behind it: the root is an operator that
-- binds less than those on its right, and not more than those on its left.
pub data Tree : Ast → Ast → List (TokenType × Ast) → Type 0 where
  operand : (first : Ast) → Tree first first []
  operation :
      {op : TokenType} {first middle lhs rhs : Ast} {before after : List (TokenType × Ast)}
      → Tree first lhs before
      → Tree middle rhs after
      → All (λ entry. binary_operator_precedence op ≤ precedence entry) before
      → All (λ entry. binary_operator_precedence op < precedence entry) after
      → Tree first (binary_operator op lhs rhs) (before ++ (op, middle) ∷ after)

module _ (lib : FloatLibrary) where
  -- An operand: a primary expression, or a call of one.
  pub data Operand (p : Parser) : Ast → Parser → Type 0 where
    primary :
        {e : Ast} {q : Parser} (f : ℕ) (r : Option (Ast × Parser))
        → parse_primary_expr lib f p ≡ ok r
        → moved p r ≡ some (e, q)
        → Operand p e q
    call :
        {e e' : Ast} {q q' : Parser} (f : ℕ) (r r' : Option (Ast × Parser))
        → parse_primary_expr lib f p ≡ ok r
        → moved p r ≡ some (e, q)
        → parse_expression_suffix lib f (quiet q) e ≡ ok r'
        → moved q r' ≡ some (e', q')
        → Operand p e' q'

  -- Operators with their operands, from one parser to another.
  pub data Operations : Parser → List (TokenType × Ast) → Parser → Type 0 where
    none_left : (p : Parser) → Operations p [] p
    more :
        {op t : Token} {p p' q r : Parser} {e : Ast} {ops : List (TokenType × Ast)}
        → parser_peek_token p ≡ ok op
        → parser_next_token p ≡ ok (t, p')
        → Operand (arm p') e q
        → Operations q ops r
        → Operations p ((op.type, e) ∷ ops) r

  -- What has been read from `p` to `q`, and the expression that is made of it.
  pub record Reading (p : Parser) (prev : ℕ) (e : Ast) (q : Parser) : Type 0 where
    pub first : Ast
    pub middle : Parser
    pub ops : List (TokenType × Ast)
    pub begins : Operand p first middle
    pub goes_on : Operations middle ops q
    pub tree : Tree first e ops
    pub above : All (λ entry. prev < precedence entry) ops
    pub armed : p.armed ≡ true → q.armed ≡ true

  -- What `parse_binary_expr` has read. The next operator is left to the caller.
  pub record Climbs (p : Parser) (prev : ℕ) (e : Ast) (q : Parser) : Type 0 where
    pub reading : Reading p prev e q
    pub next : Token
    pub peeked : parser_peek_token q ≡ ok next
    pub ends : binary_operator_precedence next.type ≤ prev
