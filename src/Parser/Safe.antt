-- ===== src/Parser/Safe.antt =====
-- parse.cpp: the parse functions with enough fuel. What each of them does with some fuel is a field
-- of a record; the child modules build the record for one unit of fuel more.
use janguage.Base.{
  ℕ, zero, suc, ◌+◌, ◌*◌, ◌≤◌, ◌<◌, ◌≡◌, ◌≢◌, ◌⊎◌, inl, inr, Bool, true, false, Bytes, length, ◌==◌,
  leb, ◌||◌, Outcome, ok, abort, todo, ◌>>=◌, ◌>>◌, arith, refl,
}
use janguage.Token.{TokenType, Token, eof, binary_operator_precedence}
use janguage.Lexer.Steps.{Steps, Steps-abort}
use janguage.Lexer.Next.{next_token, peek_token}
use janguage.Ast.{CompilerErrorKind, Ast, Pointer, Nodes, Declarations}
use janguage.Parser.Tokens.{Parser, is_comment, parser_peek_token, parser_next_token}
use janguage.Parser.Literals.{FloatLibrary}
use janguage.Parser.Comments.{OverComments, Significant, skip_comments-found, Outcome-cases}
use janguage.Parser.Combine.{Parsed}
use janguage.Parser.Grammar.{
  parse_statement, parse_if, parse_while, parse_for, parse_range, parse_return, parse_block,
  parse_statements, parse_compiler_error_block, parse_proc_signature, parse_arguments,
  parse_return_type, parse_proc, parse_primary_expr, parse_expression_suffix, parse_call,
  parse_binary_expr, parse_operators, parse_expr, parse_type, parse_decl, parse_init,
}
use janguage.Parser.Ranges.{
  HasRanges, HasRangesPointer, HasRangesNodes, HasRangesBlock, HasRangesDeclaration,
  HasRangesDeclarations, HasRangesSignature,
}
use janguage.Parser.Goes.{offset_of, Goes, Goes, found-Goes}
use janguage.Parser.Outcomes.{Parses, Any, Enough}
pub mod Expressions
pub mod Statements
pub mod Types
pub mod Modules

-- What a call does, if it has enough fuel for a function of the level.
abbrev pub Safely : {A : Type 0} → (A → Type 0) → Bytes → ℕ → ℕ → (Parser → Parsed A) → Type 0
Safely P source level fuel parse =
    (p : Parser)
    → Steps source p.lexer
    → Enough source fuel level p
    → Parses source (offset_of p) P (parse p)

abbrev pub Reached : Bytes → Parser → Type 0
Reached source p = Steps source p.lexer

-- The parse functions with a fuel.
pub record Safe (lib : FloatLibrary) (source : Bytes) (f : ℕ) : Type 0 where
  pub decl : Safely HasRangesDeclaration source 1 f (parse_decl lib f)
  -- Without an init expression the declaration ends where its type does.
  pub init :
      (from : ℕ) (start : Parser) (id : Token) (type : Pointer) (p : Parser)
      → HasRangesPointer type
      → Reached source start
      → Steps source p.lexer
      → from < offset_of p
      → Enough source f 1 p
      → Parses source from HasRangesDeclaration (parse_init lib f start id type p)
  pub signature : Safely HasRangesSignature source 1 f (parse_proc_signature lib f)
  pub arguments :
      (start : Parser) (args : Declarations) (is_vararg require_close : Bool)
      → HasRangesDeclarations args
      → Reached source start
      → Safely HasRangesSignature source 2 f
          (λ p. parse_arguments lib f start p args is_vararg require_close)
  pub return_type :
      (start : Parser) (args : Declarations) (is_vararg : Bool)
      → HasRangesDeclarations args
      → Reached source start
      → Safely HasRangesSignature source 3 f (λ p. parse_return_type lib f start p args is_vararg)
  pub type : Safely HasRanges source 2 f (parse_type lib f)
  pub proc : Safely HasRanges source 2 f (parse_proc lib f)
  pub primary : Safely HasRanges source 3 f (parse_primary_expr lib f)
  pub suffix :
      (lhs : Ast)
      → HasRanges lhs
      → Safely HasRanges source 1 f (λ p. parse_expression_suffix lib f p lhs)
  pub call :
      (lhs : Ast) (args : Nodes) (require_close : Bool)
      → HasRanges lhs
      → HasRangesNodes args
      → Safely HasRanges source 6 f (λ p. parse_call lib f lhs p args require_close)
  pub binary : (prev : ℕ) → Safely HasRanges source 4 f (λ p. parse_binary_expr lib f p prev)
  -- The loop gives the operand back where it stands.
  pub operators :
      (from prev : ℕ) (lhs : Ast) (p : Parser)
      → HasRanges lhs
      → Steps source p.lexer
      → from < offset_of p
      → Enough source f 1 p
      → Parses source from HasRanges (parse_operators lib f lhs p prev)
  pub expr : Safely HasRanges source 5 f (parse_expr lib f)
  pub statement : Safely HasRanges source 6 f (parse_statement lib f)
  pub if_ : Safely HasRanges source 6 f (parse_if lib f)
  pub while_ : Safely HasRanges source 6 f (parse_while lib f)
  pub for_ :
      (start : Parser) → Reached source start → Safely HasRanges source 1 f (parse_for lib f start)
  pub range :
      (start : Parser) (id : Token) (range_begin : Pointer)
      → HasRangesPointer range_begin
      → Reached source start
      → Safely HasRanges source 1 f (parse_range lib f start id range_begin)
  pub return_ :
      (from : ℕ) (p : Parser)
      → Steps source p.lexer
      → from < offset_of p
      → Enough source f 6 p
      → Parses source from HasRanges (parse_return lib f p)
  pub block :
      (kind : CompilerErrorKind)
      → Safely HasRangesBlock source 1 f (λ p. parse_block lib f p kind false)
  pub raw_block :
      (kind : CompilerErrorKind)
      → Safely HasRangesBlock source 7 f (λ p. parse_block lib f p kind true)
  pub statements :
      (kind : CompilerErrorKind) (done : Nodes)
      → HasRangesNodes done
      → Safely HasRangesBlock source 7 f (λ p. parse_statements lib f kind done p)
  pub error_block : Safely HasRangesBlock source 1 f (parse_compiler_error_block lib f)

-- A token that `Parser::peek_token` has seen and that is no comment is the one that comes next.
peeked-cases :
    {source : Bytes} (p : Parser)
    → Steps source p.lexer
    → (parser_peek_token p ≡ abort todo)
      ⊎ ((t : Token) × (parser_peek_token p ≡ ok t)
          × (is_comment t.type ≡ false
              → (q : Parser) × (parser_next_token p ≡ ok (t, q)) × Goes source p t q))
unfolding parser_peek_token peek_token parser_next_token
peeked-cases p s = elim (Outcome-cases (next_token p.lexer)) [
  | inr (a, e) ↦ inl (rw (e, (Steps-abort a s e).0))
  | inl ((t, lx), e) ↦ inr (
    t,
    rw e,
    λ c. (
      record p { lexer = lx },
      rw (skip_comments-found (length p.lexer.cursor.rest) p.lexer e c),
      found-Goes p s OverComments.here e,
    ),
  )
]

pub peeked-Parses :
    {source : Bytes} {from : ℕ} {A : Type 0} {P : A → Type 0} (p : Parser)
    (then_do : Token → Parsed A)
    → Steps source p.lexer
    → ((t : Token)
        → (is_comment t.type ≡ false
            → (q : Parser) × (parser_next_token p ≡ ok (t, q)) × Goes source p t q)
        → Parses source from P (then_do t))
    → Parses source from P (parser_peek_token p >>= then_do)
peeked-Parses p then_do s h = elim (peeked-cases p s) [
  | inl e ↦ rw e Parses.stops
  | inr (t, e, n) ↦ rw e (h t n)
]
