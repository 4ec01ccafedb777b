-- ===== src/Parser/Climbing/Inverse.antt =====
-- parse.cpp 801-848: what has been called where a parse function has returned an expression, and the
-- branches of the loop of `parse_binary_expr`.
use janguage.Base.{
  ℕ, suc, ◌≡◌, ◌⊎◌, inl, inr, refl, Bool, true, false, ◌||◌, ◌==◌, leb, Bool-cases, Option-cases,
  Option, none, some, Outcome, Abort, ok, abort, ◌>>=◌,
}
use janguage.Token.{Token, binary_operator_precedence}
use janguage.Ast.{Ast, binary_operator}
use janguage.Parser.Tokens.{Parser, arm, parser_peek_token, parser_next_token, advance}
use janguage.Parser.Literals.{FloatLibrary}
use janguage.Parser.Combine.{Parsed, moved, branch, choose}
use janguage.Parser.Grammar.{parse_binary_expr, parse_operators}
use janguage.Parser.Comments.{Outcome-cases}

-- The last `parse_…` of a chain of them has returned.
module _ {A B : Type 0} (p : Parser) where
  pub choose-inverse :
      {m : Parsed A} (then_do : A → Parser → Parsed B) (otherwise : Unit {0} → Parsed B)
      {x : B × Parser}
      → choose p m then_do otherwise ≡ ok (some x)
      → ((r : Option (A × Parser)) × (out : A) × (q : Parser) × (m ≡ ok r)
          × (moved p r ≡ some (out, q))
          × (then_do out q ≡ ok (some x)))
        ⊎ (otherwise tt ≡ ok (some x))
  unfolding choose branch
  choose-inverse {m} then_do otherwise e = elim (Outcome-cases m) [
    | inr (a, f) ↦ absurd (cc (e, f))
    | inl (r, f) ↦ elim (Option-cases (moved p r)) [
      | inl g ↦ inr (cc (e, f, g))
      | inr ((out, q), g) ↦ inl (r, out, q, f, g, cc (e, f, g))
    ]
  ]

  pub require-inverse :
      {m : Parsed A} (then_do : A → Parser → Parsed B) {x : B × Parser}
      → choose p m then_do (λ _. ok none) ≡ ok (some x)
      → (r : Option (A × Parser)) × (out : A) × (q : Parser) × (m ≡ ok r)
        × (moved p r ≡ some (out, q))
        × (then_do out q ≡ ok (some x))
  require-inverse then_do e = elim (choose-inverse then_do (λ _. ok none) e) [
    | inl k ↦ k
    | inr n ↦ absurd (cc n)
  ]

-- A parser that goes on is the one that has been returned, if it is armed as that one.
moved-same :
    {A : Type 0} (p : Parser) {out out' : A} {q q' : Parser}
    → moved p (some (out, q)) ≡ some (out', q')
    → (out ≡ out') × (q'.armed ≡ p.armed) × (q.armed ≡ p.armed → q ≡ q')
unfolding moved advance
moved-same {A} p {out} {out'} {q} {q'} e =
    elim (Bool-cases (leb q.lexer.cursor.offset p.lexer.cursor.offset)) [
      | inl b ↦ absurd (cc (e, b))
      | inr b ↦
          let k : ◌≡◌ {A = Option (A × Parser)} (some (out, record p { lexer = q.lexer }))
              (some (out', q')) =
            cc (e, b) in
          (cc k, cc k, λ a. cc (k, a))
    ]

pub moved-some :
    {A : Type 0} (p : Parser) (r : Option (A × Parser)) {out : A} {q' : Parser}
    → moved p r ≡ some (out, q')
    → (q : Parser) × (r ≡ some (out, q)) × (q'.armed ≡ p.armed) × (q.armed ≡ p.armed → q ≡ q')
unfolding moved
moved-some p none e = absurd (cc e)
moved-some p (some (out, q)) e =
    let (same, armed, back) = moved-same p e in (q, cc same, armed, back)

pub bind-inverse :
    {A B : Type 0} {m : Outcome A} {k : A → Outcome B} {x : B}
    → (m >>= k) ≡ ok x
    → (a : A) × (m ≡ ok a) × (k a ≡ ok x)
bind-inverse {m = ok a} e = (a, refl, e)
bind-inverse {m = abort a} e = absurd (cc e)

-- Whether the loop leaves an operator to its caller.
abbrev pub is_last : Token → ℕ → Bool
is_last op prev =
    binary_operator_precedence op.type == 0 || leb (binary_operator_precedence op.type) prev

pub operators-abort :
    (lib : FloatLibrary) (f : ℕ) (lhs : Ast) (q : Parser) (prev : ℕ) (a : Abort)
    → parser_peek_token q ≡ abort a
    → parse_operators lib (suc f) lhs q prev ≡ abort a
unfolding parse_operators
operators-abort lib f lhs q prev a e = cc e

module _ (lib : FloatLibrary) (f : ℕ) (lhs : Ast) (q : Parser) (prev : ℕ) {op : Token}
    (e : parser_peek_token q ≡ ok op) where
  pub operators-last :
      is_last op prev ≡ true → parse_operators lib (suc f) lhs q prev ≡ ok (some (lhs, q))
  unfolding parse_operators
  operators-last b = cc (e, b)

  pub operators-next :
      is_last op prev ≡ false
      → parse_operators lib (suc f) lhs q prev ≡ (
          parser_next_token q >>= λ (_, p).
          choose
            (arm p)
            (parse_binary_expr lib f (arm p) (binary_operator_precedence op.type))
            (λ rhs p. parse_operators lib f (binary_operator op.type lhs rhs) p prev)
            λ _. ok none)
  unfolding parse_operators
  operators-next b = cc (e, b)
