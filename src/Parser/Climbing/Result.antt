-- ===== src/Parser/Climbing/Result.antt =====
-- parse.cpp 801-848: the expression that `parse_binary_expr` returns.
use mathlib.Core.Path.{subst}
use janguage.Base.{
  ℕ, zero, suc, ◌≤◌, ◌<◌, ◌≡◌, inl, inr, refl, sym, ap, ◌∙◌, false, List, [], ◌∷◌, ◌++◌, All,
  All-append, All-map, Bool-cases, Option, some, Outcome, ok, arith,
}
use janguage.Token.{TokenType, Token, binary_operator_precedence}
use janguage.Ast.{Ast, binary_operator}
use janguage.Parser.Tokens.{Parser, arm, parser_peek_token, parser_next_token}
use janguage.Parser.Literals.{FloatLibrary}
use janguage.Parser.Grammar.{parse_binary_expr, parse_operators}
use janguage.Parser.Comments.{Outcome-cases}
use janguage.Parser.Climbing.{
  precedence, operand, operation, primary, call, Operations, none_left, more, Reading, Climbs,
}
use janguage.Parser.Climbing.Inverse.{
  choose-inverse, require-inverse, moved-some, bind-inverse, is_last, operators-abort,
  operators-last, operators-next,
}

module _ (lib : FloatLibrary) where
  Operations-append :
      {p q r : Parser} {ops ops' : List (TokenType × Ast)}
      → Operations lib p ops q
      → Operations lib q ops' r
      → Operations lib p (ops ++ ops') r
  Operations-append (none_left _) o' = o'
  Operations-append (more e n a o) o' = more e n a (Operations-append o o')

  -- One more operation, from what is read of its right operand.
  abbrev more-Reading :
      {p : Parser} {prev : ℕ} {lhs rhs : Ast} {q q' r : Parser} {op t : Token}
      → (k : Reading lib p prev lhs q) → parser_peek_token q ≡ ok op
      → parser_next_token q ≡ ok (t, q')
      → prev < binary_operator_precedence op.type
      → All (λ entry. binary_operator_precedence op.type ≤ precedence entry) k.ops
      → Reading lib (arm q') (binary_operator_precedence op.type) rhs r
      → Reading lib p prev (binary_operator op.type lhs rhs) r
  more-Reading {p} {prev} {lhs} {rhs} {q} {q'} {r} {op} k e n lt below k' = record {
    first = k.first;
    middle = k.middle;
    ops = k.ops ++ (op.type, k'.first) ∷ k'.ops;
    begins = k.begins;
    goes_on = Operations-append k.goes_on (more e n k'.begins k'.goes_on);
    tree = operation k.tree k'.tree below k'.above;
    above =
        All-append _ k.ops _ k.above
          (lt, All-map _ _ k'.ops (λ x h. omega (arith, lt, h)) k'.above);
    armed = λ _. k'.armed refl;
  }

  -- What the loop makes of what has been read, if the next operator binds less than those in it.
  abbrev OperatorsClimb : ℕ → Type 0
  OperatorsClimb f =
      (p q : Parser) (prev : ℕ) (lhs e : Ast) (r : Parser)
      → (k : Reading lib p prev lhs q)
      → ((op : Token)
          → parser_peek_token q ≡ ok op
          → All (λ entry. binary_operator_precedence op.type ≤ precedence entry) k.ops)
      → parse_operators lib f lhs q prev ≡ ok (some (e, r))
      → Climbs lib p prev e r

  abbrev BinaryClimbs : ℕ → Type 0
  BinaryClimbs f =
      (p : Parser) (prev : ℕ) (e : Ast) (q : Parser)
      → parse_binary_expr lib f p prev ≡ ok (some (e, q))
      → Climbs lib p prev e q

  binary-Climbs-suc : (f : ℕ) → OperatorsClimb f → BinaryClimbs (suc f)
  unfolding parse_binary_expr
  binary-Climbs-suc f go p prev e q h =
      let (r, lhs, p', m, g, h') = require-inverse p _ h in
      let (_, _, armed, _) = moved-some p r g in
      elim (choose-inverse p' _ _ h') [
        | inl (r', lhs', p'', m', g', h'') ↦
            go p p'' prev lhs' e q
              (record {
                first = lhs';
                middle = p'';
                ops = [];
                begins = call f r r' m g m' g';
                goes_on = none_left p'';
                tree = operand lhs';
                above = tt;
                armed = λ a. (let (_, _, armed', _) = moved-some p' r' g' in armed' ∙ armed ∙ a);
              })
              (λ _ _. tt) h''
        | inr h'' ↦
            go p p' prev lhs e q
              (record {
                first = lhs;
                middle = p';
                ops = [];
                begins = primary f r m g;
                goes_on = none_left p';
                tree = operand lhs;
                above = tt;
                armed = λ a. armed ∙ a;
              })
              (λ _ _. tt) h''
      ]

  -- One more round of the loop.
  round-Climbs :
      (f : ℕ) {p q q' q'' : Parser} (prev : ℕ) {lhs rhs e : Ast} {r : Parser} {op t : Token}
      → OperatorsClimb f
      → (k : Reading lib p prev lhs q) → parser_peek_token q ≡ ok op
      → parser_next_token q ≡ ok (t, q')
      → is_last op prev ≡ false
      → All (λ entry. binary_operator_precedence op.type ≤ precedence entry) k.ops
      → Climbs lib (arm q') (binary_operator_precedence op.type) rhs q''
      → parse_operators lib f (binary_operator op.type lhs rhs) q'' prev ≡ ok (some (e, r))
      → Climbs lib p prev e r
  round-Climbs f {p} {q} {q'} {q''} prev {lhs} {rhs} {e} {r} {op} {t} go k g n b below c h =
      go p q'' prev (binary_operator op.type lhs rhs) e r
        (more-Reading k g n (ground (arith, b)) below c.reading)
        (λ op' g'.
          let found : ok c.next ≡ ok op' = sym c.peeked ∙ g' in
          let same : c.next ≡ op' = cc found in
          let le : binary_operator_precedence op'.type ≤ binary_operator_precedence op.type =
            subst
              (λ (t : Token).
                binary_operator_precedence t.type ≤ binary_operator_precedence op.type)
              same c.ends in
          All-append _ k.ops _ (All-map _ _ k.ops (λ x h. omega (arith, h, le)) below)
            (le, All-map _ _ c.reading.ops (λ x h. omega (arith, h, le)) c.reading.above))
        h

  operators-Climbs-suc : (f : ℕ) → OperatorsClimb f → BinaryClimbs f → OperatorsClimb (suc f)
  operators-Climbs-suc f go binary p q prev lhs e r k below h =
      elim (Outcome-cases (parser_peek_token q)) [
        | inr (a, g) ↦ absurd (cc (operators-abort lib f lhs q prev a g, h))
        | inl (op, g) ↦ elim (Bool-cases (is_last op prev)) [
          | inl b ↦
              let same : ◌≡◌ {A = Outcome (Option (Ast × Parser))} (ok (some (lhs, q)))
                  (ok (some (e, r))) =
                sym (operators-last lib f lhs q prev g b) ∙ h in
              let here : Climbs lib p prev lhs q = record {
                reading = k;
                next = op;
                peeked = g;
                ends = ground (arith, b);
              } in
              subst (λ x. Climbs lib p prev x r) (cc same)
                (subst (λ x. Climbs lib p prev lhs x) (cc same) here)
          | inr b ↦
              let ((t, q'), n, h') = bind-inverse (sym (operators-next lib f lhs q prev g b) ∙ h) in
              let (m, rhs, q'', is, moves, h'') = require-inverse (arm q') _ h' in
              let (q0, s, _, back) = moved-some (arm q') m moves in
              let c = binary (arm q') (binary_operator_precedence op.type) rhs q0 (is ∙ ap ok s) in
              round-Climbs f prev go k g n b (below op g)
                (subst (λ x. Climbs lib (arm q') (binary_operator_precedence op.type) rhs x)
                  (back (c.reading.armed refl)) c)
                h''
        ]
      ]

  climbs : (f : ℕ) → OperatorsClimb f × BinaryClimbs f
  unfolding parse_binary_expr parse_operators
  climbs zero = (λ p q prev lhs e r k b h. cc h, λ p prev e q h. cc h)
  climbs (suc f) =
      let (go, binary) = climbs f in (operators-Climbs-suc f go binary, binary-Climbs-suc f go)

  -- If `parse_binary_expr` returns an expression, it has read an operand, and then operators with their
  -- operands, all of a precedence above the given one. The expression is the tree that precedence and
  -- associativity to the left make of them, and the operator that comes next is not above.
  pub parse_binary_expr-Climbs :
      (f : ℕ) (p : Parser) (prev : ℕ) (e : Ast) (q : Parser)
      → parse_binary_expr lib f p prev ≡ ok (some (e, q))
      → Climbs lib p prev e q
  parse_binary_expr-Climbs f = (climbs f).1
