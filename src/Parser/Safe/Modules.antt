-- ===== src/Parser/Safe/Modules.antt =====
-- parse.cpp 134-346 and 948-989: a statement by what it begins with, and a module.
use mathlib.Core.Path.{subst}
use janguage.Base.{
  ℕ, zero, suc, ◌+◌, ◌*◌, ◌≡◌, ◌⊎◌, refl, inl, inr, false, Bool-cases, Bytes, Option, length, ok,
  abort, todo, ◌>>=◌, arith, none, some, codes,
}
use janguage.Token.{identifier, colon}
use janguage.Lexer.Next.{lexer_at}
use janguage.Lexer.Steps.{Steps, begun}
use janguage.Ast.{Ast, no_error, Nodes, end, push_node, declaration}
use janguage.Parser.Tokens.{Parser, arm, quiet}
use janguage.Parser.Literals.{FloatLibrary}
use janguage.Parser.Combine.{Parsed}
use janguage.Parser.Grammar.{
  is_eof_type, parse_statement, parse_declarations, parse_module, parse_module_source,
}
use janguage.Parser.Ranges.{HasRanges, HasRangesNodes, push_node-HasRanges}
use janguage.Parser.Reports.{IsTerminated}
use janguage.Parser.Goes.{offset_of}
use janguage.Parser.Outcomes.{
  Parses, Parses-from, Enough, Enough-zero, choose-Parses, require-Parses, fail-Parses,
  token-Parses, keyword-Parses, peek-Parses,
}
use janguage.Parser.Safe.{Safely, Safe}
use janguage.Parser.Safe.Expressions.{
  primary-Safely, suffix-Safely, call-Safely, binary-Safely, operators-Safely, expr-Safely,
}
use janguage.Parser.Safe.Types.{
  decl-Safely, init-Safely, signature-Safely, arguments-Safely, return_type-Safely, proc-Safely,
  type-Safely,
}
use janguage.Parser.Safe.Statements.{
  if-Safely, while-Safely, for-Safely, range-Safely, return-Safely, block-Safely, raw_block-Safely,
  statements-Safely, error_block-Safely,
}

Parses-result :
    {source : Bytes} {from : ℕ} {r : Parsed Ast}
    → Parses source from HasRanges r
    → ((m : Option Ast) × ((r >>= λ r. ok (elim r [ none ↦ none | some (m, _) ↦ some m ])) ≡ ok m)
        × ((a : Ast) → m ≡ some a → HasRanges a))
      ⊎ ((r >>= λ r. ok (elim r [ none ↦ none | some (m, _) ↦ some m ])) ≡ abort todo)
Parses-result Parses.refuses = inl (none, refl, λ a e. absurd (cc e))
Parses-result (Parses.reads {out} s lt h) = inl (some out, refl, λ a e. subst HasRanges (cc e) h)
Parses-result Parses.stops = inr refl

module _ (lib : FloatLibrary) {source : Bytes} (z : IsTerminated source) where
  statement-Safely :
      {f : ℕ} → Safe lib source f → Safely HasRanges source 6 (suc f) (parse_statement lib (suc f))
  unfolding parse_statement HasRanges
  statement-Safely k p s h =
      choose-Parses p _ _ (k.decl (quiet p) s (omega (arith, h)))
        (λ d q s' lt w. Parses.reads s' lt w)
        (choose-Parses p _ _ (keyword-Parses (quiet p) z s (codes "if"))
          (λ _ q s' lt _. Parses-from (omega (arith, lt)) (k.if_ (arm q) s' (omega (arith, h, lt))))
          (choose-Parses p _ _ (keyword-Parses (quiet p) z s (codes "while"))
            (λ _ q s' lt _.
              Parses-from (omega (arith, lt)) (k.while_ (arm q) s' (omega (arith, h, lt))))
            (choose-Parses p _ _ (keyword-Parses (quiet p) z s (codes "for"))
              (λ _ q s' lt _.
                Parses-from (omega (arith, lt)) (k.for_ p s (arm q) s' (omega (arith, h, lt))))
              (choose-Parses p _ _ (keyword-Parses (quiet p) z s (codes "break"))
                (λ _ q s' lt _. Parses.reads s' lt tt)
                (choose-Parses p _ _ (keyword-Parses (quiet p) z s (codes "continue"))
                  (λ _ q s' lt _. Parses.reads s' lt tt)
                  (choose-Parses p _ _ (keyword-Parses (quiet p) z s (codes "return"))
                    (λ _ q s' lt _. k.return_ (offset_of p) (arm q) s' lt (omega (arith, h, lt)))
                    (choose-Parses p _ _ (token-Parses (quiet p) z s colon (λ e. cc))
                      (λ _ q s' lt _.
                        require-Parses (arm q) _ (token-Parses (arm q) z s' identifier (λ e. cc))
                          λ id r s'' lt' _. Parses.reads s'' (omega (arith, lt, lt')) tt)
                      (choose-Parses p _ _ (keyword-Parses (quiet p) z s (codes "goto"))
                        (λ _ q s' lt _.
                          require-Parses (arm q) _ (token-Parses (arm q) z s' identifier (λ e. cc))
                            λ id r s'' lt' _. Parses.reads s'' (omega (arith, lt, lt')) tt)
                        (choose-Parses p _ _ (k.block no_error (quiet p) s (omega (arith, h)))
                          (λ b q s' lt w. Parses.reads s' lt w)
                          (choose-Parses p _ _ (k.error_block (quiet p) s (omega (arith, h)))
                            (λ b q s' lt w. Parses.reads s' lt w)
                            (choose-Parses p _ _ (k.expr (quiet p) s (omega (arith, h)))
                              (λ e q s' lt w. Parses.reads s' lt w) (fail-Parses p p z s))))))))))))

  -- The parse functions with any fuel.
  all-Safe : (f : ℕ) → Safe lib source f
  all-Safe zero = record {
    decl = λ p s h. Enough-zero 0 p s h;
    init = λ from start id type p w r s lt h. Enough-zero 0 p s h;
    signature = λ p s h. Enough-zero 0 p s h;
    arguments = λ start args v c w r p s h. Enough-zero 1 p s h;
    return_type = λ start args v w r p s h. Enough-zero 2 p s h;
    type = λ p s h. Enough-zero 1 p s h;
    proc = λ p s h. Enough-zero 1 p s h;
    primary = λ p s h. Enough-zero 2 p s h;
    suffix = λ lhs w p s h. Enough-zero 0 p s h;
    call = λ lhs args c w ws p s h. Enough-zero 5 p s h;
    binary = λ prev p s h. Enough-zero 3 p s h;
    operators = λ from prev lhs p w s lt h. Enough-zero 0 p s h;
    expr = λ p s h. Enough-zero 4 p s h;
    statement = λ p s h. Enough-zero 5 p s h;
    if_ = λ p s h. Enough-zero 5 p s h;
    while_ = λ p s h. Enough-zero 5 p s h;
    for_ = λ start r p s h. Enough-zero 0 p s h;
    range = λ start id b w r p s h. Enough-zero 0 p s h;
    return_ = λ from p s lt h. Enough-zero 5 p s h;
    block = λ kind p s h. Enough-zero 0 p s h;
    raw_block = λ kind p s h. Enough-zero 6 p s h;
    statements = λ kind done ws p s h. Enough-zero 6 p s h;
    error_block = λ p s h. Enough-zero 0 p s h;
  }
  all-Safe (suc f) =
      let k = all-Safe f in
      record {
        decl = decl-Safely z k;
        init = init-Safely z k;
        signature = signature-Safely z k;
        arguments = λ start args v c w r. arguments-Safely z k start args v w r c;
        return_type = return_type-Safely z k;
        type = type-Safely z k;
        proc = proc-Safely z k;
        primary = primary-Safely z k;
        suffix = suffix-Safely z k;
        call = call-Safely z k;
        binary = binary-Safely z k;
        operators = operators-Safely z k;
        expr = expr-Safely z k;
        statement = statement-Safely k;
        if_ = if-Safely z k;
        while_ = while-Safely z k;
        for_ = for-Safely z k;
        range = λ start id b w r. range-Safely z k start r id b w;
        return_ = return-Safely z k;
        block = block-Safely z k;
        raw_block = raw_block-Safely z k;
        statements = statements-Safely z k;
        error_block = error_block-Safely z k;
      }

  declarations-Safely :
      (f : ℕ) (done : Nodes)
      → HasRangesNodes done
      → Safely HasRanges source 2 f (parse_declarations lib f done)
  unfolding parse_declarations HasRanges
  declarations-Safely zero done ws p s h = Enough-zero 1 p s h
  declarations-Safely (suc f) done ws p s h =
      require-Parses p _ ((all-Safe f).decl p s (omega (arith, h))) λ d q s' lt w.
        let ws' = push_node-HasRanges done (declaration d) ws w in
        peek-Parses q _ s' λ next _. elim (Bool-cases (is_eof_type next.type)) [
          | inl b ↦ rw b (Parses.reads s' lt ws')
          | inr b ↦ rw b (
              Parses-from (omega (arith, lt)) (
                declarations-Safely f (push_node done (declaration d)) ws' q s'
                  (omega (arith, h, lt))))
        ]

  -- On a source that ends in a NUL byte, from a parser over a reachable lexer with enough fuel,
  -- `parse_statement` returns: it gives back the parser that it was given, or one over a reachable
  -- lexer that has moved on; or it stops where the lexer does, at a string literal that is not closed.
  pub parse_statement-Parses :
      (f : ℕ) (p : Parser)
      → Steps source p.lexer
      → Enough source f 6 p
      → Parses source (offset_of p) HasRanges (parse_statement lib f p)
  parse_statement-Parses f p s h = (all-Safe f).statement p s h

  -- A source that ends in a NUL byte is parsed to a module or to none, or the program stops at a
  -- string literal that is not closed: the parser never runs out of fuel, no assertion of it fails,
  -- and no null pointer is followed.
  pub parse_module_source-returns :
      ((m : Option Ast) × (parse_module_source lib source ≡ ok m)
        × ((a : Ast) → m ≡ some a → HasRanges a))
      ⊎ (parse_module_source lib source ≡ abort todo)
  unfolding parse_module_source parse_module HasRanges
  parse_module_source-returns =
      let p : Parser = record { lexer = lexer_at source; armed = false } in
      Parses-result (
        choose-Parses {P = HasRanges} {from = 0} p (λ m p. ok (some (m, p))) (λ _. ok none)
          (declarations-Safely (20 * length source + 20) end tt (arm p) begun (omega arith))
          (λ m q s lt w. Parses.reads s lt w) Parses.refuses)
