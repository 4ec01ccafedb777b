-- ===== src/Parser/Safe/Expressions.antt =====
-- parse.cpp 537-848: the expressions.
use janguage.Base.{
  ℕ, suc, ◌<◌, ◌≡◌, ◌≢◌, refl, inl, inr, Bool, true, false, Bytes, ◌==◌, leb, ◌||◌, Bool-cases, ok,
  arith, Option, none, some, codes,
}
use janguage.Token.{
  TokenType, eof, parenthesis_open, parenthesis_close, comma, number_literal, string_literal,
  identifier, binary_operator_precedence,
}
use janguage.Lexer.Steps.{Steps}
use janguage.Ast.{Ast, Nodes, end, push_node, literal, Literal, binary_operator}
use janguage.Parser.Tokens.{Parser, arm, quiet, is_comment}
use janguage.Parser.Literals.{FloatLibrary, number_literal_value, string_literal_value}
use janguage.Parser.Grammar.{
  parse_primary_expr, parse_expression_suffix, parse_call, parse_binary_expr, parse_operators,
  parse_expr,
}
use janguage.Parser.Combine.{fail}
use janguage.Parser.Ranges.{HasRanges, HasRangesNodes, push_node-HasRanges}
use janguage.Parser.Reports.{IsTerminated}
use janguage.Parser.Goes.{offset_of}
use janguage.Parser.Outcomes.{
  Parses, Parses-from, Enough, choose-Parses, require-Parses, fail-Parses, token-Parses,
  keyword-Parses, assert-Parses,
}
use janguage.Parser.Safe.{Safely, Safe, peeked-Parses}

-- Whether the loop of `parse_binary_expr` leaves an operator to its caller.
abbrev is_last : TokenType → ℕ → Bool
is_last t prev = binary_operator_precedence t == 0 || leb (binary_operator_precedence t) prev

operator-type :
    (t : TokenType) (prev : ℕ) → is_last t prev ≡ false → (is_comment t ≡ false) × (t ≢ eof)
unfolding binary_operator_precedence is_comment
operator-type t prev h = ground arith

module _ {lib : FloatLibrary} {source : Bytes} (z : IsTerminated source) {f : ℕ}
    (k : Safe lib source f) where
  pub binary-Safely :
      (prev : ℕ) → Safely HasRanges source 4 (suc f) (λ p. parse_binary_expr lib (suc f) p prev)
  unfolding parse_binary_expr
  binary-Safely prev p s h = require-Parses p _ (k.primary p s (omega (arith, h))) λ lhs q s lt w.
      choose-Parses q _ _ (k.suffix lhs w (quiet q) s (omega (arith, h, lt)))
        (λ call r s lt' v.
          k.operators (offset_of p) prev call r v s (omega (arith, lt, lt'))
            (omega (arith, h, lt, lt')))
        (k.operators (offset_of p) prev lhs q w s lt (omega (arith, h, lt)))

  pub operators-Safely :
      (from prev : ℕ) (lhs : Ast) (p : Parser)
      → HasRanges lhs
      → Steps source p.lexer
      → from < offset_of p
      → Enough source (suc f) 1 p
      → Parses source from HasRanges (parse_operators lib (suc f) lhs p prev)
  unfolding parse_operators HasRanges
  operators-Safely from prev lhs p w s lt h = peeked-Parses p _ s λ op n.
      elim (Bool-cases (is_last op.type prev)) [
        | inl b ↦ rw b (Parses.reads s lt w)
        | inr b ↦
            let (c, ne) = operator-type op.type prev b in
            let (q, e, g) = n c in
            rw (b, e)
              (require-Parses (arm q) _
                (k.binary (binary_operator_precedence op.type) (arm q) g.reached
                  (omega (arith, h, g.moves ne)))
                λ rhs r s lt' v.
                  k.operators from prev (binary_operator op.type lhs rhs) r (w, v) s
                    (omega (arith, lt, lt', g.moves ne)) (omega (arith, h, lt', g.moves ne)))
      ]

  pub expr-Safely : Safely HasRanges source 5 (suc f) (parse_expr lib (suc f))
  unfolding parse_expr
  expr-Safely p s h = k.binary 0 p s (omega (arith, h))

  pub suffix-Safely :
      (lhs : Ast)
      → HasRanges lhs
      → Safely HasRanges source 1 (suc f) (λ p. parse_expression_suffix lib (suc f) p lhs)
  unfolding parse_expression_suffix HasRanges
  suffix-Safely lhs w p s h =
      choose-Parses p _ _ (token-Parses (quiet p) z s parenthesis_open (λ e. cc))
        (λ t q s' lt _.
          Parses-from (omega (arith, lt))
            (k.call lhs end false w tt (arm q) s' (omega (arith, h, lt))))
        (fail-Parses p p z s)

  pub call-Safely :
      (lhs : Ast) (args : Nodes) (require_close : Bool)
      → HasRanges lhs
      → HasRangesNodes args
      → Safely HasRanges source 6 (suc f) (λ p. parse_call lib (suc f) lhs p args require_close)
  unfolding parse_call HasRanges
  call-Safely lhs args true w ws p s h =
      require-Parses p _ (token-Parses p z s parenthesis_close (λ e. cc))
        λ t q s' lt _. Parses.reads s' lt (w, ws)
  call-Safely lhs args false w ws p s h =
      choose-Parses p _ _ (token-Parses (quiet p) z s parenthesis_close (λ e. cc))
        (λ t q s' lt _. Parses.reads s' lt (w, ws))
        (require-Parses p _ (k.expr p s (omega (arith, h))) λ arg q s' lt v.
          let ws' = push_node-HasRanges args arg ws v in
          choose-Parses q _ _ (token-Parses (quiet q) z s' comma (λ e. cc))
            (λ t r s'' lt' _.
              Parses-from (omega (arith, lt, lt'))
                (k.call lhs (push_node args arg) false w ws' r s'' (omega (arith, h, lt, lt'))))
            (Parses-from (omega (arith, lt))
              (k.call lhs (push_node args arg) true w ws' q s' (omega (arith, h, lt)))))

  pub primary-Safely : Safely HasRanges source 3 (suc f) (parse_primary_expr lib (suc f))
  unfolding parse_primary_expr HasRanges
  primary-Safely p s h =
      choose-Parses p _ _ (token-Parses (quiet p) z s number_literal (λ e. cc))
        (λ t q s' lt b.
          assert-Parses (ground (arith, b.0)) (literal-Parses (number_literal_value lib t) q s' lt))
        (choose-Parses p _ _ (token-Parses (quiet p) z s string_literal (λ e. cc))
          (λ t q s' lt b.
            assert-Parses (ground (arith, b.1 refl))
              (literal-Parses (string_literal_value t) q s' lt))
          (choose-Parses p _ _ (token-Parses (quiet p) z s identifier (λ e. cc))
            (λ t q s' lt _. Parses.reads s' lt tt)
            (choose-Parses p _ _ (keyword-Parses (quiet p) z s (codes "true"))
              (λ t q s' lt _. Parses.reads s' lt tt)
              (choose-Parses p _ _ (keyword-Parses (quiet p) z s (codes "false"))
                (λ t q s' lt _. Parses.reads s' lt tt)
                (choose-Parses p _ _ (token-Parses (quiet p) z s parenthesis_open (λ e. cc))
                  (λ t q s' lt _.
                    require-Parses (arm q) _ (k.expr (arm q) s' (omega (arith, h, lt)))
                      λ e r s'' lt' w.
                        require-Parses r _ (token-Parses r z s'' parenthesis_close (λ e. cc))
                          λ _ u s''' lt'' _. Parses.reads s''' (omega (arith, lt, lt', lt'')) w)
                  (choose-Parses p _ _ (k.proc (quiet p) s (omega (arith, h)))
                    (λ t q s' lt w. Parses.reads s' lt w) (fail-Parses p p z s)))))))
    where
      literal-Parses :
          (l : Option Literal) (q : Parser)
          → Steps source q.lexer
          → offset_of p < offset_of q
          → Parses source
              (offset_of p)
              {A = Ast}
              HasRanges
              (elim l [ none ↦ fail (arm q) p | some l ↦ ok (some (literal l, q)) ])
      literal-Parses none q s' lt = fail-Parses (arm q) p z s
      literal-Parses (some l) q s' lt = Parses.reads s' lt tt
