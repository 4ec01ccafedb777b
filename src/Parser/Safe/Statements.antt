-- ===== src/Parser/Safe/Statements.antt =====
-- parse.cpp 134-439: the statements and the blocks.
use janguage.Base.{
  ℕ, suc, ◌-◌, ◌<◌, ◌≡◌, ◌≢◌, leb, refl, inl, inr, true, false, Bool-cases, Option-cases, Bytes,
  bytes_eq, take, arith, codes,
}
use janguage.Token.{
  TokenType, Token, text, eof, identifier, colon, brace_open, brace_close, parenthesis_open,
  parenthesis_close, string_literal,
}
use janguage.StringUtil.{drop}
use janguage.Lexer.Steps.{Steps}
use janguage.Ast.{CompilerErrorKind, no_error, Nodes, end, push_node, Pointer, null, to}
use janguage.Parser.Tokens.{Parser, arm, quiet}
use janguage.Parser.Literals.{FloatLibrary}
use janguage.Parser.Grammar.{
  is_range_operator, error_kind, parse_if, parse_while, parse_for, parse_range, parse_return,
  parse_block, parse_statements, parse_compiler_error_block,
}
use janguage.Parser.Ranges.{
  HasRanges, HasRangesPointer, HasRangesNodes, HasRangesBlock, push_node-HasRanges,
}
use janguage.Parser.Reports.{IsTerminated}
use janguage.Parser.Goes.{offset_of}
use janguage.Parser.Outcomes.{
  Parses, Parses-from, Enough, choose-Parses, require-Parses, fail-Parses, assert-Parses,
  next-Parses, token-Parses, keyword-Parses,
}
use janguage.Parser.Safe.{Reached, Safely, Safe}

range-ne-eof : (t : TokenType) → is_range_operator t ≡ true → t ≢ eof
unfolding is_range_operator
range-ne-eof t h = ground arith

module _ {lib : FloatLibrary} {source : Bytes} (z : IsTerminated source) {f : ℕ}
    (k : Safe lib source f) where
  pub if-Safely : Safely HasRanges source 6 (suc f) (parse_if lib (suc f))
  unfolding parse_if HasRanges
  if-Safely p s h = require-Parses p _ (k.expr p s (omega (arith, h))) λ condition q s' lt c.
      require-Parses q _ (k.raw_block no_error q s' (omega (arith, h, lt)))
        λ then_block r s'' lt' t.
          choose-Parses r _ _ (keyword-Parses (quiet r) z s'' (codes "else"))
            (λ _ u s3 l3 _.
              require-Parses u _ (k.raw_block no_error u s3 (omega (arith, h, lt, lt', l3)))
                λ _ v s4 l4 e. Parses.reads s4 (omega (arith, lt, lt', l3, l4)) (c, (t, e)))
            (Parses.reads s'' (omega (arith, lt, lt')) (c, (t, tt)))

  pub while-Safely : Safely HasRanges source 6 (suc f) (parse_while lib (suc f))
  unfolding parse_while HasRanges
  while-Safely p s h = require-Parses p _ (k.expr p s (omega (arith, h))) λ condition q s' lt c.
      require-Parses q _ (k.raw_block no_error q s' (omega (arith, h, lt)))
        λ b r s'' lt' w. Parses.reads s'' (omega (arith, lt, lt')) (c, w)

  pub return-Safely :
      (from : ℕ) (p : Parser)
      → Steps source p.lexer
      → from < offset_of p
      → Enough source (suc f) 6 p
      → Parses source from HasRanges (parse_return lib (suc f) p)
  unfolding parse_return HasRanges
  return-Safely from p s lt h =
      choose-Parses p _ _ (k.expr (quiet p) s (omega (arith, h)))
        (λ e q s' lt' w. Parses.reads s' (omega (arith, lt, lt')) w) (Parses.reads s lt tt)

  module _ (start : Parser) (reached : Reached source start) where
    pub for-Safely : Safely HasRanges source 1 (suc f) (parse_for lib (suc f) start)
    unfolding parse_for HasRanges
    for-Safely p s h = require-Parses p _ (token-Parses p z s identifier (λ e. cc)) λ id q s' lt _.
        choose-Parses q _ _ (token-Parses (quiet q) z s' colon (λ e. cc))
          (λ _ r s'' lt' _.
            Parses-from (omega (arith, lt, lt'))
              (k.range start id null tt reached r s'' (omega (arith, h, lt, lt'))))
          (require-Parses q _ (k.expr q s' (omega (arith, h, lt))) λ range_begin r s'' lt' w.
            Parses-from (omega (arith, lt, lt'))
              (k.range start id (to range_begin) w reached r s'' (omega (arith, h, lt, lt'))))

    pub range-Safely :
        (id : Token) (range_begin : Pointer)
        → HasRangesPointer range_begin
        → Safely HasRanges source 1 (suc f) (λ p. parse_range lib (suc f) start id range_begin p)
    unfolding parse_range HasRanges
    range-Safely id range_begin wr p s h =
        require-Parses p _ (token-Parses p z s colon (λ e. cc)) λ _ q s' lt _.
          next-Parses q _ s' λ comparison r g.
            elim (Bool-cases (is_range_operator comparison.type)) [
              | inr b ↦ rw b (fail-Parses r start z reached)
              | inl b ↦ rw b (
                  require-Parses r _ (k.expr r g.reached (omega (arith, h, lt, g.forward)))
                    λ range_end u s3 l3 we.
                      choose-Parses u _ _ (token-Parses (quiet u) z s3 colon (λ e. cc))
                        (λ _ v s4 l4 _.
                          require-Parses v _ (k.expr v s4 (omega (arith, h, lt, g.forward, l3, l4)))
                            λ step w s5 l5 _.
                              require-Parses w _
                                (k.raw_block no_error w s5
                                  (omega (arith, h, lt, g.forward, l3, l4, l5)))
                                λ body x s6 l6 wb.
                                  Parses.reads s6 (omega (arith, lt, g.forward, l3, l4, l5, l6))
                                    (b, (wr, (we, wb))))
                        (require-Parses u _
                          (k.raw_block no_error u s3 (omega (arith, h, lt, g.forward, l3)))
                          λ body v s4 l4 wb.
                            Parses.reads s4 (omega (arith, lt, g.forward, l3, l4))
                              (b, (wr, (we, wb)))))
            ]

  pub block-Safely :
      (kind : CompilerErrorKind)
      → Safely HasRangesBlock source 1 (suc f) (λ p. parse_block lib (suc f) p kind false)
  unfolding parse_block HasRanges
  block-Safely kind p s h =
      choose-Parses p _ _ (token-Parses (quiet p) z s brace_open (λ e. cc))
        (λ _ q s' lt _.
          Parses-from (omega (arith, lt))
            (k.statements kind end tt (arm q) s' (omega (arith, h, lt))))
        Parses.refuses

  pub raw_block-Safely :
      (kind : CompilerErrorKind)
      → Safely HasRangesBlock source 7 (suc f) (λ p. parse_block lib (suc f) p kind true)
  unfolding parse_block HasRanges
  raw_block-Safely kind p s h =
      choose-Parses p _ _ (token-Parses (quiet p) z s brace_open (λ e. cc))
        (λ _ q s' lt _.
          Parses-from (omega (arith, lt))
            (k.statements kind end tt (arm q) s' (omega (arith, h, lt))))
        (require-Parses p _ (k.statement p s (omega (arith, h)))
          λ statement q s' lt w. Parses.reads s' lt (w, tt))

  pub statements-Safely :
      (kind : CompilerErrorKind) (done : Nodes)
      → HasRangesNodes done
      → Safely HasRangesBlock source 7 (suc f) (λ p. parse_statements lib (suc f) kind done p)
  unfolding parse_statements HasRanges
  statements-Safely kind done ws p s h =
      choose-Parses p _ _ (token-Parses (quiet p) z s brace_close (λ e. cc))
        (λ _ q s' lt _. Parses.reads s' lt ws)
        (require-Parses p _ (k.statement p s (omega (arith, h))) λ statement q s' lt w.
          Parses-from (omega (arith, lt)) (
            k.statements kind (push_node done statement) (push_node-HasRanges done statement ws w) q
              s' (omega (arith, h, lt))))

  pub error_block-Safely :
      Safely HasRangesBlock source 1 (suc f) (parse_compiler_error_block lib (suc f))
  unfolding parse_compiler_error_block
  error_block-Safely p s h =
      require-Parses p _ (token-Parses (quiet p) z s identifier (λ e. cc)) λ id q s' lt _.
        elim (Bool-cases (bytes_eq (text id) (codes "__error"))) [
          | inr b ↦ rw b Parses.refuses
          | inl b ↦ rw b (
              require-Parses (arm q) _ (token-Parses (quiet q) z s' parenthesis_open (λ e. cc))
                λ _ r s'' lt' _.
                  require-Parses r _ (token-Parses (quiet r) z s'' string_literal (λ e. cc))
                    λ mode u s3 l3 size.
                      assert-Parses {b = leb 2 mode.length} (ground (arith, size.1 refl))
                        (elim (Option-cases
                          (error_kind (take (mode.length - 2) (drop 1 (text mode))))) [
                            | inl e ↦ rw e (fail-Parses u p z s)
                            | inr (kind, e) ↦ rw e (
                                require-Parses u _
                                  (token-Parses (quiet u) z s3 parenthesis_close (λ e. cc))
                                  λ _ v s4 l4 _.
                                    require-Parses v _
                                      (k.block kind v s4 (omega (arith, h, lt, lt', l3, l4)))
                                      λ body w s5 l5 wb.
                                        Parses.reads s5 (omega (arith, lt, lt', l3, l4, l5)) wb)
                          ]))
        ]
