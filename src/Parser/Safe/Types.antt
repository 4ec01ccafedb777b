-- ===== src/Parser/Safe/Types.antt =====
-- parse.cpp 441-535 and 850-946: signatures, procedures, types and declarations.
use janguage.Base.{ℕ, suc, ◌<◌, Bool, true, false, Bytes, ok, ◌>>◌, arith, some, codes}
use janguage.Token.{
  Token, identifier, asterisk, bracket_open, bracket_close, parenthesis_open, parenthesis_close,
  triple_dot, comma, colon, assign,
}
use janguage.Lexer.Steps.{Steps}
use janguage.Ast.{
  Declarations, no_declarations, push_declaration, Pointer, null, to, no_error, Declaration,
  declares,
}
use janguage.Parser.Tokens.{Parser, arm, quiet, parser_error}
use janguage.Parser.Literals.{FloatLibrary}
use janguage.Parser.Grammar.{
  as_argument, parse_proc_signature, parse_arguments, parse_return_type, parse_proc, parse_type,
  parse_decl, parse_init,
}
use janguage.Parser.Ranges.{
  HasRanges, HasRangesPointer, HasRangesDeclaration, HasRangesDeclarations, HasRangesSignature,
  push_declaration-HasRanges,
}
use janguage.Parser.Reports.{IsTerminated}
use janguage.Parser.Goes.{offset_of}
use janguage.Parser.Outcomes.{
  Parses, Parses-from, Enough, choose-Parses, require-Parses, fail-Parses, error-Parses,
  token-Parses, keyword-Parses,
}
use janguage.Parser.Safe.{Reached, Safely, Safe}

module _ {lib : FloatLibrary} {source : Bytes} (z : IsTerminated source) {f : ℕ}
    (k : Safe lib source f) where
  pub decl-Safely : Safely HasRangesDeclaration source 1 (suc f) (parse_decl lib (suc f))
  unfolding parse_decl HasRanges
  decl-Safely p s h = require-Parses p _ (token-Parses p z s identifier (λ e. cc)) λ id q s' lt _.
      require-Parses q _ (token-Parses q z s' colon (λ e. cc)) λ _ r s'' lt' _.
        choose-Parses (arm r) _ _ (k.type (quiet r) s'' (omega (arith, h, lt, lt')))
          (λ type u s''' lt'' w.
            k.init (offset_of p) p id (to type) u w s s''' (omega (arith, lt, lt', lt''))
              (omega (arith, h, lt, lt', lt'')))
          (k.init (offset_of p) p id null (arm r) tt s s'' (omega (arith, lt, lt'))
            (omega (arith, h, lt, lt')))

  pub signature-Safely :
      Safely HasRangesSignature source 1 (suc f) (parse_proc_signature lib (suc f))
  unfolding parse_proc_signature HasRanges
  signature-Safely p s h =
      require-Parses p _ (keyword-Parses (quiet p) z s (codes "proc")) λ _ q s' lt _.
        require-Parses (arm q) _ (token-Parses (arm q) z s' parenthesis_open (λ e. cc))
          λ _ r s'' lt' _.
            Parses-from (omega (arith, lt, lt'))
              (k.arguments p no_declarations false false tt s r s'' (omega (arith, h, lt, lt')))

  module _ (start : Parser) (args : Declarations) (is_vararg : Bool)
      (ws : HasRangesDeclarations args) (reached : Reached source start) where
    pub return_type-Safely :
        Safely HasRangesSignature source 3
          (suc f)
          (λ p. parse_return_type lib (suc f) start p args is_vararg)
    unfolding parse_return_type HasRanges
    return_type-Safely p s h =
        choose-Parses p _ _ (k.type p s (omega (arith, h)))
          (λ type q s' lt _. Parses.reads s' lt ws) (fail-Parses p start z reached)

    pub arguments-Safely :
        (require_close : Bool)
        → Safely HasRangesSignature source 2
            (suc f)
            (λ p. parse_arguments lib (suc f) start p args is_vararg require_close)
    unfolding parse_arguments
    arguments-Safely true p s h =
        require-Parses p _ (token-Parses p z s parenthesis_close (λ e. cc)) λ _ q s' lt _.
          Parses-from (omega (arith, lt))
            (k.return_type start args is_vararg ws reached q s' (omega (arith, h, lt)))
    arguments-Safely false p s h =
        choose-Parses p _ _ (token-Parses (quiet p) z s parenthesis_close (λ e. cc))
          (λ _ q s' lt _.
            Parses-from (omega (arith, lt))
              (k.return_type start args is_vararg ws reached q s' (omega (arith, h, lt))))
          (choose-Parses p _ _ (token-Parses (quiet p) z s triple_dot (λ e. cc))
            (λ _ q s' lt _.
              Parses-from (omega (arith, lt))
                (k.arguments start args true true ws reached q s' (omega (arith, h, lt))))
            (require-Parses p _ (k.decl p s (omega (arith, h))) λ arg q s' lt v.
              let ws' = push_declaration-HasRanges args arg ws v in
              let args' = push_declaration args (as_argument arg) in
              choose-Parses q _ _ (token-Parses (quiet q) z s' comma (λ e. cc))
                (λ _ r s'' lt' _. Parses-from (omega (arith, lt, lt')) (
                  k.arguments start args' is_vararg false ws' reached r s''
                    (omega (arith, h, lt, lt'))))
                (Parses-from (omega (arith, lt)) (
                  k.arguments start args' is_vararg true ws' reached q s' (omega (arith, h, lt))))))

  pub proc-Safely : Safely HasRanges source 2 (suc f) (parse_proc lib (suc f))
  unfolding parse_proc HasRanges
  proc-Safely p s h =
      require-Parses p _ (k.signature (quiet p) s (omega (arith, h))) λ signature q s' lt w.
        choose-Parses (arm q) _ _ (keyword-Parses (quiet q) z s' (codes "external"))
          (λ _ r s'' lt' _. Parses.reads s'' (omega (arith, lt, lt')) (w, tt))
          (require-Parses (arm q) _ (k.raw_block no_error (arm q) s' (omega (arith, h, lt)))
            λ body r s'' lt' v. Parses.reads s'' (omega (arith, lt, lt')) (w, v))

  pub type-Safely : Safely HasRanges source 2 (suc f) (parse_type lib (suc f))
  unfolding parse_type HasRanges
  type-Safely p s h =
      choose-Parses p _ _ (token-Parses (quiet p) z s identifier (λ e. cc))
        (λ t q s' lt _. Parses.reads s' lt tt)
        (choose-Parses p _ _ (token-Parses (quiet p) z s asterisk (λ e. cc))
          (λ _ q s' lt _.
            require-Parses q _ (k.type q s' (omega (arith, h, lt)))
              λ target r s'' lt' w. Parses.reads s'' (omega (arith, lt, lt')) w)
          (choose-Parses p _ _ (token-Parses (quiet p) z s bracket_open (λ e. cc))
            (λ _ q s' lt _.
              require-Parses q _ (k.expr q s' (omega (arith, h, lt))) λ size r s'' lt' _.
                require-Parses r _ (token-Parses r z s'' bracket_close (λ e. cc)) λ _ u s3 l3 _.
                  require-Parses u _ (k.type u s3 (omega (arith, h, lt, lt', l3)))
                    λ element v s4 l4 _. Parses.reads s4 (omega (arith, lt, lt', l3, l4)) tt)
            (choose-Parses p _ _ (k.signature (quiet p) s (omega (arith, h)))
              (λ signature q s' lt w. Parses.reads s' lt w) (fail-Parses p p z s))))

  pub init-Safely :
      (from : ℕ) (start : Parser) (id : Token) (type : Pointer) (p : Parser)
      → HasRangesPointer type
      → Reached source start
      → Steps source p.lexer
      → from < offset_of p
      → Enough source (suc f) 1 p
      → Parses source from HasRangesDeclaration (parse_init lib (suc f) start id type p)
  unfolding parse_init HasRanges
  init-Safely from start id type p w reached s lt h =
      choose-Parses p _ _ (token-Parses (quiet p) z s assign (λ e. cc))
        (λ _ q s' lt' _.
          require-Parses q _ (k.expr q s' (omega (arith, h, lt')))
            λ init r s'' l3 v. Parses.reads s'' (omega (arith, lt, lt', l3)) (w, v))
        (last type w)
    where
      last :
          (type : Pointer)
          → HasRangesPointer type
          → Parses source from {A = Declaration} HasRangesDeclaration (elim type [
            | to t ↦ ok (some (declares id (to t) null false, p))
            | null ↦ parser_error p start >> ok (some (declares id null null false, p))
          ])
      last null w = error-Parses p start z reached (Parses.reads s lt (tt, tt))
      last (to t) w = Parses.reads s lt (w, tt)
