-- ===== src/Parser/Grammar.antt =====
-- parse.cpp: the parse functions. They call each other at places of the source that they have moved
-- on to, so each call costs a unit of fuel; `parse_module_source` gives enough. `start` is the
-- parser that a function is given; `p` is the local one, which shadows itself as the code assigns it.
use janguage.Base.{
  ℕ, zero, suc, ◌+◌, ◌-◌, ◌*◌, Bool, true, false, ◌||◌, Bytes, codes, bytes_eq, Option, none, some,
  ltb, leb, ◌==◌, length, take, Outcome, ok, abort, out_of_fuel, ◌>>=◌, ◌>>◌, assert,
}
use janguage.Token.{
  TokenType, Token, text, binary_operator_precedence, assign, asterisk, less_than,
  less_than_or_equal, greater_than, greater_than_or_equal, colon, comma, triple_dot,
  parenthesis_open, parenthesis_close, brace_open, brace_close, bracket_open, bracket_close,
  identifier, number_literal, string_literal, eof,
}
use janguage.Lexer.Next.{lexer_at}
use janguage.StringUtil.{drop}
use janguage.Ast.{
  CompilerErrorKind, no_error, declaration_error, typecheck_error, bool, Ast, type_identifier,
  pointer_type, array_type, declaration, binary_operator, label, goto_statement, literal,
  procedure_signature, block, if_statement, while_loop, for_loop, break_statement,
  continue_statement, return_statement, procedure, procedure_call, module_node, Pointer, null, to,
  Nodes, end, node, Block, statements, no_block, to_block, Declaration, declares, Declarations,
  no_declarations, Signature, takes, push_node, push_declaration,
}
use janguage.Parser.Tokens.{Parser, arm, quiet, parser_error, parser_peek_token, parser_next_token}
use janguage.Parser.Literals.{FloatLibrary, number_literal_value, string_literal_value}
use janguage.Parser.Combine.{Parsed, choose, require, fail, token, keyword}

-- The comparison operators of a `for` loop.
unfoldable pub is_range_operator : TokenType → Bool
is_range_operator less_than = true
is_range_operator less_than_or_equal = true
is_range_operator greater_than = true
is_range_operator greater_than_or_equal = true
is_range_operator _ = false

-- The mode of an `__error` block.
unfoldable pub error_kind : Bytes → Option CompilerErrorKind
error_kind mode = elim (bytes_eq mode (codes "declaration")) [
  | true ↦ some declaration_error
  | false ↦ elim (bytes_eq mode (codes "typecheck")) [ true ↦ some typecheck_error | false ↦ none ]
]

abbrev pub as_argument : Declaration → Declaration
as_argument (declares id type init _) = declares id type init true

abbrev boolean_literal : Bool → Ast
boolean_literal b = literal (record { suffix = 0; value = bool b })

abbrev pub is_eof_type : TokenType → Bool
is_eof_type eof = true
is_eof_type _ = false

module _ (lib : FloatLibrary) where
  unfoldable mutual
    pub parse_statement : ℕ → Parser → Parsed Ast
    parse_statement zero start = abort out_of_fuel
    parse_statement (suc f) start =
        choose start (parse_decl f (quiet start)) (λ d p. ok (some (declaration d, p)))
          λ _.
            choose start (keyword (quiet start) (codes "if")) (λ _ p. parse_if f (arm p))
              λ _.
                choose start (keyword (quiet start) (codes "while")) (λ _ p. parse_while f (arm p))
                  λ _.
                    choose start (keyword (quiet start) (codes "for"))
                      (λ _ p. parse_for f start (arm p))
                      λ _.
                        choose start (keyword (quiet start) (codes "break"))
                          (λ _ p. ok (some (break_statement, p)))
                          λ _.
                            choose start (keyword (quiet start) (codes "continue"))
                              (λ _ p. ok (some (continue_statement, p)))
                              λ _.
                                choose start (keyword (quiet start) (codes "return"))
                                  (λ _ p. parse_return f (arm p))
                                  λ _.
                                    choose start (token (quiet start) colon)
                                      (λ _ p.
                                        require (arm p) (token (arm p) identifier)
                                          λ id p. ok (some (label (text id), p)))
                                      λ _.
                                        choose start (keyword (quiet start) (codes "goto"))
                                          (λ _ p.
                                            require (arm p) (token (arm p) identifier)
                                              λ id p. ok (some (goto_statement (text id), p)))
                                          λ _.
                                            choose start
                                              (parse_block f (quiet start) no_error false)
                                              (λ b p. ok (some (block b, p)))
                                              λ _.
                                                choose start
                                                  (parse_compiler_error_block f (quiet start))
                                                  (λ b p. ok (some (block b, p)))
                                                  λ _.
                                                    choose start (parse_expr f (quiet start))
                                                      (λ e p. ok (some (e, p)))
                                                      λ _. fail start start

    pub parse_if : ℕ → Parser → Parsed Ast
    parse_if zero p = abort out_of_fuel
    parse_if (suc f) p = require p (parse_expr f p) λ condition p.
        require p (parse_block f p no_error true) λ then_block p.
          choose p (keyword (quiet p) (codes "else"))
            (λ _ p. require p (parse_block f p no_error true) λ else_block p.
              ok (some (if_statement condition then_block (to_block else_block), p)))
            λ _. ok (some (if_statement condition then_block no_block, p))

    pub parse_while : ℕ → Parser → Parsed Ast
    parse_while zero p = abort out_of_fuel
    parse_while (suc f) p = require p (parse_expr f p) λ condition p.
        require p (parse_block f p no_error true) λ b p. ok (some (while_loop condition b null, p))

    pub parse_for : ℕ → Parser → Parser → Parsed Ast
    parse_for zero start p = abort out_of_fuel
    parse_for (suc f) start p = require p (token p identifier) λ id p.
        choose p (token (quiet p) colon) (λ _ p. parse_range f start id null p)
          λ _. require p (parse_expr f p) λ range_begin p. parse_range f start id (to range_begin) p

    -- A `for` loop from behind the begin of its range on.
    pub parse_range : ℕ → Parser → Token → Pointer → Parser → Parsed Ast
    parse_range zero start id range_begin p = abort out_of_fuel
    parse_range (suc f) start id range_begin p = require p (token p colon) λ _ p.
        parser_next_token p >>= λ (comparison, p). elim (is_range_operator comparison.type) [
          | false ↦ fail p start
          | true ↦ require p (parse_expr f p) λ range_end p.
              choose p (token (quiet p) colon)
                (λ _ p. require p (parse_expr f p) λ step p.
                  require p (parse_block f p no_error true) λ b p.
                    ok (some (for_loop id range_begin comparison.type range_end (to step) b, p)))
                λ _.
                  require p (parse_block f p no_error true)
                    λ b p. ok (some (for_loop id range_begin comparison.type range_end null b, p))
        ]

    pub parse_return : ℕ → Parser → Parsed Ast
    parse_return zero p = abort out_of_fuel
    parse_return (suc f) p =
        choose p (parse_expr f (quiet p)) (λ e p. ok (some (return_statement (to e), p)))
          λ _. ok (some (return_statement null, p))

    pub parse_block : ℕ → Parser → CompilerErrorKind → Bool → Parsed Block
    parse_block zero start kind allow_raw_statement = abort out_of_fuel
    parse_block (suc f) start kind allow_raw_statement =
        choose start (token (quiet start) brace_open) (λ _ p. parse_statements f kind end (arm p))
          λ _. elim allow_raw_statement [
            | true ↦
                require start (parse_statement f start)
                  λ s p. ok (some (statements (node s end) kind, p))
            | false ↦ ok none
          ]

    -- The loop of `parse_block`.
    pub parse_statements : ℕ → CompilerErrorKind → Nodes → Parser → Parsed Block
    parse_statements zero kind done p = abort out_of_fuel
    parse_statements (suc f) kind done p =
        choose p (token (quiet p) brace_close) (λ _ p. ok (some (statements done kind, p)))
          λ _. require p (parse_statement f p) λ s p. parse_statements f kind (push_node done s) p

    pub parse_compiler_error_block : ℕ → Parser → Parsed Block
    parse_compiler_error_block zero start = abort out_of_fuel
    parse_compiler_error_block (suc f) start =
        require start (token (quiet start) identifier) λ id p.
          elim (bytes_eq (text id) (codes "__error")) [
            | false ↦ ok none
            | true ↦ require (arm p) (token (quiet p) parenthesis_open) λ _ p.
                require p (token (quiet p) string_literal) λ mode p.
                  assert (leb 2 mode.length)
                  >> elim (error_kind (take (mode.length - 2) (drop 1 (text mode)))) [
                    | none ↦ fail p start
                    | some kind ↦
                        require p (token (quiet p) parenthesis_close)
                          λ _ p. require p (parse_block f p kind false) λ b p. ok (some (b, p))
                  ]
          ]

    pub parse_proc_signature : ℕ → Parser → Parsed Signature
    parse_proc_signature zero start = abort out_of_fuel
    parse_proc_signature (suc f) start = require start (keyword (quiet start) (codes "proc")) λ _ p.
        require (arm p) (token (arm p) parenthesis_open)
          λ _ p. parse_arguments f start p no_declarations false false

    -- The loop of `parse_proc_signature`, and what follows it.
    pub parse_arguments : ℕ → Parser → Parser → Declarations → Bool → Bool → Parsed Signature
    parse_arguments zero start p args is_vararg require_close = abort out_of_fuel
    parse_arguments (suc f) start p args is_vararg true =
        require p (token p parenthesis_close) λ _ p. parse_return_type f start p args is_vararg
    parse_arguments (suc f) start p args is_vararg false =
        choose p (token (quiet p) parenthesis_close)
          (λ _ p. parse_return_type f start p args is_vararg)
          λ _.
            choose p (token (quiet p) triple_dot) (λ _ p. parse_arguments f start p args true true)
              λ _. require p (parse_decl f p) λ arg p.
                choose p (token (quiet p) comma)
                  (λ _ p.
                    parse_arguments f start p (push_declaration args (as_argument arg)) is_vararg
                      false)
                  λ _.
                    parse_arguments f start p (push_declaration args (as_argument arg)) is_vararg
                      true

    pub parse_return_type : ℕ → Parser → Parser → Declarations → Bool → Parsed Signature
    parse_return_type zero start p args is_vararg = abort out_of_fuel
    parse_return_type (suc f) start p args is_vararg =
        choose p (parse_type f p) (λ type p. ok (some (takes args is_vararg type, p)))
          λ _. fail p start

    pub parse_proc : ℕ → Parser → Parsed Ast
    parse_proc zero start = abort out_of_fuel
    parse_proc (suc f) start = require start (parse_proc_signature f (quiet start)) λ signature p.
        choose (arm p) (keyword (quiet p) (codes "external"))
          (λ _ p. ok (some (procedure signature no_block true, p)))
          λ _.
            require (arm p) (parse_block f (arm p) no_error true)
              λ body p. ok (some (procedure signature (to_block body) false, p))

    pub parse_primary_expr : ℕ → Parser → Parsed Ast
    parse_primary_expr zero start = abort out_of_fuel
    parse_primary_expr (suc f) start =
        choose start (token (quiet start) number_literal)
          (λ t p. assert (ltb 0 t.length) >> elim (number_literal_value lib t) [
            | none ↦ fail (arm p) start
            | some l ↦ ok (some (literal l, p))
          ])
          λ _.
            choose start (token (quiet start) string_literal)
              (λ t p. assert (leb 2 t.length) >> elim (string_literal_value t) [
                | none ↦ fail (arm p) start
                | some l ↦ ok (some (literal l, p))
              ])
              λ _.
                choose start (token (quiet start) identifier)
                  (λ t p. ok (some (Ast.identifier t, p)))
                  λ _.
                    choose start (keyword (quiet start) (codes "true"))
                      (λ _ p. ok (some (boolean_literal true, p)))
                      λ _.
                        choose start (keyword (quiet start) (codes "false"))
                          (λ _ p. ok (some (boolean_literal false, p)))
                          λ _.
                            choose start (token (quiet start) parenthesis_open)
                              (λ _ p. require (arm p) (parse_expr f (arm p)) λ e p.
                                require p (token p parenthesis_close) λ _ p. ok (some (e, p)))
                              λ _.
                                choose start (parse_proc f (quiet start))
                                  (λ proc p. ok (some (proc, p))) λ _. fail start start

    pub parse_expression_suffix : ℕ → Parser → Ast → Parsed Ast
    parse_expression_suffix zero start lhs = abort out_of_fuel
    parse_expression_suffix (suc f) start lhs =
        choose start (token (quiet start) parenthesis_open)
          (λ _ p. parse_call f lhs (arm p) end false) λ _. fail start start

    -- The loop of `parse_expression_suffix`, and what follows it.
    pub parse_call : ℕ → Ast → Parser → Nodes → Bool → Parsed Ast
    parse_call zero lhs p args require_close = abort out_of_fuel
    parse_call (suc f) lhs p args true =
        require p (token p parenthesis_close) λ _ p. ok (some (procedure_call lhs args, p))
    parse_call (suc f) lhs p args false =
        choose p (token (quiet p) parenthesis_close) (λ _ p. ok (some (procedure_call lhs args, p)))
          λ _. require p (parse_expr f p) λ arg p.
            choose p (token (quiet p) comma) (λ _ p. parse_call f lhs p (push_node args arg) false)
              λ _. parse_call f lhs p (push_node args arg) true

    pub parse_binary_expr : ℕ → Parser → ℕ → Parsed Ast
    parse_binary_expr zero start prev_prec = abort out_of_fuel
    parse_binary_expr (suc f) start prev_prec = require start (parse_primary_expr f start) λ lhs p.
        choose p (parse_expression_suffix f (quiet p) lhs)
          (λ call p. parse_operators f call p prev_prec) λ _. parse_operators f lhs p prev_prec

    -- The loop of `parse_binary_expr`.
    pub parse_operators : ℕ → Ast → Parser → ℕ → Parsed Ast
    parse_operators zero lhs p prev_prec = abort out_of_fuel
    parse_operators (suc f) lhs p prev_prec = parser_peek_token p >>= λ op.
        let prec = binary_operator_precedence op.type in
        elim (prec == 0 || leb prec prev_prec) [
          | true ↦ ok (some (lhs, p))
          | false ↦ parser_next_token p >>= λ (_, p).
              require (arm p) (parse_binary_expr f (arm p) prec)
                λ rhs p. parse_operators f (binary_operator op.type lhs rhs) p prev_prec
        ]

    -- The code passes -1 on, which no operator's precedence is below either.
    pub parse_expr : ℕ → Parser → Parsed Ast
    parse_expr zero start = abort out_of_fuel
    parse_expr (suc f) start = parse_binary_expr f start 0

    pub parse_type : ℕ → Parser → Parsed Ast
    parse_type zero start = abort out_of_fuel
    parse_type (suc f) start =
        choose start (token (quiet start) identifier) (λ t p. ok (some (type_identifier t, p)))
          λ _.
            choose start (token (quiet start) asterisk)
              (λ _ p. require p (parse_type f p) λ target p. ok (some (pointer_type target, p)))
              λ _.
                choose start (token (quiet start) bracket_open)
                  (λ _ p. require p (parse_expr f p) λ size p.
                    require p (token p bracket_close) λ _ p.
                      require p (parse_type f p)
                        λ element p. ok (some (array_type size element, p)))
                  λ _.
                    choose start (parse_proc_signature f (quiet start))
                      (λ signature p. ok (some (procedure_signature signature, p)))
                      λ _. fail start start

    pub parse_decl : ℕ → Parser → Parsed Declaration
    parse_decl zero start = abort out_of_fuel
    parse_decl (suc f) start = require start (token start identifier) λ id p.
        require p (token p colon) λ _ p.
          choose (arm p) (parse_type f (quiet p)) (λ type p. parse_init f start id (to type) p)
            λ _. parse_init f start id null (arm p)

    -- `parse_decl` from behind the type on. That there is neither a type nor an init expression is
    -- only printed.
    pub parse_init : ℕ → Parser → Token → Pointer → Parser → Parsed Declaration
    parse_init zero start id type p = abort out_of_fuel
    parse_init (suc f) start id type p =
        choose p (token (quiet p) assign)
          (λ _ p.
            require p (parse_expr f p) λ init p. ok (some (declares id type (to init) false, p)))
          λ _. elim type [
            | to t ↦ ok (some (declares id (to t) null false, p))
            | null ↦ parser_error p start >> ok (some (declares id null null false, p))
          ]

  -- The loop of `parse_module`.
  unfoldable pub parse_declarations : ℕ → Nodes → Parser → Parsed Ast
  parse_declarations zero done p = abort out_of_fuel
  parse_declarations (suc f) done p = require p (parse_decl f p) λ d p.
      parser_peek_token p >>= λ next. elim (is_eof_type next.type) [
        | true ↦ ok (some (module_node (statements (push_node done (declaration d)) no_error), p))
        | false ↦ parse_declarations f (push_node done (declaration d)) p
      ]

  -- `parse_module` on a parser.
  unfoldable pub parse_module : ℕ → Parser → Parsed Ast
  parse_module fuel p = parse_declarations fuel end (arm p)

  -- `parse_module` on a source, with the fuel that suffices; `none` is a null pointer.
  unfoldable pub parse_module_source : Bytes → Outcome (Option Ast)
  parse_module_source source =
      let p : Parser = record { lexer = lexer_at source; armed = false } in
      choose p (parse_module (20 * length source + 20) p) (λ m p. ok (some (m, p))) (λ _. ok none)
      >>= λ r. ok (elim r [ none ↦ none | some (m, _) ↦ some m ])
