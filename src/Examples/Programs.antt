-- ===== src/Examples/Programs.antt =====
-- parse.cpp and desugar.cpp at short programs.
use janguage.Base.{
  List, ◌↔◌, bytes_eq, ℕ, ◌≡◌, ◌⊎◌, refl, true, false, Bytes, codes, [], ◌∷◌, ◌++◌, Option, some,
  Outcome, ok, abort, todo, arith,
}
use janguage.Token.{TokenType, Token, plus, asterisk, less_than, identifier}
use janguage.Token.{text, TokenType-discrete, binary_operator_precedence}
use janguage.StringUtil.{drop}
use janguage.Desugar.{desugar}
use janguage.Desugar.Lowered.{IsLowered}
use janguage.Ast.Kinds.{AstKind}
use janguage.MemoryPool.{MemoryPool}
use janguage.Desugar.Parsed.{Ends, desugar-parsed}
use janguage.Lexer.Scan.{
  Lexer, next, next_times, consume_sequence, is_ident, is_white, is_digit, is_hex_digit, while_next,
  skip_comment, skip_digits, skip_string,
}
use janguage.Lexer.Next.{
  emit, contains, lex_word, lex_simple, lex_string, skip_number, skip_suffix, lex_number,
  lex_comment, next_token, peek_token, lexer_at,
}
use janguage.Lexer.Steps.{Steps}
use janguage.Ast.{
  declares, declaration, module_node, procedure, takes, no_declarations, type_identifier, to_block,
  break_statement, node, Ast, literal, uint64, binary_operator, for_loop, null, to, statements, end,
  no_error,
}
use janguage.Parser.Tokens.{
  Parser, parser_error, parser_peek_token, is_comment, skip_comments, parser_next_token,
  parse_token, parse_keyword, advance,
}
use janguage.Parser.Combine.{moved, branch, choose, fail, token, keyword}
use janguage.Parser.Climbing.{Tree, Operand, Operations, Climbs}
use janguage.Parser.Climbing.Result.{parse_binary_expr-Climbs}
use janguage.Parser.Climbing.Unique.{parse_binary_expr-only}
use janguage.Parser.Escapes.{ReadsText, next_token-escape}
use janguage.Parser.Reports.{IsTerminated}
use janguage.Parser.Safe.Modules.{parse_statement-Parses, parse_module_source-returns}
use janguage.Parser.Literals.{
  FloatLibrary, number_literal_value, from_chars, read_digits, digit_value,
}
use janguage.Parser.Grammar.{
  parse_statement, parse_module_source, parse_module, parse_declarations, is_range_operator,
  parse_binary_expr,
}
use janguage.Parser.Ranges.{HasRanges}
use janguage.Parser.Outcomes.{Parses}

-- A program without floating point numbers needs nothing of the library.
abbrev no_floats : FloatLibrary
no_floats = record {
  strtof = λ _. (0, 0);
  strtod = λ _. (0, 0);
  is_nan_float = λ _. false;
  is_nan_double = λ _. false;
}

abbrev number : ℕ → Ast
number n = literal (record { suffix = 0; value = uint64 n })

abbrev sum_text : Bytes
sum_text = codes "1+2*3)" ++ 0 ∷ []

abbrev at_sum : Parser
at_sum = record { lexer = lexer_at sum_text; armed = false }

abbrev sum : Ast
sum = binary_operator plus (number 1) (binary_operator asterisk (number 2) (number 3))

abbrev sum_result : Outcome (Option (Ast × Parser))
sum_result = parse_binary_expr no_floats 12 at_sum 0

-- The closing parenthesis is left to the caller.
abbrev behind_sum : Parser
behind_sum = record {
  lexer = record {
    source = sum_text;
    cursor = record { rest = codes ")" ++ 0 ∷ []; offset = 5; line = 0; line_offset = 5 };
  };
  armed = true;
}

sum_run : parse_binary_expr no_floats 12 at_sum 0 ≡ ok (some (sum, behind_sum))
unfolding parse_binary_expr choose moved branch fail token keyword parse_token parse_keyword advance
    parser_error parser_peek_token peek_token number_literal_value from_chars read_digits
    digit_value binary_operator_precedence parser_next_token skip_comments is_comment next_token
    lex_comment lex_number skip_suffix skip_number lex_string lex_simple lex_word emit skip_string
    skip_digits skip_comment while_next is_hex_digit is_digit is_white is_ident consume_sequence
    next_times next bytes_eq text TokenType-discrete
sum_run = refl

parse_binary_expr-Climbs_example : Climbs no_floats at_sum 0 sum behind_sum
parse_binary_expr-Climbs_example =
    parse_binary_expr-Climbs no_floats 12 at_sum 0 sum behind_sum sum_run

parse_binary_expr-only_example :
    (first : Ast) × (middle : Parser) × (ops : List (TokenType × Ast)) × Operand no_floats at_sum
      first middle
    × Operations no_floats middle ops behind_sum
    × ((e : Ast) → Tree first e ops ↔ (e ≡ sum))
parse_binary_expr-only_example = parse_binary_expr-only no_floats 12 at_sum 0 sum behind_sum sum_run

abbrev loop_text : Bytes
loop_text = codes "f := proc() i32 for i 0:< 9 break" ++ 0 ∷ []

loop_text-IsTerminated : IsTerminated loop_text
loop_text-IsTerminated = (codes "f := proc() i32 for i 0:< 9 break", refl)

parse_module_source-returns_example :
    ((m : Option Ast) × (parse_module_source no_floats loop_text ≡ ok m)
      × ((a : Ast) → m ≡ some a → HasRanges a))
    ⊎ (parse_module_source no_floats loop_text ≡ abort todo)
parse_module_source-returns_example = parse_module_source-returns no_floats loop_text-IsTerminated

abbrev at_loop : Parser
at_loop = record { lexer = lexer_at loop_text; armed = false }

parse_statement-Parses_example :
    Parses loop_text 0 HasRanges (parse_statement no_floats 900 at_loop)
parse_statement-Parses_example =
    parse_statement-Parses no_floats loop_text-IsTerminated 900 at_loop Steps.begun (omega arith)

abbrev at_text : Lexer
at_text = lexer_at (codes "\"say \\\"a\\\\b\\\"\" + 1")

next_token-escape_example : ReadsText at_text (codes "say \"a\\b\"") (codes " + 1")
next_token-escape_example =
    next_token-escape at_text (codes "say \"a\\b\"") (codes " + 1")
      (refl, (refl, (refl, (refl, (refl, (refl, (refl, (refl, (refl, tt))))))))) refl refl

abbrev word_at : ℕ → ℕ → Token
word_at offset size = record {
  type = identifier;
  pos = record { rest = drop offset loop_text; offset = offset; line = 0; line_offset = offset };
  length = size;
}

-- The program of `loop_text`: its procedure has a statement as its body.
abbrev loop_module : Ast
loop_module =
    let loop : Ast =
      for_loop (word_at 20 1) (to (number 0)) less_than (number 9) null
        (statements (node break_statement end) no_error) in
    let proc : Ast =
      procedure (takes no_declarations false (type_identifier (word_at 12 3)))
        (to_block (statements (node loop end) no_error)) false in
    module_node
      (statements (node (declaration (declares (word_at 0 1) null (to proc) false)) end) no_error)

loop_run : parse_module_source no_floats loop_text ≡ ok (some loop_module)
unfolding parse_module_source parse_module parse_declarations parse_binary_expr choose moved branch
    fail token keyword parse_token parse_keyword advance parser_error parser_peek_token peek_token
    number_literal_value from_chars read_digits digit_value binary_operator_precedence
    parser_next_token skip_comments is_comment next_token lex_comment lex_number skip_suffix
    skip_number lex_string lex_simple lex_word emit contains skip_string skip_digits skip_comment
    while_next is_hex_digit is_digit is_white is_ident consume_sequence next_times next bytes_eq
    text TokenType-discrete is_range_operator
loop_run = refl

abbrev sizes : AstKind → ℕ
sizes _ = 8

abbrev room : MemoryPool
room = record { capacity = 1000; memory_start = 4096; cursor = 4096 }

desugar-parsed_example : Ends sizes room IsLowered (desugar sizes loop_module room)
desugar-parsed_example =
    desugar-parsed no_floats sizes loop_text loop_module room loop_text-IsTerminated loop_run
