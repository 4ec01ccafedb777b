-- ===== src/Lib.antt =====
-- Verification of a compiler for a small imperative language: source text is read by a lexer
-- (lex.h, lex.cpp), parsed (parse.h, parse.cpp), desugared (desugar.cpp), converted to nodes and type
-- checked (node.h, node.cpp, typecheck.h, typecheck.cpp), and compiled with LLVM (compile_ir.cpp,
-- jit.cpp). Nodes live in a memory pool (memory_pool.h, memory_pool.cpp). The parser pulls tokens
-- from the lexer; the type checker compares types, names them in its errors, and puts casts around
-- operands.
--
-- The files:
--   Base       names of the library, lists over native numbers, integers, and `Outcome`: the value
--              of a piece of code, or the way in which it stops the program (the macros of basics.h
--              FATAL, TODO and UNREACHED, a failed `assert`, a null pointer that is read, a range
--              of bytes that ends before it starts).
--   Token      lex.h: `TokenType`, `Cursor`, `Token`, `binary_operator_precedence`. A cursor's
--              `at` is the list of the bytes from it on, and its offset; the source is followed
--              by a NUL byte, as strings are.
--   Lexer      lex.cpp. Scan has the character classes, `next`, `consume_sequence` and the loops;
--              Next has `emit` and `Lexer::next_token`, one function for each group of branches,
--              in the order of the code. Reads, Skips, Comments, Strings and Numbers say what each
--              loop reads, Shape describes the text of a token of each type, Sound, Complete and
--              Munch are about `next_token`, Steps about the lexers that it leads to, and Traces
--              about the tokens of a whole source.
--   MemoryPool memory_pool.cpp. Pointers and sizes are 64-bit words, and pointers wrap around.
--   StringUtil string_util.cpp: `extract_line`. A pointer into the source is its offset.
--   Ast        parse.h: the syntax tree. A pointer that may be null, and a vector, are data types of
--              their own. Kinds has the names of the classes.
--   Parser     parse.cpp: the struct `Parser` with its methods in Tokens; `Parser::next_token` is
--              `parser_next_token` there. Comments is about it, Keywords about `parse_keyword`, and
--              Advance about the tests `p >>= p.quiet().parse_token(type)` and
--              `p >>= p.quiet().parse_keyword(word)`, which are `accept_token` and
--              `accept_keyword`. Literals has the values of number and string literals, Combine the
--              forms that the parse functions are made of, and Grammar the parse functions: a loop,
--              and what follows a branch, is a function of its own (`parse_statements` is the loop
--              of `parse_block`). The result `none` is the parser that a function was given.
--              Ranges says which operators `for` loops have, Reports is about `Parser::error`,
--              Outcomes has the postcondition of a parse function with a rule for each form, and
--              Safe and its children are about all parse functions. Climbing is about
--              `parse_binary_expr`, Escapes about string literals.
--   Desugar    desugar.cpp: `desugar`, with a function for each kind of list or pointer that it goes
--              through. It takes its nodes from a pool; a node is returned with whether it is another
--              one than the node that was given. Growth has a rule for each way to put its code
--              together, Lowered describes what it returns, Result, Same and Parsed are about it.
--   Nodes      node.h, context.cpp and `NodeConverter` of typecheck.cpp: nodes in a pool that grows, an
--              address being a place in it or a builtin type. Context has the constructors, Convert
--              `make_node`. Denotes says when nodes stand for a tree; Building, Stable, Parts,
--              Refining and Refines are about `make_node`.
--   Types      node.h and node.cpp: type nodes as trees, `Node::types_equal` and
--              `Node::type_to_string`.
--   Typecheck  typecheck.cpp: Operators has `bin_op_category`, Casts `set_inferred_type`,
--              `TypeChecker::error`, `do_implicit_cast_if_necessary` and `spread_poison`, Coerce
--              `coerce_types`, and Check the case `binary_operator` of `typecheck_internal`.
--              Values orders the builtin types of values; Join, Verdict and Poison are about the
--              check. An operand is its inferred type and the casts around it.
--   Checker    typecheck.cpp: the type checker on the nodes of the pool. `State` has the nodes with the
--              attributes that are set in them, and the checker's own fields; a method is an action
--              of `Check`, and `SET_TEMPORARILY` is `with_block` or `with_procedure`. Compare has
--              `types_equal` and `type_to_string`, Casts the casts and `coerce_types`, where a
--              `Node *&` is a `Field` of a node, Operators, Expressions, Statements and Procedures a
--              function for each case of `typecheck_internal`, and Check `typecheck`. Extends says
--              what the checker may change; Along and Rules have a rule for each way to put actions
--              together, and Sets, Puts, Stores, Bodies, Cases, Forms and Keeps apply them. Reading
--              compares `types_equal` with its definition on trees, and Scopes is about
--              `find_declaration`.
--              Clean and its children are about poison: Casts, Stores, Coerce, Blames, Operators,
--              Forms and Cases go through the methods, Whole through the switch, and Programs says
--              which programs do not name the poison type.
--   Registrar  node.h and typecheck.cpp: `visit` with a `DeclarationRegistrar`. Kept has a
--              rule for each step, for any relation between states, Visits puts them together, and
--              Registers, Keeps and Sound use them for what `visit` may change and for poison.
--   Examples   the theorems at concrete inputs.
--
-- Loops. `while_next`, `skip_comment`, `skip_digits` and `skip_string` run on fuel, which
-- `next_token` sets to the number of bytes that are left, or one more: each round but the last
-- reads a byte. `skip_comments` runs on one more than that too, since a comment has at least two
-- bytes. Only `skip_string` and `skip_comments` have a result for running out of fuel, and the
-- theorems on `next_token` and `parser_next_token` rule it out; the other loops of the lexer read as
-- far as their test holds, which is proved too. The two loops of `extract_line` that go forward
-- run on the length of the source.
-- The parse functions run on fuel, each call on one less: `parse_module_source` gives 20 for each byte
-- of the source and 20 more. A call in front of which a token has been read has at least 19 to spare,
-- and at most eight calls follow each other without reading one, which Safe counts by levels.
-- `visit` and `typecheck` take fuel for the depth of their calls as an argument, and what is stated of
-- them is for the runs that return. `types_equal` and `type_to_string` on the pool go as deep as there
-- are nodes, which is enough for types that are trees; a type that contains itself, which they never
-- come to the end of in the code, runs out of fuel. `find_declaration` goes through as many blocks as
-- there are nodes.
--
-- Numbers. Offsets, lines and columns of the source are natural numbers without an upper bound; pointers
-- into a memory pool are 64-bit words. The sizes of types are integers, since the code has -1 for a type
-- without a size. The sizes of syntax nodes are an argument of `desugar`.
--
-- Library functions. `strtof`, `strtod` and `isnan` are fields of `FloatLibrary`, an argument of the
-- parse functions; floating point numbers are bit patterns. Nothing is assumed of them.
--
-- Not modelled: the text that is printed, `to_string` of tokens and nodes, the room in the memory pool for
-- the nodes of the parser and of the type checker, which is taken to be enough, structs, which have no
-- content yet, the files of attic, which are no longer built, and the code generation with LLVM.
pub mod Base
pub mod Token
pub mod Lexer
pub mod MemoryPool
pub mod StringUtil
pub mod Ast
pub mod Parser
pub mod Desugar
pub mod Nodes
pub mod Types
pub mod Typecheck
pub mod Checker
pub mod Registrar
pub mod Examples
