-- ===== src/Checker/Statements.antt =====
-- typecheck.cpp: the cases of `TypeChecker::typecheck_internal` for statements, casts and types.
use janguage.Base.{
  ℕ, Bool, true, false, not, ◌||◌, Bytes, bytes_eq, codes, List, [], ◌∷◌, length, take, ◌==◌, ℤ,
  if◌then◌else◌, Option, none, some, Outcome, ok, abort, null_pointer, out_of_bounds, fatal, todo,
}
use janguage.Types.{Kind}
use janguage.Ast.{CompilerErrorKind, no_error, declaration_error, typecheck_error}
use janguage.Nodes.{Address, NodePointer, Node}
use janguage.Nodes.Context.{is_null}
use janguage.Checker.{
  Error, State, Check, voyd, boolean, type, main_signature, node_of, pure, stop, gets, reads, guard,
  load, with_block, ◌>>=◌, ◌>>◌,
}
use janguage.Checker.Compare.{types_equal, is_poisoned, type_to_string}
use janguage.Checker.Casts.{
  init_expression, set_inferred_type, report, report_types, as_basic, both_numerical, is_nop,
  cast_field, read_field,
}
use janguage.Checker.Expressions.{typecheck_and_spread_poison}

-- `DeclarationNode::is_global`
unfoldable pub is_global : State → Address → Outcome Bool
unfolding node_of
is_global s d = elim (s.containing_block d) [
  | none ↦ abort null_pointer
  | some b ↦ elim (node_of s.pool b) [
    | some (Node.block statements parent kind) ↦ ok (is_null parent)
    | _ ↦ abort out_of_bounds
  ]
]

-- Whether an expression is a procedure that `main` may be.
unfoldable pub is_main_procedure : State → Node → Outcome Bool
unfolding types_equal
is_main_procedure s (Node.procedure signature _ _) =
    types_equal s (some main_signature) (some signature)
is_main_procedure s _ = ok false

-- Whether a declaration may have its name: a global `main` is a procedure of one type.
unfoldable pub may_be_declared : Address → Bytes → Node → Check Bool
unfolding is_global is_main_procedure
may_be_declared a name x =
    if bytes_eq name (codes "main")
    then (do
      global ← reads (λ s. is_global s a)
      if global then reads (λ s. is_main_procedure s x) else pure true)
    else pure true

-- The specified type of a declaration.
unfoldable pub check_specified : Address → Address → Check (Unit {0})
unfolding read_field set_inferred_type cast_field report_types
check_specified a specified = do
  init ← read_field init_expression a
  x ← load init
  if is_nop x then set_inferred_type init specified else pure tt
  done ← cast_field init_expression a (some specified)
  if done then pure tt else (do
    init ← read_field init_expression a
    u ← gets (λ s. s.inferred init)
    report_types a false Error.incompatible_declaration (some specified) u)

-- `errors.resize(count)`
unfoldable pub resize_errors : ℕ → Check (Unit {0})
resize_errors count s = ok (tt, record s { errors = take count s.errors })

-- The end of a block that is to have an error, with the number of errors before it.
unfoldable pub settle_errors : Address → ℕ → CompilerErrorKind → Check (Unit {0})
unfolding report resize_errors
settle_errors a before typecheck_error = do
  now ← gets (λ s. length s.errors)
  if before == now then report a false Error.no_error_found else resize_errors before
settle_errors a before no_error = pure tt
settle_errors a before declaration_error = pure tt

-- A cast to a basic type that fails.
unfoldable pub is_missing : Option (Kind × ℤ) → Bool
is_missing none = true
is_missing (some _) = false

-- `type_cast`: the casts that the checker makes have their type already. The case goes on into
-- `goto_statement`.
unfoldable pub check_cast : Address → Address → Address → Check (Unit {0})
unfolding as_basic both_numerical is_missing set_inferred_type
check_cast a target e = do
  set_inferred_type a target
  t ← gets (λ s. s.inferred e)
  source ← gets (λ s. as_basic s t)
  goal ← gets (λ s. as_basic s (some target))
  if is_missing source || is_missing goal
      then stop fatal
      else (if both_numerical source goal
          then set_inferred_type a voyd
          else report a false Error.invalid_type_cast)

module _ (typecheck : NodePointer → Check (Unit {0})) where
  unfoldable pub check_statements : List NodePointer → Check (Unit {0})
  check_statements [] = pure tt
  check_statements (p ∷ ps) = do typecheck p; check_statements ps

  -- `block`
  unfoldable pub check_block : Address → List NodePointer → CompilerErrorKind → Check (Unit {0})
  unfolding check_statements settle_errors set_inferred_type
  check_block a statements kind = do
    set_inferred_type a voyd
    with_block (some a) (do
      before ← gets (λ s. length s.errors)
      check_statements statements
      settle_errors a before kind)

  -- `declaration`
  unfoldable pub check_declaration : Address → Bytes → Address → Address → Check (Unit {0})
  unfolding may_be_declared check_specified set_inferred_type
  check_declaration a name specified init = do
    set_inferred_type a voyd
    current ← gets (λ s. s.current_block)
    guard (not (is_null current))
    typecheck (some init)
    poisoned ← reads (λ s. is_poisoned s init)
    if poisoned then pure tt else (do
      x ← load init
      fits ← may_be_declared a name x
      if fits
          then (do y ← load specified; if is_nop y then pure tt else check_specified a specified)
          else (do
            u ← gets (λ s. s.inferred init)
            report_types a false Error.main_type (some main_signature) u))

  unfoldable pub check_else : NodePointer → Check (Unit {0})
  check_else none = pure tt
  check_else (some b) = typecheck (some b)

  -- `if_statement`
  unfoldable pub check_if : Address → Address → Address → NodePointer → Check (Unit {0})
  unfolding set_inferred_type type_to_string report typecheck_and_spread_poison check_else
  check_if a condition then_block else_block = do
    set_inferred_type a voyd
    typecheck (some condition)
    t ← gets (λ s. s.inferred condition)
    same ← reads (λ s. types_equal s t (some boolean))
    if same
        then (do typecheck_and_spread_poison typecheck then_block a >>= λ _. check_else else_block)
        else (do text ← reads (λ s. type_to_string s t); report a false (Error.if_condition text))

  -- `while_loop`
  unfoldable pub check_while : Address → Address → Address → Address → Check (Unit {0})
  unfolding set_inferred_type type_to_string report
  check_while a condition body prologue = do
    set_inferred_type a voyd
    typecheck (some condition)
    t ← gets (λ s. s.inferred condition)
    same ← reads (λ s. types_equal s t (some boolean))
    if same then (do typecheck (some prologue); typecheck (some body)) else (do
      text ← reads (λ s. type_to_string s t)
      report a false (Error.while_condition text))

  -- `module`
  unfoldable pub check_module : Address → Address → Check (Unit {0})
  unfolding set_inferred_type
  check_module a block = do set_inferred_type a voyd; typecheck (some block)

  -- `array_type`, which goes on into `struct_type`.
  unfoldable pub check_array_type : Address → Address → Address → Check (Unit {0})
  unfolding set_inferred_type
  check_array_type a n element = do
    set_inferred_type a type
    typecheck (some n)
    typecheck (some element)
    stop todo

  -- `pointer_type`, which goes on into `array_type`, where the type of the node is set again.
  unfoldable pub check_pointer_type : Address → Address → Check (Unit {0})
  unfolding set_inferred_type
  check_pointer_type a target = do
    set_inferred_type a type
    typecheck (some target)
    set_inferred_type a type
    stop out_of_bounds

  -- `basic_type`, which goes on into `pointer_type`, where the type of the node is set again.
  unfoldable pub check_basic_type : Address → Check (Unit {0})
  unfolding set_inferred_type
  check_basic_type a = do set_inferred_type a type; set_inferred_type a type; stop out_of_bounds
