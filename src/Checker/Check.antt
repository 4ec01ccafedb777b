-- ===== src/Checker/Check.antt =====
-- typecheck.cpp: `TypeChecker::typecheck` and `typecheck_internal`, on fuel for the calls below them.
use janguage.Base.{
  ℕ, zero, suc, Bool, false, not, if◌then◌else◌, [], none, some, out_of_fuel, assertion,
}
use janguage.Nodes.{Address, NodePointer, Node, Pool}
use janguage.Nodes.Context.{is_null}
use janguage.Checker.{State, Check, voyd, pure, stop, gets, guard, load, ◌>>=◌, ◌>>◌}
use janguage.Checker.Casts.{set_inferred_type}
use janguage.Checker.Expressions.{check_binary_operator, check_identifier, check_call}
use janguage.Checker.Operators.{check_literal}
use janguage.Checker.Statements.{
  check_cast, check_block, check_declaration, check_if, check_while, check_module, check_array_type,
  check_pointer_type, check_basic_type,
}
use janguage.Checker.Procedures.{check_procedure, check_signature, check_return}

-- Whether a declaration has been checked ahead of its place: its init expression has a type.
unfoldable pub is_checked : State → Node → Bool
is_checked s (Node.declaration name specified init is_argument) = not (is_null (s.inferred init))
is_checked s _ = false

module _ (typecheck : NodePointer → Check (Unit {0})) where
  -- The switch over the kind of a node.
  unfoldable pub check_node : Address → Node → Check (Unit {0})
  unfolding set_inferred_type check_literal check_binary_operator check_identifier check_call
      check_cast check_block check_declaration check_if check_while check_procedure check_signature
      check_return check_module check_array_type check_pointer_type check_basic_type
  check_node a (Node.binary_operator kind l r) = check_binary_operator typecheck kind l r a
  check_node a (Node.block statements parent kind) = check_block typecheck a statements kind
  check_node a (Node.declaration name specified init is_argument) =
      check_declaration typecheck a name specified init
  check_node a (Node.identifier name) = check_identifier typecheck a name
  check_node a (Node.if_statement condition then_block else_block) =
      check_if typecheck a condition then_block else_block
  check_node a (Node.while_loop condition body prologue) =
      check_while typecheck a condition body prologue
  check_node a (Node.literal value suffix) = check_literal a value suffix
  check_node a (Node.procedure signature body is_external) =
      check_procedure typecheck a signature body is_external
  check_node a (Node.procedure_call callee arguments) = check_call typecheck a callee arguments
  check_node a (Node.procedure_signature arguments is_vararg return_type) =
      check_signature typecheck a arguments
  check_node a (Node.return_statement e) = check_return typecheck a e
  check_node a (Node.module_node block) = check_module typecheck a block
  check_node a (Node.basic_type kind size) = check_basic_type typecheck a
  check_node a (Node.pointer_type target) = check_pointer_type typecheck a target
  check_node a (Node.array_type n element) = check_array_type typecheck a n element
  check_node a Node.nop = set_inferred_type a a
  check_node a (Node.type_cast target e) = check_cast a target e
  check_node a (Node.goto_statement name) = set_inferred_type a voyd
  check_node a Node.break_statement = set_inferred_type a voyd
  check_node a Node.continue_statement = set_inferred_type a voyd
  check_node a (Node.label name) = set_inferred_type a voyd

  -- `TypeChecker::typecheck_internal`
  unfoldable pub typecheck_internal : NodePointer → Check (Unit {0})
  unfolding check_node is_checked
  typecheck_internal none = stop assertion
  typecheck_internal (some a) = do
    x ← load a
    checked ← gets (λ s. is_checked s x)
    if checked
        then pure tt
        else (do type ← gets (λ s. s.inferred a); guard (is_null type); check_node a x)

  -- `TypeChecker::typecheck`, with the calls below it.
  unfoldable pub typecheck_with : NodePointer → Check (Unit {0})
  unfolding typecheck_internal
  typecheck_with none = typecheck_internal none
  typecheck_with (some a) = do
    typecheck_internal (some a)
    type ← gets (λ s. s.inferred a)
    guard (not (is_null type))

-- `TypeChecker::typecheck`
unfoldable pub typecheck : ℕ → NodePointer → Check (Unit {0})
unfolding typecheck_with
typecheck zero p = stop out_of_fuel
typecheck (suc fuel) p = typecheck_with (typecheck fuel) p

-- A pool before the declarations are registered.
abbrev pub initial : Pool → State
initial pool = record {
  pool = pool;
  inferred = λ _. none;
  table = λ _. [];
  containing_block = λ _. none;
  declaration_of = λ _. none;
  errors = [];
  current_procedure = none;
  current_block = none;
}
