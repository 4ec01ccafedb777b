-- ===== src/Checker/Keeps.antt =====
-- typecheck.cpp: what `TypeChecker::typecheck` keeps, on whatever nodes.
use janguage.Base.{◌≡◌, ℕ, zero, suc, none, some, ok}
use janguage.Nodes.{Address, NodePointer, Node}
use janguage.Checker.{State, Check}
use janguage.Checker.Check.{check_node, typecheck_internal, typecheck_with, typecheck}
use janguage.Checker.Extends.{Extends}
use janguage.Checker.Rules.{Extending, Extending-stop, extending_rules}
use janguage.Checker.Sets.{Extending-set_inferred_type}
use janguage.Checker.Bodies.{Extending-check_block}
use janguage.Checker.Cases.{Extending-check_literal}
use janguage.Checker.Forms.{
  Extending-check_cast, Extending-check_binary_operator, Extending-check_identifier,
  Extending-check_call, Extending-check_declaration, Extending-check_if, Extending-check_while,
  Extending-check_procedure, Extending-check_signature, Extending-check_return,
  Extending-check_module, Extending-check_array_type, Extending-check_pointer_type,
  Extending-check_basic_type,
}

module _ (typecheck : NodePointer → Check (Unit {0}))
    (below : (p : NodePointer) → Extending (typecheck p)) where
  Extending-check_node : (a : Address) (x : Node) → Extending (check_node typecheck a x)
  unfolding check_node
  Extending-check_node a (Node.binary_operator kind l r) =
      Extending-check_binary_operator typecheck below kind l r a
  Extending-check_node a (Node.block statements parent kind) =
      Extending-check_block typecheck below a statements kind
  Extending-check_node a (Node.declaration name specified init is_argument) =
      Extending-check_declaration typecheck below a name specified init
  Extending-check_node a (Node.identifier name) = Extending-check_identifier typecheck below a name
  Extending-check_node a (Node.if_statement condition then_block else_block) =
      Extending-check_if typecheck below a condition then_block else_block
  Extending-check_node a (Node.while_loop condition body prologue) =
      Extending-check_while typecheck below a condition body prologue
  Extending-check_node a (Node.literal value suffix) = Extending-check_literal a value suffix
  Extending-check_node a (Node.procedure signature body is_external) =
      Extending-check_procedure typecheck below a signature body is_external
  Extending-check_node a (Node.procedure_call callee arguments) =
      Extending-check_call typecheck below a callee arguments
  Extending-check_node a (Node.procedure_signature arguments is_vararg return_type) =
      Extending-check_signature typecheck below a arguments
  Extending-check_node a (Node.return_statement e) = Extending-check_return typecheck below a e
  Extending-check_node a (Node.module_node block) = Extending-check_module typecheck below a block
  Extending-check_node a (Node.basic_type kind size) = Extending-check_basic_type typecheck below a
  Extending-check_node a (Node.pointer_type target) =
      Extending-check_pointer_type typecheck below a target
  Extending-check_node a (Node.array_type n element) =
      Extending-check_array_type typecheck below a n element
  Extending-check_node a Node.nop = Extending-set_inferred_type a a
  Extending-check_node a (Node.type_cast target e) = Extending-check_cast a target e
  Extending-check_node a (Node.goto_statement name) = Extending-set_inferred_type a _
  Extending-check_node a Node.break_statement = Extending-set_inferred_type a _
  Extending-check_node a Node.continue_statement = Extending-set_inferred_type a _
  Extending-check_node a (Node.label name) = Extending-set_inferred_type a _

  Extending-typecheck_internal : (p : NodePointer) → Extending (typecheck_internal typecheck p)
  unfolding typecheck_internal
  Extending-typecheck_internal none = Extending-stop _
  Extending-typecheck_internal (some a) = search (extending_rules, Extending-check_node) depth 30

  Extending-typecheck_with : (p : NodePointer) → Extending (typecheck_with typecheck p)
  unfolding typecheck_with
  Extending-typecheck_with none = Extending-typecheck_internal none
  Extending-typecheck_with (some a) =
      search (extending_rules, Extending-typecheck_internal) depth 30

Extending-typecheck : (fuel : ℕ) (p : NodePointer) → Extending (typecheck fuel p)
unfolding typecheck
Extending-typecheck zero p = Extending-stop _
Extending-typecheck (suc fuel) p =
    Extending-typecheck_with (typecheck fuel) (Extending-typecheck fuel) p

module _ (fuel : ℕ) (p : NodePointer) (s s' : State) (b : Unit {0})
    (run : typecheck fuel p s ≡ ok (b, s')) where
  -- Where `typecheck` returns, the nodes are as they were, but for casts that are put around operands,
  -- init expressions and returned expressions, and return statements that are added to blocks. A type
  -- that a node has is not changed, unless it is the poison type or that of a node that is left out.
  -- The errors so far are kept, the current block and procedure are what they were, and so are the
  -- tables of declarations.
  pub typecheck-Extends : Extends s s'
  typecheck-Extends = (Extending-typecheck fuel p).from s b s' run
