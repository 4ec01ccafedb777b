-- ===== src/Checker/Clean/Whole.antt =====
-- typecheck.cpp: programs that are checked without an error have no poisoned node.
use mathlib.Core.Path.{subst}
use janguage.Base.{◌≡◌, ◌≢◌, sym, refl, ◌∙◌, ap, ℕ, zero, suc, none, some, if◌then◌else◌}
use janguage.Ast.{no_error, declaration_error, typecheck_error}
use janguage.Nodes.{Address, NodePointer, Node, Pool, node_at}
use janguage.Nodes.Context.{is_null}
use janguage.Checker.{
  Check, poison, voyd, node_of, builtin_nodes, pure, gets, guard, load, ◌>>=◌, ◌>>◌,
}
use janguage.Checker.Check.{check_node, is_checked, typecheck_internal, typecheck_with, typecheck}
use janguage.Checker.Along.{bind-eq-ok, load-eq-ok}
use janguage.Checker.Clean.{
  PlainNode, IsSound, Sounding, Sounding-stop, Sounding-set_inferred_type, sound_rules,
}
use janguage.Checker.Clean.Operators.{voyd-ne-poison, Sounding-check_literal}
use janguage.Checker.Clean.Forms.{Sounding-check_cast}
use janguage.Checker.Clean.Cases.{
  Sounding-check_binary_operator, Sounding-check_identifier, Sounding-check_call,
  Sounding-check_declaration, Sounding-check_if, Sounding-check_while, Sounding-check_procedure,
  Sounding-check_signature, Sounding-check_return, Sounding-check_module, Sounding-check_array_type,
  Sounding-check_pointer_type, Sounding-check_basic_type, Sounding-check_block,
}

-- A node that is left out is not the poison type.
poison-ne-nop : (pool : Pool) (a : Address) → node_of pool a ≡ some Node.nop → a ≢ poison
unfolding node_of node_at builtin_nodes
poison-ne-nop pool a e p =
    let q : node_of pool poison ≡ some Node.nop = subst (λ a. node_of pool a ≡ some Node.nop) p e in
    cc q

module _ (typecheck : NodePointer → Check (Unit {0}))
    (below : (p : NodePointer) → Sounding (typecheck p)) where
  Sounding-check_node :
      (a : Address) (x : Node)
      → PlainNode x
      → (x ≡ Node.nop → a ≢ poison)
      → Sounding (check_node typecheck a x)
  unfolding check_node
  Sounding-check_node a (Node.binary_operator kind l r) h h' =
      Sounding-check_binary_operator typecheck below kind l r a
  Sounding-check_node a (Node.block statements parent no_error) h h' =
      Sounding-check_block typecheck below a statements no_error (λ e. cc e)
  Sounding-check_node a (Node.block statements parent declaration_error) h h' =
      Sounding-check_block typecheck below a statements declaration_error (λ e. cc e)
  Sounding-check_node a (Node.block statements parent typecheck_error) h h' = absurd h
  Sounding-check_node a (Node.declaration name specified init is_argument) h h' =
      Sounding-check_declaration typecheck below a name specified init h
  Sounding-check_node a (Node.identifier name) h h' =
      Sounding-check_identifier typecheck below a name
  Sounding-check_node a (Node.if_statement condition then_block else_block) h h' =
      Sounding-check_if typecheck below a condition then_block else_block
  Sounding-check_node a (Node.while_loop condition body prologue) h h' =
      Sounding-check_while typecheck below a condition body prologue
  Sounding-check_node a (Node.literal value suffix) h h' = Sounding-check_literal a value suffix
  Sounding-check_node a (Node.procedure signature body is_external) h h' =
      Sounding-check_procedure typecheck below a signature body is_external h
  Sounding-check_node a (Node.procedure_call callee arguments) h h' =
      Sounding-check_call typecheck below a callee arguments
  Sounding-check_node a (Node.procedure_signature arguments is_vararg return_type) h h' =
      Sounding-check_signature typecheck below a arguments
  Sounding-check_node a (Node.return_statement e) h h' = Sounding-check_return typecheck below a e
  Sounding-check_node a (Node.module_node block) h h' =
      Sounding-check_module typecheck below a block
  Sounding-check_node a (Node.basic_type kind size) h h' =
      Sounding-check_basic_type typecheck below a
  Sounding-check_node a (Node.pointer_type target) h h' =
      Sounding-check_pointer_type typecheck below a target
  Sounding-check_node a (Node.array_type n element) h h' =
      Sounding-check_array_type typecheck below a n element
  Sounding-check_node a Node.nop h h' = Sounding-set_inferred_type a a (h' refl)
  Sounding-check_node a (Node.type_cast target e) h h' = Sounding-check_cast a target e h
  Sounding-check_node a (Node.goto_statement name) h h' =
      Sounding-set_inferred_type a voyd voyd-ne-poison
  Sounding-check_node a Node.break_statement h h' = Sounding-set_inferred_type a voyd voyd-ne-poison
  Sounding-check_node a Node.continue_statement h h' =
      Sounding-set_inferred_type a voyd voyd-ne-poison
  Sounding-check_node a (Node.label name) h h' = Sounding-set_inferred_type a voyd voyd-ne-poison

  -- What follows the reading of the node.
  check_loaded : Address → Node → Check (Unit {0})
  check_loaded a x = do
    checked ← gets (λ s. is_checked s x)
    if checked
        then pure tt
        else (do type ← gets (λ s. s.inferred a); guard (is_null type); check_node typecheck a x)

  Sounding-check_loaded :
      (a : Address) (x : Node)
      → PlainNode x
      → (x ≡ Node.nop → a ≢ poison)
      → Sounding (check_loaded a x)
  unfolding check_loaded
  Sounding-check_loaded a x h h' = search (sound_rules, Sounding-check_node) depth 30

  Sounding-typecheck_internal : (p : NodePointer) → Sounding (typecheck_internal typecheck p)
  unfolding typecheck_internal check_loaded
  Sounding-typecheck_internal none = Sounding-stop _
  Sounding-typecheck_internal (some a) = record {
    from = λ s b s' run y.
        let (x, s1, e1, k1) = bind-eq-ok (load a) (check_loaded a) s b s' run in
        let (here, p) = load-eq-ok a x s s1 e1 in
        let other = λ (e : x ≡ Node.nop). poison-ne-nop s.pool a (here ∙ ap some e) in
        (Sounding-check_loaded a x (y.plain.nodes a x here) other).from s1 b s' k1
          (subst IsSound (sym p) y);
  }

  Sounding-typecheck_with : (p : NodePointer) → Sounding (typecheck_with typecheck p)
  unfolding typecheck_with
  Sounding-typecheck_with none = Sounding-typecheck_internal none
  Sounding-typecheck_with (some a) = search (sound_rules, Sounding-typecheck_internal) depth 30

pub Sounding-typecheck : (fuel : ℕ) (p : NodePointer) → Sounding (typecheck fuel p)
unfolding typecheck
Sounding-typecheck zero p = Sounding-stop _
Sounding-typecheck (suc fuel) p =
    Sounding-typecheck_with (typecheck fuel) (Sounding-typecheck fuel) p
