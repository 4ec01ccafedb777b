-- ===== src/Registrar.antt =====
-- node.h and typecheck.cpp: `visit` with a `DeclarationRegistrar`, which enters the declarations of a
-- module into the tables of its blocks. `is_done` of this visitor is always false, and its methods for
-- other nodes do nothing.
pub mod Kept
pub mod Visits
pub mod Registers
pub mod Keeps
pub mod Sound
use janguage.Base.{
  ℕ, zero, suc, Bool, true, false, not, bool_ne, Bytes, List, [], ◌∷◌, ◌++◌, if◌then◌else◌, none,
  some, Outcome, ok, abort, out_of_bounds, out_of_fuel,
}
use janguage.Nodes.{Address, NodePointer, Node}
use janguage.Nodes.Context.{is_null, is_empty}
use janguage.Checker.{
  Error, Check, label, assign, pure, stop, gets, reads, guard, load, follow, allocate, add_error,
  with_block, with_procedure, ◌>>=◌, ◌>>◌,
}
use janguage.Checker.Expressions.{find}

unfoldable pub put_table : Address → List (Bytes × Address) → Check (Unit {0})
put_table b table s = ok (tt, record s { table = assign b table s.table })

-- `declarations.emplace(…)`: a name that is there keeps its declaration.
unfoldable pub emplace : Address → Bytes → Address → Check Bool
unfolding find put_table
emplace block name d = do
  table ← gets (λ s. s.table block)
  if is_null (find name table)
      then (do put_table block (table ++ (name, d) ∷ []); pure true)
      else pure false

-- The error where an `emplace` has failed.
unfoldable pub require_new : Bool → Error → Check (Unit {0})
require_new true e = pure tt
require_new false e = add_error e

-- `declaration->containing_block = …`
unfoldable pub put_containing_block : Address → NodePointer → Check (Unit {0})
put_containing_block d b s = ok (tt, record s { containing_block = assign d b s.containing_block })

-- `current_block->is_global()`
unfoldable pub is_global_block : Node → Outcome Bool
is_global_block (Node.block statements parent kind) = ok (is_null parent)
is_global_block _ = abort out_of_bounds

-- Whether a procedure is declared in a block that is not global.
unfoldable pub is_local_procedure : Node → Check Bool
unfolding is_global_block
is_local_procedure (Node.procedure _ _ _) = do
  current ← gets (λ s. s.current_block)
  b ← follow current
  x ← load b
  global ← reads (λ _. is_global_block x)
  pure (not global)
is_local_procedure _ = pure false

-- `DeclarationRegistrar::visit(DeclarationNode *)`
unfoldable pub register_declaration : Address → Bytes → Address → Bool → Check (Unit {0})
unfolding put_containing_block is_local_procedure emplace require_new
register_declaration a name init is_argument = do
  current ← gets (λ s. s.current_block)
  put_containing_block a current
  if is_argument then pure tt else (do
    x ← load init
    local ← is_local_procedure x
    if local then add_error (Error.local_procedure name) else (do
      block ← follow current
      new ← emplace block name a
      require_new new (Error.duplicate_declaration name)))

-- `proc->body`, followed.
unfoldable pub body_of : Node → Check Address
body_of (Node.procedure _ body _) = follow body
body_of _ = stop out_of_bounds

-- `DeclarationRegistrar::visit(LabelNode *)`
unfoldable pub register_label : Address → Bytes → Check (Unit {0})
unfolding body_of emplace require_new
register_label a name = do
  guard (not (is_empty name))
  d ← allocate (Node.declaration name label a false)
  current ← gets (λ s. s.current_procedure)
  p ← follow current
  x ← load p
  body ← body_of x
  new ← emplace body name d
  require_new new (Error.duplicate_label name)

unfoldable pub name_of : Node → Outcome Bytes
name_of (Node.declaration name _ _ _) = ok name
name_of _ = abort out_of_bounds

-- An argument of a procedure, as a declaration of its body.
unfoldable pub register_argument : Address → Address → Check (Unit {0})
unfolding name_of emplace require_new
register_argument body d = do
  x ← load d
  name ← reads (λ _. name_of x)
  new ← emplace body name d
  require_new new (Error.duplicate_argument name)

-- The loop over the arguments of a procedure.
unfoldable pub register_arguments : Address → List Address → Check (Unit {0})
unfolding register_argument
register_arguments body [] = pure tt
register_arguments body (d ∷ ds) = do register_argument body d; register_arguments body ds

unfoldable pub arguments_of : Node → Outcome (List Address)
arguments_of (Node.procedure_signature arguments _ _) = ok arguments
arguments_of _ = abort out_of_bounds

-- `DeclarationRegistrar::visit(ProcedureNode *)`
unfoldable pub register_procedure : Address → NodePointer → Bool → Check (Unit {0})
unfolding arguments_of register_arguments
register_procedure signature body is_external = if is_external then pure tt else (do
  x ← load signature
  arguments ← reads (λ _. arguments_of x)
  b ← follow body
  register_arguments b arguments)

module _ (visit : NodePointer → Check (Unit {0})) where
  -- A loop over nodes.
  unfoldable pub visit_all : List NodePointer → Check (Unit {0})
  visit_all [] = pure tt
  visit_all (p ∷ ps) = do visit p; visit_all ps

  -- The loop over the arguments of a signature.
  unfoldable pub visit_arguments : List Address → Check (Unit {0})
  visit_arguments [] = pure tt
  visit_arguments (a ∷ as') = do visit (some a); visit_arguments as'

  unfoldable pub visit_procedure : Address → Address → NodePointer → Bool → Check (Unit {0})
  unfolding register_procedure
  visit_procedure a signature body is_external = do
    current ← gets (λ s. s.current_procedure)
    guard (is_null current)
    guard (not (bool_ne is_external (is_null body)))
    register_procedure signature body is_external
    with_procedure (some a) (do visit (some signature); visit body)

  -- The branches of `visit`. The prologue of a while loop is not visited.
  unfoldable pub visit_node : Address → Node → Check (Unit {0})
  unfolding register_declaration register_label visit_all visit_arguments visit_procedure
  visit_node a (Node.array_type n element) = do visit (some n); visit (some element)
  visit_node a (Node.basic_type _ _) = pure tt
  visit_node a (Node.binary_operator kind l r) = do visit (some l); visit (some r)
  visit_node a (Node.block statements parent kind) = with_block (some a) (visit_all statements)
  visit_node a Node.break_statement = pure tt
  visit_node a Node.continue_statement = pure tt
  visit_node a (Node.declaration name specified init is_argument) = do
    register_declaration a name init is_argument
    visit (some specified)
    visit (some init)
  visit_node a (Node.goto_statement _) = pure tt
  visit_node a (Node.identifier _) = pure tt
  visit_node a (Node.if_statement condition then_block else_block) = do
    visit (some condition)
    visit (some then_block)
    visit else_block
  visit_node a (Node.label name) = register_label a name
  visit_node a (Node.literal _ _) = pure tt
  visit_node a (Node.module_node block) = visit (some block)
  visit_node a Node.nop = pure tt
  visit_node a (Node.pointer_type target) = visit (some target)
  visit_node a (Node.procedure_call callee arguments) = do visit (some callee); visit_all arguments
  visit_node a (Node.procedure signature body is_external) =
      visit_procedure a signature body is_external
  visit_node a (Node.procedure_signature arguments is_vararg return_type) = do
    visit_arguments arguments
    visit (some return_type)
  visit_node a (Node.return_statement e) = visit (some e)
  visit_node a (Node.type_cast target e) = do visit (some target); visit (some e)
  visit_node a (Node.while_loop condition body prologue) = do
    visit (some condition)
    visit (some body)

-- `visit`, on fuel for the depth of the tree.
unfoldable pub visit : ℕ → NodePointer → Check (Unit {0})
unfolding visit_node
visit zero p = stop out_of_fuel
visit (suc fuel) none = pure tt
visit (suc fuel) (some a) = do x ← load a; visit_node (visit fuel) a x
