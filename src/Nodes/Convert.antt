-- ===== src/Nodes/Convert.antt =====
-- typecheck.cpp: `NodeConverter::make_node`, on the trees of the parser and the desugaring. A function
-- for each kind of list or pointer stands for the loops and the tests on null. The casts to a block, a
-- declaration and a signature find the node that they ask for.
use janguage.Base.{
  ℕ, zero, suc, length, true, false, Bytes, bytes_eq, List, [], ◌∷◌, ◌++◌, ℤ, none, some, ok, abort,
  null_pointer, out_of_bounds, unreached, ◌>>=◌,
}
use janguage.Token.{text}
use janguage.Ast.{
  Ast, Pointer, null, to, Nodes, end, node, Block, statements, BlockPointer, no_block, to_block,
  Declaration, declares, Declarations, no_declarations, also, Signature, takes,
}
use janguage.Types.{Kind, type_names}
use janguage.Nodes.{Address, builtin, at, NodePointer, Node, Pool, Allocating, allocate_node}
use janguage.Nodes.Context.{
  make_nop, make_binary_operator, make_declaration, make_identifier, make_if, make_while,
  make_literal, make_procedure, make_procedure_call, make_procedure_signature, make_return,
  make_goto, make_label, make_pointer_type,
}

-- The place of a name among the builtin types' names, from a place on.
unfoldable pub find_type_name : Bytes → List (Kind × ℤ × Bytes) → ℕ → NodePointer
find_type_name name [] i = none
find_type_name name ((_, _, n) ∷ table) i = elim (bytes_eq name n) [
  | true ↦ some (builtin i)
  | false ↦ find_type_name name table (suc i)
]

unfoldable pub push_back : Node → NodePointer → Node
push_back (Node.block xs parent kind) p = Node.block (xs ++ p ∷ []) parent kind
push_back x p = x

-- `result->statements.push_back(…)`
unfoldable pub push_statement : Pool → ℕ → NodePointer → Pool
unfolding push_back
push_statement [] i p = []
push_statement (x ∷ pool) zero p = push_back x p ∷ pool
push_statement (x ∷ pool) (suc i) p = x ∷ push_statement pool i p

-- A node, as the pointer that `make_node` returns.
unfoldable pub made : Allocating Address → Allocating NodePointer
made m = do (a, pool) ← m; ok (some a, pool)

unfoldable mutual
  unfolding find_type_name

  -- `make_node`; `current` is `current_block`, which a block sets for its statements.
  pub make_node : Ast → NodePointer → Pool → Allocating NodePointer
  make_node (Ast.binary_operator op lhs rhs) current pool = do
    (l, pool) ← make_node lhs current pool
    (r, pool) ← make_node rhs current pool
    made (make_binary_operator op l r pool)
  make_node (Ast.block b) current pool = made (make_block_node b current pool)
  make_node (Ast.declaration d) current pool = made (make_declaration_node d current pool)
  make_node (Ast.identifier t) current pool = made (make_identifier (text t) pool)
  make_node (Ast.if_statement condition then_block else_block) current pool = do
    (c, pool) ← make_node condition current pool
    (t, pool) ← make_block_node then_block current pool
    (e, pool) ← make_else_node else_block current pool
    made (make_if c t e pool)
  make_node (Ast.while_loop condition b prologue) current pool = do
    (c, pool) ← make_node condition current pool
    (body, pool) ← make_block_node b current pool
    (p, pool) ← make_pointed prologue current pool
    made (make_while c body p pool)
  make_node (Ast.literal l) current pool = made (make_literal l.value l.suffix pool)
  make_node (Ast.procedure signature body true) current pool = do
    (s, pool) ← make_signature_node signature current pool
    made (make_procedure s none true pool)
  make_node (Ast.procedure signature no_block false) current pool = do
    (s, pool) ← make_signature_node signature current pool
    abort null_pointer
  make_node (Ast.procedure signature (to_block b) false) current pool = do
    (s, pool) ← make_signature_node signature current pool
    (body, pool) ← make_block_node b current pool
    made (make_procedure s (some body) false pool)
  make_node (Ast.procedure_call callee arguments) current pool = do
    (c, pool) ← make_node callee current pool
    (xs, pool) ← make_arguments arguments current pool
    made (make_procedure_call c xs pool)
  make_node (Ast.procedure_signature signature) current pool =
      made (make_signature_node signature current pool)
  make_node (Ast.return_statement expression) current pool = do
    (e, pool) ← make_or_nop expression current pool
    made (make_return e pool)
  make_node (Ast.module_node b) current pool = do
    (block, pool) ← make_block_node b current pool
    made (allocate_node (Node.module_node block) pool)
  make_node (Ast.type_identifier t) current pool = ok (find_type_name (text t) type_names 0, pool)
  make_node (Ast.pointer_type target) current pool = do
    (t, pool) ← make_node target current pool
    made (make_pointer_type t pool)
  -- The kind of an `AstArrayType` is `type_identifier`: the code reads the token of a node that has
  -- none.
  make_node (Ast.array_type length_expression element) current pool = abort out_of_bounds
  make_node (Ast.label name) current pool = made (make_label name pool)
  make_node (Ast.goto_statement name) current pool = made (make_goto name pool)
  make_node Ast.break_statement current pool = made (allocate_node Node.break_statement pool)
  make_node Ast.continue_statement current pool = made (allocate_node Node.continue_statement pool)
  make_node (Ast.for_loop _ _ _ _ _ _) current pool = abort unreached

  -- The case of a block. The block is in the pool before its statements are.
  pub make_block_node : Block → NodePointer → Pool → Allocating Address
  make_block_node (statements xs kind) current pool = do
    (_, done) ← make_statements xs (length pool) (pool ++ Node.block [] current kind ∷ [])
    ok (at (length pool), done)

  -- The loop over the statements of a block.
  pub make_statements : Nodes → ℕ → Pool → Allocating (Unit {0})
  make_statements end i pool = ok (tt, pool)
  make_statements (node x xs) i pool = do
    (p, pool) ← make_node x (some (at i)) pool
    make_statements xs i (push_statement pool i p)

  pub make_else_node : BlockPointer → NodePointer → Pool → Allocating NodePointer
  make_else_node no_block current pool = ok (none, pool)
  make_else_node (to_block b) current pool = made (make_block_node b current pool)

  -- A node that may be left out, as null.
  pub make_pointed : Pointer → NodePointer → Pool → Allocating NodePointer
  make_pointed null current pool = ok (none, pool)
  make_pointed (to x) current pool = make_node x current pool

  -- A node that may be left out, as a `NopNode`.
  pub make_or_nop : Pointer → NodePointer → Pool → Allocating NodePointer
  make_or_nop null current pool = made (make_nop pool)
  make_or_nop (to x) current pool = make_node x current pool

  pub make_arguments : Nodes → NodePointer → Pool → Allocating (List NodePointer)
  make_arguments end current pool = ok ([], pool)
  make_arguments (node x xs) current pool = do
    (p, pool) ← make_node x current pool
    (ps, pool) ← make_arguments xs current pool
    ok (p ∷ ps, pool)

  -- The case of a declaration.
  pub make_declaration_node : Declaration → NodePointer → Pool → Allocating Address
  make_declaration_node (declares id type init is_argument) current pool = do
    (t, pool) ← make_or_nop type current pool
    (i, pool) ← make_or_nop init current pool
    make_declaration (text id) t i is_argument pool

  pub make_declaration_nodes : Declarations → NodePointer → Pool → Allocating (List Address)
  make_declaration_nodes no_declarations current pool = ok ([], pool)
  make_declaration_nodes (also d ds) current pool = do
    (a, pool) ← make_declaration_node d current pool
    (as', pool) ← make_declaration_nodes ds current pool
    ok (a ∷ as', pool)

  -- The case of a signature.
  pub make_signature_node : Signature → NodePointer → Pool → Allocating Address
  make_signature_node (takes arguments is_vararg return_type) current pool = do
    (xs, pool) ← make_declaration_nodes arguments current pool
    (r, pool) ← make_node return_type current pool
    make_procedure_signature xs is_vararg r pool
