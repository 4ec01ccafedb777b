-- ===== src/Nodes.antt =====
-- node.h, context.h and context.cpp: nodes in a memory pool, and their constructors. The pool is a
-- list of nodes, to which a node is added at the end; an address is a place in it, or a builtin type.
-- That the pool is large enough is not modelled.
pub mod Context
pub mod Convert
pub mod Denotes
pub mod Stable
pub mod Building
pub mod Parts
pub mod Refining
pub mod Refines
use janguage.Base.{
  ℕ, zero, suc, Bool, true, false, not, ◌&&◌, ◌||◌, ◌==◌, bool_ne, Bytes, List, [], ◌∷◌, ◌++◌,
  length, ℤ, Option, none, some, Outcome, ok, abort, assertion, ◌>>=◌,
}
use janguage.Token.{TokenType}
use janguage.Types.{Kind}
use janguage.Ast.{CompilerErrorKind, no_error, LiteralValue, bool, uint64, float, double, string}

-- A builtin type by its place in `BuiltinTypes::type_names`, or a place in the pool.
pub data Address : Type 0 where
  builtin at : ℕ → Address

-- A `Node *`; `none` is null.
abbrev pub NodePointer : Type 0
NodePointer = Option Address

-- What the passes behind the conversion write into a node is no part of it: its inferred type, a
-- block's table of declarations, the block around a declaration, and the declaration of an
-- identifier. Structs have no content yet, and no code makes one.
pub data Node : Type 0 where
  binary_operator : TokenType → Address → Address → Node
  break_statement continue_statement nop : Node
  -- Statements, parent block, and expected error.
  block : List NodePointer → NodePointer → CompilerErrorKind → Node
  declaration : Bytes → Address → Address → Bool → Node
  goto_statement identifier label : Bytes → Node
  if_statement : Address → Address → NodePointer → Node
  literal : LiteralValue → ℕ → Node
  module_node : Address → Node
  procedure : Address → NodePointer → Bool → Node
  procedure_call : Address → List NodePointer → Node
  procedure_signature : List Address → Bool → Address → Node
  return_statement : Address → Node
  while_loop : Address → Address → Address → Node
  pointer_type : Address → Node
  array_type : Address → Address → Node
  basic_type : Kind → ℤ → Node
  -- The target type, and the expression.
  type_cast : Address → Address → Node

abbrev pub Pool : Type 0
Pool = List Node

unfoldable pub node_at : Pool → ℕ → Option Node
node_at [] i = none
node_at (x ∷ xs) zero = some x
node_at (x ∷ xs) (suc i) = node_at xs i

-- Code that may add nodes to the pool.
abbrev pub Allocating : Type 0 → Type 0
Allocating A = Outcome (A × Pool)

-- `new (*this) …`
unfoldable pub add : Node → Pool → Address × Pool
add x pool = (at (length pool), pool ++ x ∷ [])

abbrev pub allocate_node : Node → Pool → Allocating Address
allocate_node x pool = ok (add x pool)

-- `Node::is_type`
unfoldable pub is_type_node : Node → Bool
is_type_node (pointer_type _) = true
is_type_node (array_type _ _) = true
is_type_node (procedure_signature _ _ _) = true
is_type_node nop = true
is_type_node (basic_type _ _) = true
is_type_node _ = false

unfoldable pub is_type : Pool → Address → Bool
unfolding node_at is_type_node
is_type pool (builtin _) = true
is_type pool (at i) = elim (node_at pool i) [ none ↦ false | some x ↦ is_type_node x ]

-- `assert(pointer != nullptr)`
unfoldable pub assert_pointer : NodePointer → Outcome Address
assert_pointer none = abort assertion
assert_pointer (some a) = ok a
