-- ===== src/Nodes/Context.antt =====
-- context.cpp: the constructors of nodes.
use janguage.Base.{
  ℕ, Bool, true, false, not, ◌==◌, ◌||◌, Bytes, List, length, none, some, ok, assert, ◌>>=◌, ◌>>◌,
  bool_ne,
}
use janguage.Token.{TokenType}
use janguage.Ast.{LiteralValue, bool, uint64, float, double, string}
use janguage.Nodes.{
  Address, NodePointer, binary_operator, nop, declaration, goto_statement, identifier, label,
  if_statement, literal, procedure, procedure_call, procedure_signature, return_statement,
  while_loop, pointer_type, Pool, Allocating, allocate_node, is_type, assert_pointer,
}

abbrev pub is_empty : Bytes → Bool
is_empty bs = length bs == 0

abbrev pub is_null : NodePointer → Bool
is_null none = true
is_null (some _) = false

unfoldable pub make_nop : Pool → Allocating Address
make_nop pool = allocate_node nop pool

-- A pointer, or a new node in place of null.
unfoldable pub or_nop : NodePointer → Pool → Allocating Address
or_nop none pool = make_nop pool
or_nop (some a) pool = ok (a, pool)

unfoldable pub make_binary_operator :
    TokenType → NodePointer → NodePointer → Pool → Allocating Address
make_binary_operator kind lhs rhs pool = do
  l ← assert_pointer lhs
  r ← assert_pointer rhs
  allocate_node (binary_operator kind l r) pool

unfoldable pub make_declaration :
    Bytes → NodePointer → NodePointer → Bool → Pool → Allocating Address
make_declaration name specified_type init_expression is_procedure_argument pool =
    assert (not (is_empty name))
    >> (assert (not (is_null specified_type) || not (is_null init_expression)) >> (do
      (type, pool) ← or_nop specified_type pool
      (init, pool) ← or_nop init_expression pool
      allocate_node (declaration name type init is_procedure_argument) pool))

unfoldable pub make_identifier : Bytes → Pool → Allocating Address
make_identifier name pool = assert (not (is_empty name)) >> allocate_node (identifier name) pool

unfoldable pub make_if : NodePointer → Address → NodePointer → Pool → Allocating Address
make_if condition then_block else_block pool = do
  c ← assert_pointer condition
  allocate_node (if_statement c then_block else_block) pool

unfoldable pub make_while : NodePointer → Address → NodePointer → Pool → Allocating Address
make_while condition body prologue pool = do
  c ← assert_pointer condition
  (p, pool) ← or_nop prologue pool
  allocate_node (while_loop c body p) pool

-- Whether a literal's suffix is one that its kind may have.
unfoldable pub suffix_fits : LiteralValue → ℕ → Bool
suffix_fits (bool _) suffix = suffix == 0
suffix_fits (float _) suffix = suffix == b'f'
suffix_fits (double _) suffix = suffix == 0
suffix_fits (uint64 _) suffix = true
suffix_fits (string _) suffix = true

unfoldable pub make_literal : LiteralValue → ℕ → Pool → Allocating Address
unfolding suffix_fits
make_literal value suffix pool =
    assert (suffix_fits value suffix) >> allocate_node (literal value suffix) pool

unfoldable pub make_procedure : Address → NodePointer → Bool → Pool → Allocating Address
make_procedure signature body is_external pool =
    assert (not (bool_ne (is_null body) is_external))
    >> allocate_node (procedure signature body is_external) pool

unfoldable pub make_procedure_call : NodePointer → List NodePointer → Pool → Allocating Address
make_procedure_call callee arguments pool = do
  c ← assert_pointer callee
  allocate_node (procedure_call c arguments) pool

unfoldable pub make_procedure_signature :
    List Address → Bool → NodePointer → Pool → Allocating Address
make_procedure_signature arguments is_vararg return_type pool = do
  r ← assert_pointer return_type
  allocate_node (procedure_signature arguments is_vararg r) pool

unfoldable pub make_return : NodePointer → Pool → Allocating Address
make_return expression pool = do
  (e, pool) ← or_nop expression pool
  allocate_node (return_statement e) pool

unfoldable pub make_goto : Bytes → Pool → Allocating Address
make_goto name pool = assert (not (is_empty name)) >> allocate_node (goto_statement name) pool

unfoldable pub make_label : Bytes → Pool → Allocating Address
make_label name pool = assert (not (is_empty name)) >> allocate_node (label name) pool

unfoldable pub make_pointer_type : NodePointer → Pool → Allocating Address
make_pointer_type target_type pool = do
  t ← assert_pointer target_type
  assert (is_type pool t) >> allocate_node (pointer_type t) pool
