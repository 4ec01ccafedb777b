-- ===== src/Checker/Operators.antt =====
-- typecheck.cpp: the cases of `TypeChecker::typecheck_internal` for binary operators and literals.
use janguage.Base.{
  ℕ, Bool, true, false, ◌&&◌, Bytes, ◌==◌, ℤ, int_max, if◌then◌else◌, Option, none, some, unreached,
}
use janguage.Token.{TokenType}
use janguage.Ast.{LiteralValue, uint64, float, double, bool, string}
use janguage.Types.{Kind, kind_eq, unsigned_integer}
use janguage.Typecheck.Operators.{
  Category, arithmetic, bitwise_operation, comparison, short_circuit_boolean, assignment,
  bin_op_category,
}
use janguage.Typecheck.Casts.{is_size}
use janguage.Nodes.{Address, NodePointer, Node}
use janguage.Checker.{
  Error, State, Check, voyd, i64, u64, f32, f64, boolean, string_literal, pure, stop, gets, reads,
  guard, allocate, ◌>>=◌, ◌>>◌,
}
use janguage.Checker.Casts.{
  Field, lhs, rhs, set_inferred_type, report_types, spread_poison, as_basic, cast_field, read_field,
  coerce_types,
}

-- The inferred types of the operands.
unfoldable pub operand_types : Address → Check (NodePointer × NodePointer)
unfolding read_field
operand_types a = do
  l ← read_field lhs a
  r ← read_field rhs a
  t ← gets (λ s. s.inferred l)
  u ← gets (λ s. s.inferred r)
  pure (t, u)

-- An error on an operator that shows the types of its operands.
unfoldable pub report_operands : Address → Bool → (Bytes → Bytes → Error) → Check (Unit {0})
unfolding operand_types report_types
report_operands a poisons kind = operand_types a >>= λ (t, u). report_types a poisons kind t u

-- Whether two types are basic types of a kind, and the greater of their sizes if they are.
unfoldable pub sizes_of_kind : Kind → Option (Kind × ℤ) → Option (Kind × ℤ) → Option ℤ
sizes_of_kind kind (some (k, n)) (some (k', n')) =
    if kind_eq k kind && kind_eq k' kind then some (int_max n n') else none
sizes_of_kind kind _ _ = none

unfoldable pub operand_sizes : Kind → State → NodePointer × NodePointer → Option ℤ
unfolding sizes_of_kind as_basic
operand_sizes kind s (t, u) = sizes_of_kind kind (as_basic s t) (as_basic s u)

-- A cast that the code takes to succeed.
unfoldable pub require_cast : Field → Address → NodePointer → Check (Unit {0})
unfolding cast_field
require_cast f a type = do done ← cast_field f a type; if done then pure tt else stop unreached

-- The case `bitwise_operation`, with the size of the wider operand if both are unsigned integers.
unfoldable pub check_bitwise : Address → Option ℤ → Check (Unit {0})
unfolding report_operands require_cast set_inferred_type
check_bitwise a none = report_operands a true Error.not_unsigned
check_bitwise a (some size) = do
  guard (is_size size)
  type ← allocate (Node.basic_type unsigned_integer size)
  set_inferred_type a type
  require_cast lhs a (some type)
  require_cast rhs a (some type)

unfoldable pub check_short_circuit : Address → Option ℤ → Check (Unit {0})
unfolding report_operands
check_short_circuit a none = report_operands a false Error.not_boolean
check_short_circuit a (some size) = pure tt

-- The switch over the operator's category.
unfoldable pub check_category : Category → Address → Check (Unit {0})
unfolding check_bitwise check_short_circuit coerce_types operand_sizes
check_category arithmetic a = do t ← coerce_types a; set_inferred_type a t
check_category bitwise_operation a = do
  types ← operand_types a
  size ← gets (λ s. operand_sizes unsigned_integer s types)
  check_bitwise a size
check_category comparison a = do coerce_types a >>= λ _. set_inferred_type a boolean
check_category short_circuit_boolean a = do
  types ← operand_types a
  size ← gets (λ s. operand_sizes Kind.boolean s types)
  set_inferred_type a boolean
  check_short_circuit a size
check_category assignment a = do
  set_inferred_type a voyd
  l ← read_field lhs a
  type ← gets (λ s. s.inferred l)
  done ← cast_field rhs a type
  if done then pure tt else report_operands a false Error.incompatible_assignment

-- `binary_operator`, once the operands are checked.
unfoldable pub check_operands : TokenType → Address → Check (Unit {0})
unfolding check_category spread_poison bin_op_category
check_operands kind a = do
  l ← read_field lhs a
  left ← spread_poison l a
  if left then pure tt else (do
    r ← read_field rhs a
    right ← spread_poison r a
    if right
        then pure tt
        else (do category ← reads (λ _. bin_op_category kind); check_category category a))

-- `literal`
unfoldable pub check_literal : Address → LiteralValue → ℕ → Check (Unit {0})
unfolding set_inferred_type
check_literal a (uint64 _) suffix =
    if suffix == b'u'
    then set_inferred_type a u64
    else (guard (suffix == 0) >> set_inferred_type a i64)
check_literal a (float _) suffix = guard (suffix == b'f') >> set_inferred_type a f32
check_literal a (double _) suffix = guard (suffix == 0) >> set_inferred_type a f64
check_literal a (bool _) suffix = guard (suffix == 0) >> set_inferred_type a boolean
check_literal a (string _) suffix = guard (suffix == 0) >> set_inferred_type a string_literal
