-- ===== src/Typecheck/Check.antt =====
-- typecheck.cpp: the case `binary_operator` of `TypeChecker::typecheck_internal`.
use janguage.Base.{
  Bool, true, false, not, ◌&&◌, if◌then◌else◌, none, some, ℤ, pos, int_max, Outcome, ok, abort,
  unreached, ◌>>=◌, ◌>>◌, assert,
}
use janguage.Types.{Kind, boolean, unsigned_integer, kind_eq, TypeNode, basic}
use janguage.Typecheck.Operators.{
  Category, arithmetic, bitwise_operation, comparison, short_circuit_boolean, assignment,
  bin_op_category,
}
use janguage.Typecheck.Casts.{
  Error, BinOp, boolean_type, voyd_type, set_inferred_type, report, as_basic,
  do_implicit_cast_if_necessary, spread_poison, cast_lhs, cast_rhs, is_size,
}
use janguage.Typecheck.Coerce.{coerce_types}

abbrev both_of_kind : Kind → TypeNode → TypeNode → Bool
both_of_kind kind a b = elim (as_basic a) [
  | none ↦ false
  | some (k, _) ↦ elim (as_basic b) [
    | none ↦ false
    | some (k', _) ↦ kind_eq k kind && kind_eq k' kind
  ]
]

-- `std::max` of the sizes of two basic types.
abbrev max_size : TypeNode → TypeNode → ℤ
max_size (basic _ s) (basic _ s') = int_max s s'
max_size _ _ = pos 0

-- The case `bitwise_operation` of `typecheck_internal`.
unfoldable pub check_bitwise : BinOp → Outcome BinOp
unfolding report set_inferred_type do_implicit_cast_if_necessary
check_bitwise node =
    if not (both_of_kind unsigned_integer node.lhs.inferred node.rhs.inferred)
    then report node true Error.not_unsigned
    else (do
      let size = max_size node.lhs.inferred node.rhs.inferred
      assert (is_size size)
      let type = basic unsigned_integer size
      typed ← set_inferred_type node type
      (left_done, left) ← cast_lhs typed (some type)
      (if left_done then ok tt else abort unreached)
      (right_done, right) ← cast_rhs left (some type)
      (if right_done then ok right else abort unreached))

-- The switch over the operator's category in `typecheck_internal`.
unfoldable pub check_category : Category → BinOp → Outcome BinOp
unfolding coerce_types check_bitwise
check_category arithmetic node = do (type, node') ← coerce_types node; set_inferred_type node' type
check_category bitwise_operation node = check_bitwise node
check_category comparison node = do
  (_, node') ← coerce_types node
  set_inferred_type node' boolean_type
check_category short_circuit_boolean node = do
  node' ← set_inferred_type node boolean_type
  (if not (both_of_kind boolean node.lhs.inferred node.rhs.inferred)
      then report node' false Error.not_boolean
      else ok node')
check_category assignment node = do
  typed ← set_inferred_type node voyd_type
  (done, node') ← cast_rhs typed (some typed.lhs.inferred)
  (if done then ok node' else report node' false Error.incompatible_assignment)

-- The case `binary_operator` of `typecheck_internal`, once the operands are checked.
unfoldable pub check_binary_operator : BinOp → Outcome BinOp
unfolding spread_poison check_category
check_binary_operator node = do
  (left, node') ← spread_poison node.lhs node
  (if left then ok node' else (do
    (right, node'') ← spread_poison node'.rhs node'
    (if right
        then ok node''
        else (do category ← bin_op_category node''.operator_kind; check_category category node''))))
