-- ===== src/Typecheck/Coerce.antt =====
-- typecheck.cpp: `TypeChecker::coerce_types`, which brings two operands to one type.
use janguage.Base.{
  true, not, ◌||◌, if◌then◌else◌, Option, none, some, ℤ, int_max, Outcome, ok, abort, null_pointer,
  ◌>>=◌, ◌>>◌, assert,
}
use janguage.Types.{Kind, floatingpoint, kind_eq, TypeNode, type_names}
use janguage.Typecheck.Casts.{
  Error, BinOp, poison_type, report, as_basic, do_implicit_cast_if_necessary, find_builtin,
  spread_poison, cast_lhs, cast_rhs, is_size, is_operand_kind, signedness_differs,
}

-- The casts of `coerce_types`, to the type that it has found.
unfoldable pub coerce_to : BinOp → Option TypeNode → Outcome (TypeNode × BinOp)
unfolding do_implicit_cast_if_necessary spread_poison
coerce_to node type = do
  (left_done, node') ← cast_lhs node type
  (if not left_done
      then (do (_, node'') ← spread_poison node'.lhs node'; ok (poison_type, node''))
      else (do
        (right_done, node'') ← cast_rhs node' type
        (if not right_done
            then (do (_, node3) ← spread_poison node''.rhs node''; ok (poison_type, node3))
            else (elim type [ none ↦ abort null_pointer | some t ↦ ok (t, node'') ]))))

-- `coerce_types` on two basic types.
unfoldable pub coerce_basic : BinOp → Kind × ℤ → Kind × ℤ → Outcome (TypeNode × BinOp)
unfolding report find_builtin coerce_to
coerce_basic node (k, s) (k', s') =
    if not (is_operand_kind k) || not (is_operand_kind k')
    then (do node' ← report node true Error.invalid_operands; ok (poison_type, node'))
    else if signedness_differs k k'
    then (do node' ← report node true Error.different_signedness; ok (poison_type, node'))
    else (do
      let size = int_max s s'
      assert (is_size size)
      let is_float = kind_eq k floatingpoint || kind_eq k' floatingpoint
      let kind = (if is_float then floatingpoint else k)
      coerce_to node (find_builtin type_names kind size none))

-- `TypeChecker::coerce_types`
unfoldable pub coerce_types : BinOp → Outcome (TypeNode × BinOp)
unfolding report coerce_basic
coerce_types node =
    let refuse = (do node' ← report node true Error.invalid_operands; ok (poison_type, node')) in
    elim (as_basic node.lhs.inferred) [
      | none ↦ refuse
      | some lhs ↦ elim (as_basic node.rhs.inferred) [
        | none ↦ refuse
        | some rhs ↦ coerce_basic node lhs rhs
      ]
    ]
