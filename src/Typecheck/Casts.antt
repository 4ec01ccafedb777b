-- ===== src/Typecheck/Casts.antt =====
-- typecheck.cpp: `BinOp` is a binary operator's node and the checker's list of errors. An operand
-- is an expression node that has been checked, so that its inferred type is set; `casts` are the
-- target types of the cast nodes that the checker has put around it, the outermost first.
use janguage.Base.{
  Bool, true, false, not, ◌&&◌, ◌||◌, Bytes, List, [], ◌∷◌, ◌++◌, if◌then◌else◌, Option, none, some,
  ℤ, pos, negsuc, int_eq, Outcome, ok, abort, null_pointer, ◌>>=◌, ◌>>◌, assert,
}
use janguage.Token.{TokenType}
use janguage.Types.{
  Kind, boolean, signed_integer, unsigned_integer, voyd, poison, kind_eq, is_numerical, TypeNode,
  basic, nop, types_equal, type_to_string,
}

-- The messages of the type checker, by the types that they show.
pub data Error : Type 0 where
  invalid_cast invalid_operands different_signedness : Bytes → Bytes → Error
  not_unsigned not_boolean incompatible_assignment : Bytes → Bytes → Error

pub record Operand : Type 0 where
  pub inferred : TypeNode
  pub casts : List TypeNode

pub record BinOp : Type 0 where
  pub operator_kind : TokenType
  pub lhs : Operand
  pub rhs : Operand
  pub inferred : Option TypeNode
  pub errors : List Error

abbrev pub poison_type : TypeNode
poison_type = basic poison (negsuc 0)

abbrev pub boolean_type : TypeNode
boolean_type = basic boolean (pos 1)

abbrev pub voyd_type : TypeNode
voyd_type = basic voyd (negsuc 0)

abbrev or_else : Outcome Bool → Outcome Bool → Outcome Bool
or_else first second = first >>= λ b. if b then ok true else second

-- `Node::set_inferred_type`
unfoldable pub set_inferred_type : BinOp → TypeNode → Outcome BinOp
set_inferred_type node type = do
  fresh ← elim node.inferred [
    | none ↦ ok true
    | some old ↦ or_else (types_equal old poison_type) (types_equal old nop)
  ]
  assert fresh
  ok (record node { inferred = some type })

abbrev message : (Bytes → Bytes → Error) → TypeNode → TypeNode → Outcome Error
message kind a b = do left ← type_to_string a; right ← type_to_string b; ok (kind left right)

-- `TypeChecker::error` on the operator's node.
unfoldable pub report : BinOp → Bool → (Bytes → Bytes → Error) → Outcome BinOp
unfolding set_inferred_type
report node poisons kind = do
  e ← message kind node.lhs.inferred node.rhs.inferred
  node' ← (if poisons then set_inferred_type node poison_type else ok node)
  ok (record node' { errors = node'.errors ++ e ∷ [] })

-- `node_cast<BasicTypeNode>`
abbrev pub as_basic : TypeNode → Option (Kind × ℤ)
as_basic (basic k s) = some (k, s)
as_basic _ = none

abbrev pub both_numerical : TypeNode → TypeNode → Bool
both_numerical a b = elim (as_basic a) [
  | none ↦ false
  | some (k, _) ↦ elim (as_basic b) [
    | none ↦ false
    | some (k', _) ↦ is_numerical k && is_numerical k'
  ]
]

-- `TypeChecker::do_implicit_cast_if_necessary`, with the errors so far. A null type is `none`.
unfoldable pub do_implicit_cast_if_necessary :
    Operand → Option TypeNode → List Error → Outcome (Bool × Operand × List Error)
do_implicit_cast_if_necessary node none errors = abort null_pointer
do_implicit_cast_if_necessary node (some type) errors = do
  poisoned ← types_equal type poison_type
  assert (not poisoned)
  same ← types_equal node.inferred type
  (if same
      then ok (true, node, errors)
      else if both_numerical node.inferred type
      then ok (true, record { inferred = type; casts = type ∷ node.casts }, errors)
      else (do
        e ← message Error.invalid_cast node.inferred type
        ok (false, node, errors ++ e ∷ [])))

-- The loop of `coerce_types` over the builtin types: the last match counts, a null type if none.
unfoldable pub find_builtin : List (Kind × ℤ × Bytes) → Kind → ℤ → Option TypeNode → Option TypeNode
find_builtin [] kind size type = type
find_builtin ((k, s, _) ∷ names) kind size type =
    find_builtin names kind size
      (if kind_eq k kind && int_eq s size then some (basic k s) else type)

-- `spread_poison` from an operand to the operator.
unfoldable pub spread_poison : Operand → BinOp → Outcome (Bool × BinOp)
unfolding set_inferred_type
spread_poison from node = do
  poisoned ← types_equal from.inferred poison_type
  (if poisoned
      then (do node' ← set_inferred_type node poison_type; ok (true, node'))
      else ok (false, node))

abbrev pub cast_lhs : BinOp → Option TypeNode → Outcome (Bool × BinOp)
cast_lhs node type = do
  (done, lhs, errors) ← do_implicit_cast_if_necessary node.lhs type node.errors
  ok (done, record node { lhs = lhs; errors = errors })

abbrev pub cast_rhs : BinOp → Option TypeNode → Outcome (Bool × BinOp)
cast_rhs node type = do
  (done, rhs, errors) ← do_implicit_cast_if_necessary node.rhs type node.errors
  ok (done, record node { rhs = rhs; errors = errors })

abbrev pub is_size : ℤ → Bool
is_size s = int_eq s (pos 1) || int_eq s (pos 2) || int_eq s (pos 4) || int_eq s (pos 8)

abbrev pub is_operand_kind : Kind → Bool
is_operand_kind k = is_numerical k || kind_eq k boolean

abbrev pub signedness_differs : Kind → Kind → Bool
signedness_differs k k' =
    (kind_eq k signed_integer && kind_eq k' unsigned_integer)
    || (kind_eq k unsigned_integer && kind_eq k' signed_integer)
