-- ===== src/Typecheck/Poison.antt =====
-- typecheck.cpp: poisoned operands, and `do_implicit_cast_if_necessary` on all types.
use janguage.Base.{
  ◌≡◌, ◌≢◌, ◌⊎◌, inl, inr, Bytes, Bool, true, false, List, ◌∷◌, length, length-append, ◌+◌, none,
  some, refl, Outcome, ok, abort, arith, Bool-cases,
}
use janguage.Types.{TypeNode, basic, types_equal, type_to_string}
use janguage.Types.Equal.{comparable, anonymous, types_equal_iff}
use janguage.Typecheck.Casts.{
  Error, Operand, BinOp, both_numerical, poison_type, set_inferred_type,
  do_implicit_cast_if_necessary, spread_poison,
}
use janguage.Typecheck.Check.{check_binary_operator}

poison-cases :
    (t : TypeNode) → (types_equal t poison_type ≡ ok true) ⊎ (types_equal t poison_type ≡ ok false)
unfolding types_equal
poison-cases (basic k s) = ground arith
poison-cases _ = inr refl

poison-poison : types_equal poison_type poison_type ≡ ok true
unfolding types_equal
poison-poison = refl

-- A fresh operator with a poisoned operand, on either side, becomes poisoned, whatever the other
-- operand and the operator are; nothing else changes, and no error is reported.
pub check_binary_operator-poison :
    (node : BinOp)
    → node.inferred ≡ none
    → (node.lhs.inferred ≡ poison_type) ⊎ (node.rhs.inferred ≡ poison_type)
    → check_binary_operator node ≡ ok (record node { inferred = some poison_type })
unfolding check_binary_operator spread_poison set_inferred_type
check_binary_operator-poison node e (inl p) = rw (p, poison-poison, e)
check_binary_operator-poison node e (inr p) = elim (poison-cases node.lhs.inferred) [
  | inl q ↦ rw (q, e)
  | inr q ↦ rw (q, p, poison-poison, e)
]

-- The result of an implicit cast. With `true`, the operand has a type that equals the target, and
-- at most one cast more, to it, put there between numbers. With `false`, the types differ and are
-- not both numerical, the operand is as it was, and there is one error more.
abbrev pub IsCast : Operand → TypeNode → List Error → Outcome (Bool × Operand × List Error) → Type 0
IsCast node type errors (ok (true, node', errors')) =
    (anonymous node'.inferred ≡ anonymous type)
    × (errors' ≡ errors)
    × ((node' ≡ node)
        ⊎ ((both_numerical node.inferred type ≡ true)
            × (node' ≡ record { inferred = type; casts = type ∷ node.casts })))
IsCast node type errors (ok (false, node', errors')) =
    (anonymous node.inferred ≢ anonymous type)
    × (both_numerical node.inferred type ≡ false)
    × (node' ≡ node)
    × (length errors' ≡ length errors + 1)
IsCast node type errors (abort _) = ⊥

-- An implicit cast between comparable types that have names, to a type that is not the poison type,
-- returns: the operand with a type that equals the target, under at most one cast, which is between
-- numbers; or, exactly on different types that are not both numerical, one error.
pub do_implicit_cast_if_necessary-IsCast :
    (node : Operand) (type : TypeNode) (errors : List Error) (from_name to_name : Bytes)
    → comparable node.inferred ≡ true
    → comparable type ≡ true
    → type_to_string node.inferred ≡ ok from_name
    → type_to_string type ≡ ok to_name
    → types_equal type poison_type ≡ ok false
    → IsCast node type errors (do_implicit_cast_if_necessary node (some type) errors)
unfolding do_implicit_cast_if_necessary
do_implicit_cast_if_necessary-IsCast node type errors from_name to_name h h' s s' n =
    let (same, e, (to, from)) = types_equal_iff node.inferred type h h' in
    elim (Bool-cases same) [
      | inl t ↦ rw (n, e, t) (to t, refl, inl refl)
      | inr f ↦ elim (Bool-cases (both_numerical node.inferred type)) [
        | inl numbers ↦ rw (n, e, f, numbers) (refl, refl, inr (numbers, refl))
        | inr others ↦
            rw (n, e, f, others, s, s')
              (λ a. cc (from a), others, refl, grind (arith, length-append))
      ]
    ]
