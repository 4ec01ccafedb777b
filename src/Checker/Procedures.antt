-- ===== src/Checker/Procedures.antt =====
-- typecheck.cpp: the cases of `TypeChecker::typecheck_internal` for procedures, their signatures and
-- return statements.
use janguage.Base.{
  Bool, true, false, not, bool_ne, List, [], ◌∷◌, ◌++◌, if◌then◌else◌, none, some, Outcome, ok,
  abort, out_of_bounds,
}
use janguage.Nodes.{Address, NodePointer, Node}
use janguage.Nodes.Context.{is_null}
use janguage.Checker.{
  Error, State, Check, voyd, type, node_of, pure, gets, reads, guard, load, follow, store, allocate,
  with_procedure, ◌>>=◌, ◌>>◌,
}
use janguage.Checker.Compare.{types_equal, is_poisoned}
use janguage.Checker.Casts.{
  expression, set_inferred_type, report, report_types, cast_field, read_field,
}
use janguage.Checker.Expressions.{typecheck_and_spread_poison}

-- Whether one of the statements is a return statement.
unfoldable pub has_return : State → List NodePointer → Bool
unfolding node_of
has_return s [] = false
has_return s (none ∷ ps) = has_return s ps
has_return s (some a ∷ ps) = elim (node_of s.pool a) [
  | some (Node.return_statement _) ↦ true
  | _ ↦ has_return s ps
]

-- `body->statements`
unfoldable pub statements_of : Node → Outcome (List NodePointer)
statements_of (Node.block statements _ _) = ok statements
statements_of _ = abort out_of_bounds

unfoldable pub with_statement : NodePointer → Node → Node
with_statement p (Node.block statements parent kind) = Node.block (statements ++ p ∷ []) parent kind
with_statement p x = x

-- The implicit return statement of a procedure without a result.
unfoldable pub add_return : Address → Check (Unit {0})
unfolding with_statement
add_return body = do
  nothing ← allocate Node.nop
  r ← allocate (Node.return_statement nothing)
  x ← load body
  store body (with_statement (some r) x)

-- `signature->return_type`
unfoldable pub return_type_of : Node → Outcome Address
return_type_of (Node.procedure_signature _ _ return_type) = ok return_type
return_type_of _ = abort out_of_bounds

-- `proc->signature`
unfoldable pub signature_of : Node → Outcome Address
signature_of (Node.procedure signature _ _) = ok signature
signature_of _ = abort out_of_bounds

-- A procedure's body, once it is checked.
unfoldable pub check_returns : Address → Address → Address → Check (Unit {0})
unfolding statements_of has_return return_type_of report add_return
check_returns a signature body = do
  x ← load body
  statements ← reads (λ _. statements_of x)
  got_return ← gets (λ s. has_return s statements)
  if got_return then pure tt else (do
    y ← load signature
    return_type ← reads (λ _. return_type_of y)
    nothing ← reads (λ s. types_equal s (some return_type) (some voyd))
    if nothing then add_return body else report a false Error.missing_return)

-- The expression of a return statement against the result of the procedure around it.
unfoldable pub check_result : Address → Check (Unit {0})
unfolding signature_of return_type_of cast_field read_field report_types
check_result a = do
  current ← gets (λ s. s.current_procedure)
  p ← follow current
  x ← load p
  signature ← reads (λ _. signature_of x)
  y ← load signature
  return_type ← reads (λ _. return_type_of y)
  nothing ← reads (λ s. types_equal s (some return_type) (some voyd))
  if nothing then pure tt else (do
    done ← cast_field expression a (some return_type)
    if done then pure tt else (do
      e ← read_field expression a
      u ← gets (λ s. s.inferred e)
      report_types a false Error.incompatible_return (some return_type) u))

module _ (typecheck : NodePointer → Check (Unit {0})) where
  -- The body of a procedure that has one.
  unfoldable pub check_body : Address → Address → NodePointer → Check (Unit {0})
  unfolding check_returns
  check_body a signature none = pure tt
  check_body a signature (some body) = do typecheck (some body); check_returns a signature body

  -- `procedure`
  unfoldable pub check_procedure : Address → Address → NodePointer → Bool → Check (Unit {0})
  unfolding check_body set_inferred_type typecheck_and_spread_poison
  check_procedure a signature body is_external = do
    guard (not (bool_ne (is_null body) is_external))
    with_procedure (some a) (do
      typecheck_and_spread_poison typecheck signature a >>= λ _. (do
        t ← gets (λ s. s.inferred a)
        if is_null t then set_inferred_type a signature else pure tt
        check_body a signature body))

  -- The loop over the arguments of a signature.
  unfoldable pub check_signature_arguments : Address → List Address → Check (Unit {0})
  unfolding typecheck_and_spread_poison
  check_signature_arguments a [] = pure tt
  check_signature_arguments a (d ∷ ds) =
      typecheck_and_spread_poison typecheck d a >>= λ _. check_signature_arguments a ds

  -- `procedure_signature`
  unfoldable pub check_signature : Address → List Address → Check (Unit {0})
  unfolding check_signature_arguments set_inferred_type
  check_signature a arguments = do
    check_signature_arguments a arguments
    t ← gets (λ s. s.inferred a)
    if is_null t then set_inferred_type a type else pure tt

  -- `return_statement`
  unfoldable pub check_return : Address → Address → Check (Unit {0})
  unfolding check_result set_inferred_type
  check_return a e = do
    set_inferred_type a voyd
    typecheck (some e)
    poisoned ← reads (λ s. is_poisoned s e)
    if poisoned then pure tt else check_result a
