-- ===== src/Checker/Expressions.antt =====
-- typecheck.cpp: the cases of `TypeChecker::typecheck_internal` for expressions. `typecheck` is the
-- method of this name, for the nodes below.
use janguage.Base.{
  ℕ, zero, suc, Bool, true, false, not, Bytes, bytes_eq, List, [], ◌∷◌, length, ltb, ◌==◌,
  if◌then◌else◌, none, some, Outcome, ok, abort, out_of_bounds, out_of_fuel,
}
use janguage.Token.{TokenType}
use janguage.Nodes.{Address, NodePointer, Node}
use janguage.Nodes.Context.{is_null}
use janguage.Checker.{
  Error, State, Check, node_of, assign, pure, gets, reads, guard, load, follow, with_block, ◌>>=◌,
  ◌>>◌,
}
use janguage.Checker.Compare.{types_equal, is_poisoned, type_to_string, argument_type}
use janguage.Checker.Operators.{check_operands}
use janguage.Checker.Casts.{init_expression, set_inferred_type, report, spread_poison, read_field}

-- `declarations.find(name)`
unfoldable pub find : Bytes → List (Bytes × Address) → NodePointer
find name [] = none
find name ((n, d) ∷ table) = if bytes_eq n name then some d else find name table

-- `BlockNode::find_declaration`, on fuel for the parent blocks.
unfoldable pub find_declaration_within : ℕ → State → Address → Bytes → Outcome NodePointer
unfolding find node_of
find_declaration_within zero s block name = abort out_of_fuel
find_declaration_within (suc fuel) s block name = elim (find name (s.table block)) [
  | some d ↦ ok (some d)
  | none ↦ elim (node_of s.pool block) [
    | some (Node.block statements (some parent) kind) ↦ find_declaration_within fuel s parent name
    | some (Node.block statements none kind) ↦ ok none
    | _ ↦ abort out_of_bounds
  ]
]

unfoldable pub find_declaration : State → Address → Bytes → Outcome NodePointer
unfolding find_declaration_within
find_declaration s block name = find_declaration_within (suc (length s.pool)) s block name

-- `ident->declaration = decl`
unfoldable pub set_declaration : Address → Address → Check (Unit {0})
set_declaration a d s = ok (tt, record s { declaration_of = assign a (some d) s.declaration_of })

-- The identifier of a declaration.
unfoldable pub declared_name : Node → Bytes
declared_name (Node.declaration name _ _ _) = name
declared_name _ = []

module _ (typecheck : NodePointer → Check (Unit {0})) where
  unfoldable pub check_binary_operator : TokenType → Address → Address → Address → Check (Unit {0})
  unfolding check_operands
  check_binary_operator kind l r a = do
    typecheck (some l)
    typecheck (some r)
    check_operands kind a

  -- The declaration that an identifier is found to have is checked first.
  unfoldable pub check_before_use : Address → Check (Unit {0})
  unfolding read_field
  check_before_use d = do
    init ← read_field init_expression d
    type ← gets (λ s. s.inferred init)
    block ← gets (λ s. s.containing_block d)
    if is_null type then with_block block (typecheck (some d)) else pure tt

  unfoldable pub check_found : Address → Bytes → NodePointer → Check (Unit {0})
  unfolding set_declaration check_before_use set_inferred_type
  check_found a name none = report a true (Error.unknown_identifier name)
  check_found a name (some d) = do
    set_declaration a d
    check_before_use d
    init ← read_field init_expression d
    type ← gets (λ s. s.inferred init)
    guard (not (is_null type))
    t ← follow type
    set_inferred_type a t

  -- `identifier`
  unfoldable pub check_identifier : Address → Bytes → Check (Unit {0})
  unfolding check_found find_declaration
  check_identifier a name = do
    current ← gets (λ s. s.current_block)
    block ← follow current
    found ← reads (λ s. find_declaration s block name)
    check_found a name found

  -- `TypeChecker::typecheck_and_spread_poison`
  unfoldable pub typecheck_and_spread_poison : Address → Address → Check Bool
  unfolding spread_poison
  typecheck_and_spread_poison a parent = do
    type ← gets (λ s. s.inferred a)
    guard (is_null type)
    typecheck (some a)
    spread_poison a parent

  -- An argument of a call, where the signature has one in its place.
  unfoldable pub compare_argument : Address → Address → Address → Check (Unit {0})
  unfolding argument_type report declared_name
  compare_argument a argument expected = do
    type ← gets (λ s. s.inferred argument)
    wanted ← reads (λ s. argument_type s expected)
    same ← reads (λ s. types_equal s type wanted)
    if same then pure tt else (do
      x ← load expected
      wanted_text ← reads (λ s. type_to_string s wanted)
      text ← reads (λ s. type_to_string s type)
      report a false (Error.wrong_argument (declared_name x) wanted_text text))

  -- An argument of a call, with that of the signature in its place if there is one.
  unfoldable pub check_argument : Address → NodePointer → NodePointer → Check (Unit {0})
  unfolding compare_argument
  check_argument a p none = do
    typecheck p
    argument ← follow p
    reads (λ s. is_poisoned s argument) >>= λ _. pure tt
  check_argument a p (some expected) = do
    typecheck p
    argument ← follow p
    poisoned ← reads (λ s. is_poisoned s argument)
    if poisoned then pure tt else compare_argument a argument expected

  -- The loop over the arguments of a call, with the arguments of the signature that are left.
  unfoldable pub check_arguments : Address → List NodePointer → List Address → Check (Unit {0})
  unfolding check_argument
  check_arguments a [] expected = pure tt
  check_arguments a (p ∷ ps) [] = do check_argument a p none; check_arguments a ps []
  check_arguments a (p ∷ ps) (e ∷ es) = do check_argument a p (some e); check_arguments a ps es

  -- A call, by the type of its procedure expression.
  unfoldable pub check_call_of : Address → List NodePointer → Node → Check (Unit {0})
  unfolding check_arguments
  check_call_of a arguments (Node.procedure_signature expected is_vararg return_type) = do
    set_inferred_type a return_type
    if is_vararg
        then (if ltb (length arguments) (length expected)
            then report a false (Error.too_few_arguments (length expected) (length arguments))
            else check_arguments a arguments expected)
        else (if length arguments == length expected
            then check_arguments a arguments expected
            else report a false
                (Error.other_number_of_arguments (length arguments) (length expected)))
  check_call_of a arguments _ = report a true Error.not_callable

  -- `procedure_call`
  unfoldable pub check_call : Address → Address → List NodePointer → Check (Unit {0})
  unfolding check_call_of typecheck_and_spread_poison
  check_call a callee arguments = do
    poisoned ← typecheck_and_spread_poison callee a
    if poisoned then pure tt else (do
      type ← gets (λ s. s.inferred callee)
      t ← follow type
      x ← load t
      check_call_of a arguments x)
