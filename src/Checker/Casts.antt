-- ===== src/Checker/Casts.antt =====
-- typecheck.cpp: `TypeChecker::error`, `spread_poison`, `do_implicit_cast_if_necessary` and
-- `coerce_types` on the nodes of the pool. A `Node *&` is the field of a node that it refers to.
use janguage.Base.{
  ℕ, suc, Bool, true, false, not, ◌&&◌, ◌||◌, Bytes, List, [], ◌∷◌, if◌then◌else◌, ℤ, int_max,
  int_eq, Option, none, some, Outcome, ok, abort,
}
use janguage.Types.{Kind, floatingpoint, kind_eq, is_numerical, type_names}
use janguage.Typecheck.Casts.{is_size, is_operand_kind, signedness_differs}
use janguage.Nodes.{Address, builtin, NodePointer, Node, is_type_node}
use janguage.Nodes.Context.{is_null}
use janguage.Checker.{
  Error, State, Check, poison, nop, node_of, assign, pure, gets, reads, guard, load, follow, store,
  allocate, add_error, ◌>>=◌, ◌>>◌,
}
use janguage.Checker.Compare.{types_equal, is_poisoned, type_to_string}

-- Writes an inferred type.
unfoldable pub put_type : Address → Address → Check (Unit {0})
put_type a t s = ok (tt, record s { inferred = assign a (some t) s.inferred })

-- Whether an inferred type may be set in place of another.
unfoldable pub is_replaceable : State → NodePointer → Outcome Bool
unfolding types_equal
is_replaceable s none = ok true
is_replaceable s (some old) = elim (types_equal s (some old) (some poison)) [
  | ok true ↦ ok true
  | ok false ↦ types_equal s (some old) (some nop)
  | abort reason ↦ abort reason
]

-- `Node::set_inferred_type`
unfoldable pub set_inferred_type : Address → Address → Check (Unit {0})
unfolding put_type is_replaceable
set_inferred_type a t = do
  old ← gets (λ s. s.inferred a)
  fresh ← reads (λ s. is_replaceable s old)
  guard fresh
  put_type a t

-- `TypeChecker::error`
unfoldable pub report : Address → Bool → Error → Check (Unit {0})
unfolding set_inferred_type add_error
report a poisons e = do if poisons then set_inferred_type a poison else pure tt; add_error e

-- An error that shows two types.
unfoldable pub report_types :
    Address → Bool → (Bytes → Bytes → Error) → NodePointer → NodePointer → Check (Unit {0})
unfolding report type_to_string
report_types a poisons kind t u = do
  left ← reads (λ s. type_to_string s t)
  right ← reads (λ s. type_to_string s u)
  report a poisons (kind left right)

unfoldable pub spread_poison : Address → Address → Check Bool
unfolding set_inferred_type is_poisoned
spread_poison from to = do
  poisoned ← reads (λ s. is_poisoned s from)
  if poisoned then (do set_inferred_type to poison; pure true) else pure false

-- `node_cast<BasicTypeNode>`
unfoldable pub as_basic : State → NodePointer → Option (Kind × ℤ)
unfolding node_of
as_basic s none = none
as_basic s (some a) = elim (node_of s.pool a) [
  | some (Node.basic_type k n) ↦ some (k, n)
  | _ ↦ none
]

unfoldable pub both_numerical : Option (Kind × ℤ) → Option (Kind × ℤ) → Bool
both_numerical (some (k, _)) (some (k', _)) = is_numerical k && is_numerical k'
both_numerical _ _ = false

abbrev pub is_nop : Node → Bool
is_nop Node.nop = true
is_nop _ = false

-- `Context::make_type_cast`
unfoldable pub make_type_cast : Address → Address → Check Address
unfolding is_type_node load guard allocate
make_type_cast target e = do
  t ← load target
  guard (is_type_node t)
  x ← load e
  guard (not (is_type_node x))
  allocate (Node.type_cast target e)

-- The branch with a cast node around the expression. The result says whether the cast is done, and what
-- the pointer to the expression is then.
unfoldable pub put_cast : Address → Address → Check (Bool × Address)
unfolding make_type_cast set_inferred_type
put_cast a t = do cast ← make_type_cast t a; set_inferred_type cast t; pure (true, cast)

-- The branch with an error.
unfoldable pub refuse_cast : Address → Address → NodePointer → Check (Bool × Address)
unfolding report_types
refuse_cast a t from = do
  report_types a (is_null from) Error.invalid_cast from (some t)
  pure (false, a)

unfoldable pub cast_or_report : Address → Address → Check (Bool × Address)
unfolding both_numerical as_basic put_cast refuse_cast
cast_or_report a t = do
  can_cast ← gets (λ s. both_numerical (as_basic s (s.inferred a)) (as_basic s (some t)))
  from ← gets (λ s. s.inferred a)
  if can_cast then put_cast a t else refuse_cast a t from

-- `TypeChecker::do_implicit_cast_if_necessary`
unfoldable pub do_implicit_cast_if_necessary : Address → NodePointer → Check (Bool × Address)
unfolding cast_or_report follow types_equal
do_implicit_cast_if_necessary a type = do
  t ← follow type
  y ← load t
  guard (is_type_node y)
  poisoned ← reads (λ s. types_equal s (some t) (some poison))
  guard (not poisoned)
  x ← load a
  guard (not (is_type_node x) || is_nop x)
  same ← reads (λ s. types_equal s (s.inferred a) (some t))
  if same then pure (true, a) else cast_or_report a t

-- The fields that a cast may be put into.
pub data Field : Type 0 where
  lhs rhs init_expression expression : Field

unfoldable pub field_of : Field → Node → NodePointer
field_of lhs (Node.binary_operator _ l _) = some l
field_of rhs (Node.binary_operator _ _ r) = some r
field_of init_expression (Node.declaration _ _ init _) = some init
field_of expression (Node.return_statement e) = some e
field_of _ _ = none

unfoldable pub with_field : Field → Address → Node → Node
with_field lhs a (Node.binary_operator kind l r) = Node.binary_operator kind a r
with_field rhs a (Node.binary_operator kind l r) = Node.binary_operator kind l a
with_field init_expression a (Node.declaration name type init is_argument) =
    Node.declaration name type a is_argument
with_field expression a (Node.return_statement e) = Node.return_statement a
with_field _ a x = x

-- `do_implicit_cast_if_necessary` on a field of a node.
unfoldable pub cast_field : Field → Address → NodePointer → Check Bool
unfolding do_implicit_cast_if_necessary field_of with_field load store follow
cast_field f a type = do
  x ← load a
  e ← follow (field_of f x)
  (done, e') ← do_implicit_cast_if_necessary e type
  store a (with_field f e' x)
  pure done

-- A field of a node.
unfoldable pub read_field : Field → Address → Check Address
unfolding load follow field_of
read_field f a = do x ← load a; follow (field_of f x)

-- The loop of `coerce_types` over the builtin types: the last match counts.
unfoldable pub find_builtin_type :
    List (Kind × ℤ × Bytes) → ℕ → Kind → ℤ → NodePointer → NodePointer
find_builtin_type [] i kind size type = type
find_builtin_type ((k, n, _) ∷ names) i kind size type =
    find_builtin_type names (suc i) kind size
      (if kind_eq k kind && int_eq n size then some (builtin i) else type)

-- The casts of `coerce_types`.
unfoldable pub coerce_operands : Address → NodePointer → Check Address
unfolding cast_field spread_poison read_field
coerce_operands a type = do
  left ← cast_field lhs a type
  if left
      then (do
        right ← cast_field rhs a type
        if right
            then follow type
            else (do r ← read_field rhs a; spread_poison r a >>= λ _. pure poison))
      else (do l ← read_field lhs a; spread_poison l a >>= λ _. pure poison)

-- `coerce_types` on two basic types.
unfoldable pub coerce_kinds : Address → Kind × ℤ → Kind × ℤ → Check Address → Check Address
unfolding report_types find_builtin_type coerce_operands
coerce_kinds a (k, n) (k', n') refuse =
    let size = int_max n n' in
    let kind = (if kind_eq k floatingpoint || kind_eq k' floatingpoint then floatingpoint else k) in
    if not (is_operand_kind k) || not (is_operand_kind k')
    then refuse
    else if signedness_differs k k'
    then (do
      l ← read_field lhs a
      r ← read_field rhs a
      t ← gets (λ s. s.inferred l)
      u ← gets (λ s. s.inferred r)
      report_types a true Error.different_signedness t u
      pure poison)
    else (guard (is_size size) >> coerce_operands a (find_builtin_type type_names 0 kind size none))

unfoldable pub coerce_pair :
    Address → Option (Kind × ℤ) → Option (Kind × ℤ) → Check Address → Check Address
unfolding coerce_kinds
coerce_pair a (some l) (some r) refuse = coerce_kinds a l r refuse
coerce_pair a none _ refuse = refuse
coerce_pair a (some l) none refuse = refuse

-- `TypeChecker::coerce_types`
unfoldable pub coerce_types : Address → Check Address
unfolding coerce_pair as_basic read_field
coerce_types a = do
  l ← read_field lhs a
  r ← read_field rhs a
  t ← gets (λ s. s.inferred l)
  u ← gets (λ s. s.inferred r)
  left ← gets (λ s. as_basic s t)
  right ← gets (λ s. as_basic s u)
  coerce_pair a left right (report_types a true Error.invalid_operands t u >>= λ _. pure poison)
