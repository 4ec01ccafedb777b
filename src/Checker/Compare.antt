-- ===== src/Checker/Compare.antt =====
-- node.cpp: `Node::types_equal` and `Node::type_to_string` on the nodes of the pool. Both follow
-- pointers to any depth, on fuel: one more than the pool and the builtin types have nodes, which a
-- chain of different types is not longer than. A type that contains itself, which the code never
-- comes to the end of, runs out of it.
use janguage.Base.{
  ℕ, zero, suc, ◌+◌, Bool, true, false, bool_ne, ◌&&◌, Bytes, List, [], ◌∷◌, ◌++◌, length, ◌==◌,
  if◌then◌else◌, codes, int_eq, none, some, Outcome, ok, abort, assertion, null_pointer,
  out_of_bounds, out_of_fuel, ◌>>=◌, ◌>>◌, assert,
}
use janguage.Ast.{uint64}
use janguage.Types.{
  kind_eq, Length, integer, other_literal, expression, lengths_equal, and_then, type_names,
  basic_name,
}
use janguage.Nodes.{Address, NodePointer, Node, is_type_node, assert_pointer}
use janguage.Checker.{State, node_of, poison}

-- The node at an address that is followed.
unfoldable pub node_at_address : State → Address → Outcome Node
unfolding node_of
node_at_address s a = elim (node_of s.pool a) [ some x ↦ ok x | none ↦ abort out_of_bounds ]

-- What `types_equal` reads of an array's length expression.
unfoldable pub length_of : Node → Length
length_of (Node.literal (uint64 n) _) = integer n
length_of (Node.literal _ _) = other_literal
length_of _ = expression

-- `argument->init_expression->inferred_type()`
unfoldable pub argument_type : State → Address → Outcome NodePointer
unfolding node_at_address
argument_type s argument = node_at_address s argument >>= λ x. elim x [
  | Node.declaration name specified init is_argument ↦ ok (s.inferred init)
  | _ ↦ abort out_of_bounds
]

module _ (types_equal_below : NodePointer → NodePointer → Outcome Bool) (s : State) where
  -- The loop over the arguments of two signatures.
  unfoldable pub arguments_match : List Address → List Address → Outcome Bool
  unfolding argument_type
  arguments_match [] _ = ok true
  arguments_match (a ∷ as') [] = ok true
  arguments_match (a ∷ as') (b ∷ bs) =
      let rest = arguments_match as' bs in
      argument_type s a >>= λ t. argument_type s b >>= λ u. and_then (types_equal_below t u) rest

  -- The switch over the kind of two types.
  unfoldable pub nodes_match : Node → Node → Outcome Bool
  unfolding arguments_match length_of lengths_equal
  nodes_match (Node.basic_type k n) (Node.basic_type k' n') = ok (kind_eq k k' && int_eq n n')
  nodes_match (Node.pointer_type t) (Node.pointer_type t') = types_equal_below (some t) (some t')
  nodes_match (Node.array_type n t) (Node.array_type n' t') =
      and_then (types_equal_below (some t) (some t')) (
        node_at_address s n >>= λ x.
        node_at_address s n' >>= λ y. lengths_equal (length_of x) (length_of y))
  nodes_match (Node.procedure_signature args v r) (Node.procedure_signature args' v' r') =
      if bool_ne v v'
      then ok false
      else and_then (types_equal_below (some r) (some r'))
          (if length args == length args' then arguments_match args args' else ok false)
  nodes_match Node.nop Node.nop = ok true
  nodes_match _ _ = ok false

-- `Node::types_equal`
unfoldable pub types_equal_within : ℕ → State → NodePointer → NodePointer → Outcome Bool
unfolding nodes_match assert_pointer is_type_node
types_equal_within zero s a b = abort out_of_fuel
types_equal_within (suc fuel) s a b = assert_pointer a >>= λ a. assert_pointer b >>= λ b.
    node_at_address s a >>= λ x. node_at_address s b >>= λ y.
    assert (is_type_node x && is_type_node y) >> nodes_match (types_equal_within fuel s) s x y

-- One more than there are nodes.
abbrev pub depth_limit : State → ℕ
depth_limit s = suc (18 + length s.pool)

unfoldable pub types_equal : State → NodePointer → NodePointer → Outcome Bool
unfolding types_equal_within
types_equal s a b = types_equal_within (depth_limit s) s a b

-- `Node::is_poisoned`
unfoldable pub is_poisoned : State → Address → Outcome Bool
unfolding types_equal
is_poisoned s a = types_equal s (s.inferred a) (some poison)

module _ (to_string_below : NodePointer → Outcome Bytes) (s : State) where
  -- The loop over the arguments of a signature.
  unfoldable pub arguments_text : List Address → Outcome Bytes
  unfolding argument_type
  arguments_text [] = ok []
  arguments_text (a ∷ []) = argument_type s a >>= to_string_below
  arguments_text (a ∷ b ∷ as') =
      let rest = arguments_text (b ∷ as') in
      argument_type s a >>= λ t.
      to_string_below t >>= λ first. rest >>= λ others. ok (first ++ (codes ", " ++ others))

  unfoldable pub node_text : Node → Outcome Bytes
  unfolding arguments_text basic_name
  node_text (Node.procedure_signature args v r) = arguments_text args >>= λ arguments.
      to_string_below (some r) >>= λ result.
      ok (codes "proc(" ++ (arguments ++ (codes ") " ++ result)))
  node_text (Node.basic_type k n) = basic_name type_names k n
  node_text (Node.pointer_type t) = to_string_below (some t) >>= λ target. ok (codes "*" ++ target)
  node_text (Node.array_type n t) =
      to_string_below (some t) >>= λ element. ok (codes "[...]" ++ element)
  node_text Node.nop = ok (codes "(nothing)")
  node_text _ = abort assertion

-- `Node::type_to_string`
unfoldable pub type_to_string_within : ℕ → State → NodePointer → Outcome Bytes
unfolding node_text
type_to_string_within zero s a = abort out_of_fuel
type_to_string_within (suc fuel) s none = abort null_pointer
type_to_string_within (suc fuel) s (some a) =
    node_at_address s a >>= node_text (type_to_string_within fuel s) s

unfoldable pub type_to_string : State → NodePointer → Outcome Bytes
unfolding type_to_string_within
type_to_string s a = type_to_string_within (depth_limit s) s a
