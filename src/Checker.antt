-- ===== src/Checker.antt =====
-- typecheck.cpp and node.h: what the registration of declarations and the type checker work on. The
-- state holds the nodes with the attributes that these passes set, and the visitor's or checker's own
-- fields. A method is an action of `Check`.
pub mod Compare
pub mod Casts
pub mod Expressions
pub mod Operators
pub mod Statements
pub mod Procedures
pub mod Check
pub mod Extends
pub mod Along
pub mod Rules
pub mod Sets
pub mod Puts
pub mod Stores
pub mod Bodies
pub mod Cases
pub mod Forms
pub mod Keeps
pub mod Reading
pub mod Scopes
pub mod Clean
use mathlib.Core.List.{map}
use janguage.Base.{
  ℕ, zero, suc, ◌≡◌, ◌↔◌, Bool, true, false, Bytes, List, [], ◌∷◌, ◌++◌, length, ◌==◌, ℤ, Option,
  none, some, if◌then◌else◌, Outcome, ok, abort, Abort, out_of_bounds, assertion, arith,
}
use janguage.Types.{Kind, type_names}
use janguage.Nodes.{Address, builtin, at, NodePointer, Node, Pool, node_at}

-- The messages of both passes, by the texts that they show.
pub data Error : Type 0 where
  local_procedure duplicate_declaration duplicate_label duplicate_argument : Bytes → Error
  invalid_cast invalid_operands different_signedness not_unsigned not_boolean :
      Bytes → Bytes → Error
  incompatible_assignment main_type incompatible_declaration : Bytes → Bytes → Error
  no_error_found missing_return not_callable invalid_type_cast : Error
  unknown_identifier if_condition while_condition : Bytes → Error
  too_few_arguments other_number_of_arguments : ℕ → ℕ → Error
  wrong_argument : Bytes → Bytes → Bytes → Error
  incompatible_return : Bytes → Bytes → Error

-- `inferred` is `Node::inferred_type_`, `table` is `BlockNode::declarations`, `containing_block` that
-- of a `DeclarationNode`, and `declaration_of` the `declaration` of an `IdentifierNode`.
pub record State : Type 0 where
  pub pool : Pool
  pub inferred : Address → NodePointer
  pub table : Address → List (Bytes × Address)
  pub containing_block : Address → NodePointer
  pub declaration_of : Address → NodePointer
  pub errors : List Error
  pub current_procedure : NodePointer
  pub current_block : NodePointer

-- The nodes of `BuiltinTypes`: those of `type_names`, and three more.
unfoldable pub builtin_nodes : List Node
builtin_nodes =
    map (λ (k, s, _). Node.basic_type k s) type_names
    ++ Node.nop ∷ Node.pointer_type (builtin 4) ∷ Node.procedure_signature [] false (builtin 0) ∷ []

abbrev pub voyd : Address
voyd = builtin 0

abbrev pub i64 : Address
i64 = builtin 1

abbrev pub u64 : Address
u64 = builtin 5

abbrev pub f32 : Address
f32 = builtin 9

abbrev pub f64 : Address
f64 = builtin 10

abbrev pub boolean : Address
boolean = builtin 11

abbrev pub type : Address
type = builtin 12

abbrev pub label : Address
label = builtin 13

abbrev pub poison : Address
poison = builtin 14

abbrev pub nop : Address
nop = builtin 15

abbrev pub string_literal : Address
string_literal = builtin 16

abbrev pub main_signature : Address
main_signature = builtin 17

-- The node that a pointer leads to.
unfoldable pub node_of : Pool → Address → Option Node
unfolding node_at builtin_nodes
node_of pool (builtin i) = node_at builtin_nodes i
node_of pool (at i) = node_at pool i

unfoldable pub address_eq : Address → Address → Bool
address_eq (builtin i) (builtin j) = i == j
address_eq (at i) (at j) = i == j
address_eq _ _ = false

pub address_eq_iff : (a b : Address) → (address_eq a b ≡ true) ↔ (a ≡ b)
unfolding address_eq
address_eq_iff (builtin i) (builtin j) = ground arith
address_eq_iff (at i) (at j) = ground arith
address_eq_iff (builtin i) (at j) = ground arith
address_eq_iff (at i) (builtin j) = ground arith

-- An attribute of the nodes, after an assignment to that of one node.
abbrev pub assign : {A : Type 0} → Address → A → (Address → A) → Address → A
assign a v f b = if address_eq b a then v else f b

abbrev pub Check : Type 0 → Type 0
Check A = State → Outcome (A × State)

unfoldable pub pure : {A : Type 0} → A → Check A
pure a s = ok (a, s)

unfoldable pub stop : {A : Type 0} → Abort → Check A
stop reason s = abort reason

unfoldable pub gets : {A : Type 0} → (State → A) → Check A
gets f s = ok (f s, s)

-- A computation that only reads the state.
unfoldable pub reads : {A : Type 0} → (State → Outcome A) → Check A
reads f s = elim (f s) [ ok a ↦ ok (a, s) | abort reason ↦ abort reason ]

infixl 5 ◌>>=◌ ◌>>◌
unfoldable pub ◌>>=◌ : {A B : Type 0} → Check A → (A → Check B) → Check B
unfolding pure stop gets reads
◌>>=◌ m f s = elim (m s) [ ok (a, s') ↦ f a s' | abort reason ↦ abort reason ]

abbrev pub ◌>>◌ : {B : Type 0} → Check (Unit {0}) → Check B → Check B
m >> n = m >>= λ _. n

unfoldable pub guard : Bool → Check (Unit {0})
guard true s = ok (tt, s)
guard false s = abort assertion

unfoldable pub load : Address → Check Node
load a s = elim (node_of s.pool a) [ some x ↦ ok (x, s) | none ↦ abort out_of_bounds ]

-- A pointer that is followed.
unfoldable pub follow : NodePointer → Check Address
follow (some a) s = ok (a, s)
follow none s = abort Abort.null_pointer

-- A node of the pool, replaced.
unfoldable pub replace : Pool → ℕ → Node → Pool
replace [] i y = []
replace (x ∷ xs) zero y = y ∷ xs
replace (x ∷ xs) (suc i) y = x ∷ replace xs i y

-- An assignment to fields of a node. No code assigns to a field of a builtin type.
unfoldable pub store : Address → Node → Check (Unit {0})
unfolding replace
store (builtin i) x s = abort out_of_bounds
store (at i) x s = ok (tt, record s { pool = replace s.pool i x })

-- `new (ctx) …`: a node without an inferred type.
unfoldable pub allocate : Node → Check Address
allocate x s =
    let a = at (length s.pool) in
    ok (a, record s { pool = s.pool ++ x ∷ []; inferred = assign a none s.inferred })

-- `this->errors.push_back(…)`
unfoldable pub add_error : Error → Check (Unit {0})
add_error e s = ok (tt, record s { errors = s.errors ++ e ∷ [] })

-- `SET_TEMPORARILY(this->current_block, …)`
unfoldable pub with_block : {A : Type 0} → NodePointer → Check A → Check A
with_block b m s = elim (m (record s { current_block = b })) [
  | ok (a, s') ↦ ok (a, record s' { current_block = s.current_block })
  | abort reason ↦ abort reason
]

-- `SET_TEMPORARILY(this->current_procedure, …)`
unfoldable pub with_procedure : {A : Type 0} → NodePointer → Check A → Check A
with_procedure p m s = elim (m (record s { current_procedure = p })) [
  | ok (a, s') ↦ ok (a, record s' { current_procedure = s.current_procedure })
  | abort reason ↦ abort reason
]
