-- ===== src/Types.antt =====
-- node.h and node.cpp: the types of the language, `types_equal` and `type_to_string`. A type node
-- is a tree; what these functions read of other nodes is a part of it: the literal in an array's
-- length, and the inferred type of an argument's init expression.
pub mod Equal
pub mod Names
use janguage.Base.{
  ℕ, ◌+◌, Bool, true, false, not, bool_ne, ◌&&◌, ◌||◌, Bytes, List, [], ◌∷◌, ◌++◌, ◌==◌,
  if◌then◌else◌, codes, ℤ, pos, negsuc, int_eq, Outcome, ok, abort, fatal, unreached, todo,
  assertion, null_pointer, ◌>>=◌,
}

-- `BasicTypeNode::Kind`
pub data Kind : Type 0 where
  unchecked voyd boolean signed_integer unsigned_integer floatingpoint type label poison : Kind

-- The value of the enumerator.
abbrev pub kind_code : Kind → ℕ
kind_code unchecked = 0
kind_code voyd = 1
kind_code boolean = 2
kind_code signed_integer = 3
kind_code unsigned_integer = 4
kind_code floatingpoint = 5
kind_code type = 6
kind_code label = 7
kind_code poison = 8

abbrev pub kind_eq : Kind → Kind → Bool
kind_eq a b = kind_code a == kind_code b

-- The length expression of an array type: an integer literal, another literal, or no literal.
pub data Length : Type 0 where
  integer : ℕ → Length
  other_literal expression : Length

-- `struct_type` has no content yet. `nop` stands for a type that is left out.
mutual
  pub data TypeNode : Type 0 where
    basic : Kind → ℤ → TypeNode
    pointer : TypeNode → TypeNode
    array : Length → TypeNode → TypeNode
    signature : Arguments → Bool → TypeNode → TypeNode
    struct_type nop : TypeNode

  -- An argument has its identifier, and the inferred type of its init expression if that is set.
  pub data Arguments : Type 0 where
    end : Arguments
    typed : Bytes → TypeNode → Arguments → Arguments
    untyped : Bytes → Arguments → Arguments

-- `BasicTypeNode::is_numerical`
abbrev pub is_numerical : Kind → Bool
is_numerical k = kind_eq k signed_integer || kind_eq k unsigned_integer || kind_eq k floatingpoint

-- The comparison of two array lengths. Lengths that are no integer literals stop the program.
unfoldable pub lengths_equal : Length → Length → Outcome Bool
lengths_equal (integer m) (integer n) = ok (m == n)
lengths_equal _ _ = abort fatal

unfoldable pub arguments_size : Arguments → ℕ
arguments_size end = 0
arguments_size (typed _ _ args) = 1 + arguments_size args
arguments_size (untyped _ args) = 1 + arguments_size args

-- `if (first == false) { return false; } return second;`
abbrev pub and_then : Outcome Bool → Outcome Bool → Outcome Bool
and_then first second = first >>= λ same. if same then second else ok false

-- `BuiltinTypes::type_names`
abbrev pub type_names : List (Kind × ℤ × Bytes)
type_names =
    (voyd, negsuc 0, codes "void")
    ∷ (signed_integer, pos 8, codes "i64")
    ∷ (signed_integer, pos 4, codes "i32")
    ∷ (signed_integer, pos 2, codes "i16")
    ∷ (signed_integer, pos 1, codes "i8")
    ∷ (unsigned_integer, pos 8, codes "u64")
    ∷ (unsigned_integer, pos 4, codes "u32")
    ∷ (unsigned_integer, pos 2, codes "u16")
    ∷ (unsigned_integer, pos 1, codes "u8")
    ∷ (floatingpoint, pos 4, codes "f32")
    ∷ (floatingpoint, pos 8, codes "f64")
    ∷ (boolean, pos 1, codes "bool")
    ∷ (type, negsuc 0, codes "type")
    ∷ (label, negsuc 0, codes "label")
    ∷ (poison, negsuc 0, codes "poison")
    ∷ []

-- `Node::types_equal`. `arguments_equal` is its loop over the arguments of two signatures of equal
-- size: an argument whose type is not inferred yet fails the first assertion.
unfoldable mutual
  pub types_equal : TypeNode → TypeNode → Outcome Bool
  types_equal (basic k s) (basic k' s') = ok (kind_eq k k' && int_eq s s')
  types_equal (pointer t) (pointer t') = types_equal t t'
  types_equal (array n t) (array n' t') = and_then (types_equal t t') (lengths_equal n n')
  types_equal (signature args v r) (signature args' v' r') =
      let same_size = arguments_size args == arguments_size args' in
      let rest =
        and_then (types_equal r r') (if same_size then arguments_equal args args' else ok false) in
      if bool_ne v v' then ok false else rest
  types_equal struct_type struct_type = abort unreached
  types_equal nop nop = ok true
  types_equal _ _ = ok false

  pub arguments_equal : Arguments → Arguments → Outcome Bool
  arguments_equal (typed _ t args) (typed _ t' args') =
      and_then (types_equal t t') (arguments_equal args args')
  arguments_equal end _ = ok true
  arguments_equal _ end = ok true
  arguments_equal _ _ = abort assertion

-- The loop of `type_to_string` over the builtin types.
unfoldable pub basic_name : List (Kind × ℤ × Bytes) → Kind → ℤ → Outcome Bytes
basic_name [] k s = abort unreached
basic_name ((k', s', name) ∷ names) k s =
    if kind_eq k' k && int_eq s' s then ok name else basic_name names k s

-- `Node::type_to_string`. `arguments_to_string` is its loop over the arguments of a signature.
unfoldable mutual
  unfolding basic_name

  pub type_to_string : TypeNode → Outcome Bytes
  type_to_string (signature args v r) = do
    arguments ← arguments_to_string args
    result ← type_to_string r
    ok (codes "proc(" ++ (arguments ++ (codes ") " ++ result)))
  type_to_string (basic k s) = basic_name type_names k s
  type_to_string (pointer t) = do target ← type_to_string t; ok (codes "*" ++ target)
  type_to_string (array n t) = do element ← type_to_string t; ok (codes "[...]" ++ element)
  type_to_string struct_type = abort todo
  type_to_string nop = ok (codes "(nothing)")

  pub arguments_to_string : Arguments → Outcome Bytes
  arguments_to_string end = ok []
  arguments_to_string (untyped _ args) = abort null_pointer
  arguments_to_string (typed _ t end) = type_to_string t
  arguments_to_string (typed _ t (typed x t' args)) = do
    first ← type_to_string t
    rest ← arguments_to_string (typed x t' args)
    ok (first ++ (codes ", " ++ rest))
  arguments_to_string (typed _ t (untyped x args)) = do
    first ← type_to_string t
    rest ← arguments_to_string (untyped x args)
    ok (first ++ (codes ", " ++ rest))
