-- ===== src/Examples/Checking.antt =====
-- typecheck.cpp and node.cpp: a declaration whose literal is cast to the specified type, its block, and
-- a block inside.
use janguage.Base.{
  bytes_eq, if◌then◌else◌, ◌≡◌, ◌≢◌, refl, ◌+◌, ◌≤◌, zero, suc, Outcome, ok, abort, some, none, [],
  ◌∷◌, codes, false, pos, assertion, arith,
}
use janguage.Ast.{uint64, no_error}
use janguage.Types.{signed_integer, basic, pointer}
use janguage.Types as Types
use janguage.Nodes.{builtin, at, Node, NodePointer, Pool, node_at}
use janguage.Checker.{
  State, poison, string_literal, node_of, ◌>>=◌, load, with_block, follow, address_eq,
}
use janguage.Checker.Check.{initial, typecheck}
use janguage.Checker.Compare.{types_equal}
use janguage.Checker.Expressions.{find_declaration}
use janguage.Checker.Extends.{Extends}
use janguage.Checker.Keeps.{typecheck-Extends}
use janguage.Checker.Reading.{types_equal-trees, Content, IsType, depth}
use janguage.Checker.Scopes.{IsNested, Means, find_declaration-Means}
use janguage.Registrar.{visit}
use janguage.Registrar.Registers.{Registers}
use janguage.Registrar.Keeps.{visit-Registers}
use janguage.Registrar.Sound.{typecheck-unpoisoned}
use janguage.Checker.Clean.Programs.{IsPlain}

-- `{ x : i32 = 1  {} }`
abbrev nodes : Pool
nodes =
    Node.block (some (at 3) ∷ some (at 1) ∷ []) none no_error
    ∷ Node.block [] (some (at 0)) no_error
    ∷ Node.literal (uint64 1) 0
    ∷ Node.declaration (codes "x") (builtin 2) (at 2) false
    ∷ []

abbrev state_of : Outcome (Unit {0} × State) → State
state_of (ok (_, s)) = s
state_of (abort _) = initial []

abbrev registered : State
registered = state_of (visit 10 (some (at 0)) (initial nodes))

visit_run : visit 10 (some (at 0)) (initial nodes) ≡ ok (tt, registered)
unfolding visit ◌>>=◌ load node_of with_block follow address_eq bytes_eq
visit_run = refl

visit-Registers_example : Registers (initial nodes) registered
visit-Registers_example = visit-Registers 10 (some (at 0)) (initial nodes) registered tt visit_run

abbrev checked : State
checked = state_of (typecheck 10 (some (at 0)) registered)

typecheck_run : typecheck 10 (some (at 0)) registered ≡ ok (tt, checked)
unfolding typecheck visit ◌>>=◌ load node_of with_block follow address_eq bytes_eq
typecheck_run = refl

-- The literal has got a cast around it.
checked_pool : node_at checked.pool 3 ≡ some (Node.declaration (codes "x") (builtin 2) (at 4) false)
unfolding typecheck visit ◌>>=◌ load node_of with_block follow address_eq bytes_eq node_at
checked_pool = refl

typecheck-Extends_example : Extends registered checked
typecheck-Extends_example = typecheck-Extends 10 (some (at 0)) registered checked tt typecheck_run

nodes-IsPlain : IsPlain nodes
nodes-IsPlain =
    (tt, (λ e. cc e), (tt, (λ e. cc e), (tt, (λ e. cc e), ((λ e. cc e), (λ e. cc e), tt))))

checked-errors : checked.errors ≡ []
unfolding typecheck visit ◌>>=◌ load node_of with_block follow address_eq bytes_eq
checked-errors = refl

typecheck-unpoisoned_example : checked.inferred (at 4) ≢ some poison
typecheck-unpoisoned_example =
    typecheck-unpoisoned 10 10 (some (at 0)) nodes registered checked tt tt nodes-IsPlain visit_run
      typecheck_run (at 4) checked-errors

-- The tables, written out.
abbrev scoped : State
scoped = record (initial nodes) {
  table = λ b. if address_eq b (at 0) then (codes "x", at 3) ∷ [] else [];
}

nodes-IsNested : IsNested nodes
unfolding node_of node_at
nodes-IsNested zero xs p kind e = absurd (cc e)
nodes-IsNested (suc zero) xs p kind e =
    (0, some (at 3) ∷ some (at 1) ∷ [], none, no_error, cc e, omega arith, refl)
nodes-IsNested (suc (suc zero)) xs p kind e = absurd (cc e)
nodes-IsNested (suc (suc (suc zero))) xs p kind e = absurd (cc e)
nodes-IsNested (suc (suc (suc (suc i)))) xs p kind e = absurd (cc e)

inner : node_of nodes (at 1) ≡ some (Node.block [] (some (at 0)) no_error)
unfolding node_of node_at
inner = refl

find_declaration-Means_example :
    (r : NodePointer) × (find_declaration scoped (at 1) (codes "x") ≡ ok r)
    × Means scoped (codes "x") 1 r
find_declaration-Means_example =
    find_declaration-Means scoped (codes "x") nodes-IsNested 1 [] (some (at 0)) no_error inner

-- A pointer type of the program, and that of string literals.
abbrev with_pointer : State
with_pointer = initial (Node.pointer_type (builtin 4) ∷ [])

abbrev byte_pointer : Types.TypeNode
byte_pointer = pointer (basic signed_integer (pos 1))

string-IsType : IsType with_pointer (some string_literal) byte_pointer
unfolding Content node_of
string-IsType = (
  string_literal,
  Node.pointer_type (builtin 4),
  refl,
  refl,
  (builtin 4, refl, (builtin 4, Node.basic_type signed_integer (pos 1), refl, refl, refl)),
)

pointer-IsType : IsType with_pointer (some (at 0)) byte_pointer
unfolding Content node_of
pointer-IsType = (
  at 0,
  Node.pointer_type (builtin 4),
  refl,
  refl,
  (builtin 4, refl, (builtin 4, Node.basic_type signed_integer (pos 1), refl, refl, refl)),
)

byte_pointer-depth : depth byte_pointer ≤ suc (18 + 1)
unfolding depth
byte_pointer-depth = omega arith

types_equal-trees_example :
    types_equal with_pointer (some string_literal) (some (at 0))
    ≡ Types.types_equal byte_pointer byte_pointer
types_equal-trees_example =
    types_equal-trees with_pointer byte_pointer byte_pointer (some string_literal) (some (at 0))
      byte_pointer-depth string-IsType pointer-IsType

-- `x := x` fails an assertion, and so does a declaration of the type `poison`.
abbrev runs : Pool → Outcome (Unit {0} × State)
runs pool = typecheck 10 (some (at 0)) (state_of (visit 10 (some (at 0)) (initial pool)))

itself_run :
    runs (
      Node.block (some (at 3) ∷ []) none no_error
      ∷ Node.nop
      ∷ Node.identifier (codes "x")
      ∷ Node.declaration (codes "x") (at 1) (at 2) false
      ∷ [])
    ≡ abort assertion
unfolding typecheck visit ◌>>=◌ load node_of with_block follow address_eq bytes_eq
itself_run = refl

poison_run :
    runs (
      Node.block (some (at 2) ∷ []) none no_error
      ∷ Node.nop
      ∷ Node.declaration (codes "x") (builtin 14) (at 1) false
      ∷ [])
    ≡ abort assertion
unfolding typecheck visit ◌>>=◌ load node_of with_block follow address_eq bytes_eq
poison_run = refl
