-- ===== src/Examples/Converting.antt =====
-- typecheck.cpp: the nodes of a lowered loop.
use janguage.Base.{◌≡◌, refl, false, [], ◌∷◌, none, some, ok, codes}
use janguage.Token.{text, plus, less_than, assign}
use janguage.Ast.{uint64, no_error}
use janguage.Nodes.{at, Node, Pool, assert_pointer, add}
use janguage.Nodes.Context.{
  make_nop, or_nop, make_binary_operator, make_declaration, make_identifier, make_while,
  make_literal, suffix_fits,
}
use janguage.Nodes.Convert.{made, make_node, push_statement, push_back}
use janguage.Nodes.Denotes.{Denotes}
use janguage.Nodes.Building.{Keeps, From}
use janguage.Nodes.Refines.{make_node-Denotes}
use janguage.Examples.Desugaring.{lowered}

-- The block, its declaration with no type, and the loop with its prologue.
abbrev built : Pool
built =
    Node.block (some (at 3) ∷ some (at 14) ∷ []) none no_error
    ∷ Node.nop
    ∷ Node.literal (uint64 0) 0
    ∷ Node.declaration (codes "i") (at 1) (at 2) false
    ∷ Node.identifier (codes "i")
    ∷ Node.literal (uint64 9) 0
    ∷ Node.binary_operator less_than (at 4) (at 5)
    ∷ Node.block (some (at 8) ∷ []) (some (at 0)) no_error
    ∷ Node.break_statement
    ∷ Node.identifier (codes "i")
    ∷ Node.identifier (codes "i")
    ∷ Node.literal (uint64 1) 0
    ∷ Node.binary_operator plus (at 10) (at 11)
    ∷ Node.binary_operator assign (at 9) (at 12)
    ∷ Node.while_loop (at 6) (at 7) (at 13)
    ∷ []

built_run : make_node lowered none [] ≡ ok (some (at 0), built)
unfolding make_node made make_nop or_nop make_binary_operator make_declaration make_identifier
    make_while make_literal suffix_fits add push_statement push_back assert_pointer text
built_run = refl

make_node-Denotes_example : Keeps [] built × Denotes (From 0 built) none lowered (some (at 0))
make_node-Denotes_example = make_node-Denotes lowered none [] (some (at 0)) built built_run
