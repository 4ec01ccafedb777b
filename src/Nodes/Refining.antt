-- ===== src/Nodes/Refining.antt =====
-- typecheck.cpp: what `NodeConverter` has to build, for each of its methods.
pub mod Expressions
pub mod Statements
pub mod Procedures
use mathlib.Core.Path.{subst}
use janguage.Base.{
  ℕ, suc, ◌≤◌, ◌≡◌, ◌≢◌, inl, inr, refl, ap, ◌∙◌, true, false, not, ◌||◌, ◌==◌, List, [], ◌∷◌, ◌++◌,
  length, append-nil, append_assoc, none, some, ok, abort, assert, ◌>>=◌, ◌>>◌, arith,
}
use janguage.Token.{text}
use janguage.Ast.{
  Ast, Pointer, null, to, Nodes, end, node, Block, statements, BlockPointer, no_block, to_block,
  CompilerErrorKind, Declaration, declares, Declarations, no_declarations, also, Signature, takes,
}
use janguage.Nodes.{
  Address, at, NodePointer, Node, nop, Pool, Allocating, node_at, allocate_node, is_type,
}
use janguage.Nodes.Context.{
  is_null, or_nop, make_nop, make_binary_operator, make_declaration, make_identifier, make_if,
  make_while, make_literal, make_procedure, make_procedure_call, make_procedure_signature,
  make_return, make_goto, make_label, make_pointer_type,
}
use janguage.Nodes.Convert.{
  make_node, make_block_node, make_statements, make_else_node, make_pointed, make_or_nop,
  make_arguments, make_declaration_node, make_declaration_nodes, make_signature_node,
  push_statement,
}
use janguage.Nodes.Denotes.{
  IsAt, Denotes, DenotesNodes, DenotesBlock, DenotesElse, DenotesDeclaration, DenotesDeclarations,
  DenotesSignature,
}
use janguage.Nodes.Stable.{
  stable, stable_nodes, stable_block, stable_else, stable_declaration, stable_declarations,
  stable_signature,
}
use janguage.Nodes.Building.{
  Keeps, From, Keeps-refl, Keeps-trans, later, node_at-last, Keeps-add, Yields, bind-Yields,
  made-Yields, assert-Yields, pointer-Yields, or_nop-Yields, allocate-Yields,
}
use janguage.Nodes.Parts.{
  Built, leaf, leaf_if, carry, DenotesPointed, settled_later, stable_pointed, node_at-lt,
  push-length, push-other, push-same,
}

-- `make_node` builds nodes that stand for the tree.
abbrev pub NodeRefines : Ast → NodePointer → Pool → Type 0
NodeRefines x current s =
    Yields (Built s (λ has p. Denotes has current x p)) (make_node x current s)

abbrev pub OrNopRefines : Pointer → NodePointer → Pool → Type 0
OrNopRefines x current s =
    Yields (Built s (λ has p. DenotesPointed has current x p)) (make_or_nop x current s)

abbrev pub PointedRefines : Pointer → NodePointer → Pool → Type 0
PointedRefines x current s =
    Yields (Built s (λ has p. DenotesPointed has current x p)) (make_pointed x current s)

abbrev pub ElseRefines : BlockPointer → NodePointer → Pool → Type 0
ElseRefines b current s =
    Yields (Built s (λ has p. DenotesElse has current b p)) (make_else_node b current s)

abbrev pub ArgumentsRefine : Nodes → NodePointer → Pool → Type 0
ArgumentsRefine xs current s =
    Yields (Built s (λ has ps. DenotesNodes has current xs ps)) (make_arguments xs current s)

abbrev pub DeclarationRefines : Declaration → NodePointer → Pool → Type 0
DeclarationRefines d current s =
    Yields (Built s (λ has a. DenotesDeclaration has current d (some a)))
      (make_declaration_node d current s)

abbrev pub DeclarationsRefine : Declarations → NodePointer → Pool → Type 0
DeclarationsRefine ds current s =
    Yields (Built s (λ has as'. DenotesDeclarations has current ds as'))
      (make_declaration_nodes ds current s)

abbrev pub SignatureRefines : Signature → NodePointer → Pool → Type 0
SignatureRefines x current s =
    Yields (Built s (λ has a. DenotesSignature has current x (some a)))
      (make_signature_node x current s)

abbrev pub BlockRefines : Block → NodePointer → Pool → Type 0
BlockRefines b current s =
    Yields (Built s (λ has a. DenotesBlock has current b (some a))) (make_block_node b current s)
