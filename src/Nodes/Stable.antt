-- ===== src/Nodes/Stable.antt =====
-- typecheck.cpp: nodes that stand for a tree keep doing so where the nodes stay.
use janguage.Base.{ℕ, inl, inr, true, false, List, [], ◌∷◌, none, some}
use janguage.Ast.{
  Ast, Pointer, null, to, Nodes, end, node, Block, statements, BlockPointer, no_block, to_block,
  Declaration, declares, Declarations, no_declarations, also, Signature, takes,
}
use janguage.Nodes.{Address, NodePointer, Node}
use janguage.Nodes.Denotes.{
  IsAt, Denotes, DenotesOrNop, DenotesNodes, DenotesBlock, DenotesElse, DenotesDeclaration,
  DenotesDeclarations, DenotesSignature,
}

module _ {has has' : ℕ → Node → Type 0} (f : (i : ℕ) (x : Node) → has i x → has' i x) where
  stays : (p : NodePointer) (x : Node) → IsAt has p x → IsAt has' p x
  stays p x (i, e, h) = (i, e, f i x h)

  mutual
    unfolding Denotes

    pub stable :
        (current : NodePointer) (a : Ast) (p : NodePointer)
        → Denotes has current a p
        → Denotes has' current a p
    stable current (Ast.type_identifier t) p d = d
    stable current (Ast.identifier t) p d = stays p _ d
    stable current (Ast.pointer_type target) p (a, i, d) =
        (a, stays p _ i, stable current target (some a) d)
    stable current (Ast.array_type length_expression element) p d = d
    stable current (Ast.declaration decl) p d = stable_declaration current decl p d
    stable current (Ast.binary_operator op lhs rhs) p (a, b, i, l, r) =
        (a, b, stays p _ i, stable current lhs (some a) l, stable current rhs (some b) r)
    stable current (Ast.label name) p d = stays p _ d
    stable current (Ast.goto_statement name) p d = stays p _ d
    stable current (Ast.literal l) p d = stays p _ d
    stable current (Ast.procedure_signature signature) p d = stable_signature current signature p d
    stable current (Ast.block b) p d = stable_block current b p d
    stable current (Ast.if_statement condition then_block else_block) p (c, t, e, i, dc, dt, de) = (
      c,
      t,
      e,
      stays p _ i,
      stable current condition (some c) dc,
      stable_block current then_block (some t) dt,
      stable_else current else_block e de,
    )
    stable current (Ast.while_loop condition b prologue) p (c, body, e, i, dc, db, de) = (
      c,
      body,
      e,
      stays p _ i,
      stable current condition (some c) dc,
      stable_block current b (some body) db,
      stable_or_nop current prologue e de,
    )
    stable current (Ast.for_loop _ _ _ _ _ _) p d = d
    stable current Ast.break_statement p d = stays p _ d
    stable current Ast.continue_statement p d = stays p _ d
    stable current (Ast.return_statement expression) p (e, i, d) =
        (e, stays p _ i, stable_or_nop current expression e d)
    stable current (Ast.procedure signature body true) p (s, i, d) =
        (s, stays p _ i, stable_signature current signature (some s) d)
    stable current (Ast.procedure signature no_block false) p d = d
    stable current (Ast.procedure signature (to_block b) false) p (s, body, i, d, d') = (
      s,
      body,
      stays p _ i,
      stable_signature current signature (some s) d,
      stable_block current b (some body) d',
    )
    stable current (Ast.procedure_call callee arguments) p (c, ps, i, d, d') =
        (c, ps, stays p _ i, stable current callee (some c) d, stable_nodes current arguments ps d')
    stable current (Ast.module_node b) p (block, i, d) =
        (block, stays p _ i, stable_block current b (some block) d)

    pub stable_or_nop :
        (current : NodePointer) (x : Pointer) (a : Address)
        → DenotesOrNop has current x a
        → DenotesOrNop has' current x a
    stable_or_nop current null a d = stays (some a) _ d
    stable_or_nop current (to x) a (inl d) = inl (stable current x (some a) d)
    stable_or_nop current (to x) a (inr (d, i)) = inr (stable current x none d, stays (some a) _ i)

    pub stable_nodes :
        (current : NodePointer) (xs : Nodes) (ps : List NodePointer)
        → DenotesNodes has current xs ps
        → DenotesNodes has' current xs ps
    stable_nodes current end [] d = d
    stable_nodes current end (_ ∷ _) d = d
    stable_nodes current (node x xs) [] d = d
    stable_nodes current (node x xs) (p ∷ ps) (d, ds) =
        (stable current x p d, stable_nodes current xs ps ds)

    pub stable_block :
        (current : NodePointer) (b : Block) (p : NodePointer)
        → DenotesBlock has current b p
        → DenotesBlock has' current b p
    stable_block current (statements xs kind) p (ps, i, d) =
        (ps, stays p _ i, stable_nodes p xs ps d)

    pub stable_else :
        (current : NodePointer) (b : BlockPointer) (p : NodePointer)
        → DenotesElse has current b p
        → DenotesElse has' current b p
    stable_else current no_block p d = d
    stable_else current (to_block b) p d = stable_block current b p d

    pub stable_declaration :
        (current : NodePointer) (x : Declaration) (p : NodePointer)
        → DenotesDeclaration has current x p
        → DenotesDeclaration has' current x p
    stable_declaration current (declares id type init is_argument) p (t, v, i, d, d') =
        (t, v, stays p _ i, stable_or_nop current type t d, stable_or_nop current init v d')

    pub stable_declarations :
        (current : NodePointer) (xs : Declarations) (as' : List Address)
        → DenotesDeclarations has current xs as'
        → DenotesDeclarations has' current xs as'
    stable_declarations current no_declarations [] d = d
    stable_declarations current no_declarations (_ ∷ _) d = d
    stable_declarations current (also x xs) [] d = d
    stable_declarations current (also x xs) (a ∷ as') (d, ds) =
        (stable_declaration current x (some a) d, stable_declarations current xs as' ds)

    pub stable_signature :
        (current : NodePointer) (x : Signature) (p : NodePointer)
        → DenotesSignature has current x p
        → DenotesSignature has' current x p
    stable_signature current (takes arguments is_vararg return_type) p (xs, r, i, d, d') = (
      xs,
      r,
      stays p _ i,
      stable_declarations current arguments xs d,
      stable current return_type (some r) d',
    )
