-- ===== src/Nodes/Denotes.antt =====
-- typecheck.cpp: what it means that nodes stand for a tree. `has` says which node is at a place of the
-- pool, and `current` is the block around them.
use janguage.Base.{ℕ, ◌≡◌, ◌⊎◌, true, false, List, [], ◌∷◌, none, some}
use janguage.Token.{text}
use janguage.Ast.{
  Ast, Pointer, null, to, Nodes, end, node, Block, statements, BlockPointer, no_block, to_block,
  Declaration, declares, Declarations, no_declarations, also, Signature, takes,
}
use janguage.Types.{type_names}
use janguage.Nodes.{Address, at, NodePointer, Node}
use janguage.Nodes.Convert.{find_type_name}

module _ (has : ℕ → Node → Type 0) where
  -- A node of the pool.
  abbrev pub IsAt : NodePointer → Node → Type 0
  IsAt p x = (i : ℕ) × (p ≡ some (at i)) × has i x

  unfoldable mutual
    -- The pointer stands for the tree. A type name that is not known gives null.
    pub Denotes : NodePointer → Ast → NodePointer → Type 0
    Denotes current (Ast.type_identifier t) p = p ≡ find_type_name (text t) type_names 0
    Denotes current (Ast.identifier t) p = IsAt p (Node.identifier (text t))
    Denotes current (Ast.pointer_type target) p =
        (a : Address) × IsAt p (Node.pointer_type a) × Denotes current target (some a)
    Denotes current (Ast.array_type length_expression element) p = ⊥
    Denotes current (Ast.declaration d) p = DenotesDeclaration current d p
    Denotes current (Ast.binary_operator op lhs rhs) p =
        (a : Address) × (b : Address) × IsAt p (Node.binary_operator op a b)
        × Denotes current lhs (some a)
        × Denotes current rhs (some b)
    Denotes current (Ast.label name) p = IsAt p (Node.label name)
    Denotes current (Ast.goto_statement name) p = IsAt p (Node.goto_statement name)
    Denotes current (Ast.literal l) p = IsAt p (Node.literal l.value l.suffix)
    Denotes current (Ast.procedure_signature signature) p = DenotesSignature current signature p
    Denotes current (Ast.block b) p = DenotesBlock current b p
    Denotes current (Ast.if_statement condition then_block else_block) p =
        (c : Address) × (t : Address) × (e : NodePointer) × IsAt p (Node.if_statement c t e)
        × Denotes current condition (some c)
        × DenotesBlock current then_block (some t)
        × DenotesElse current else_block e
    Denotes current (Ast.while_loop condition b prologue) p =
        (c : Address) × (body : Address) × (e : Address) × IsAt p (Node.while_loop c body e)
        × Denotes current condition (some c)
        × DenotesBlock current b (some body)
        × DenotesOrNop current prologue e
    Denotes current (Ast.for_loop _ _ _ _ _ _) p = ⊥
    Denotes current Ast.break_statement p = IsAt p Node.break_statement
    Denotes current Ast.continue_statement p = IsAt p Node.continue_statement
    Denotes current (Ast.return_statement expression) p =
        (e : Address) × IsAt p (Node.return_statement e) × DenotesOrNop current expression e
    Denotes current (Ast.procedure signature body true) p =
        (s : Address) × IsAt p (Node.procedure s none true)
        × DenotesSignature current signature (some s)
    Denotes current (Ast.procedure signature no_block false) p = ⊥
    Denotes current (Ast.procedure signature (to_block b) false) p =
        (s : Address) × (body : Address) × IsAt p (Node.procedure s (some body) false)
        × DenotesSignature current signature (some s)
        × DenotesBlock current b (some body)
    Denotes current (Ast.procedure_call callee arguments) p =
        (c : Address) × (ps : List NodePointer) × IsAt p (Node.procedure_call c ps)
        × Denotes current callee (some c)
        × DenotesNodes current arguments ps
    Denotes current (Ast.module_node b) p =
        (block : Address) × IsAt p (Node.module_node block) × DenotesBlock current b (some block)

    -- A node that may be left out: a `NopNode` stands for null, and also for an unknown type name.
    pub DenotesOrNop : NodePointer → Pointer → Address → Type 0
    DenotesOrNop current null a = IsAt (some a) Node.nop
    DenotesOrNop current (to x) a =
        Denotes current x (some a) ⊎ (Denotes current x none × IsAt (some a) Node.nop)

    pub DenotesNodes : NodePointer → Nodes → List NodePointer → Type 0
    DenotesNodes current end [] = Unit
    DenotesNodes current end (_ ∷ _) = ⊥
    DenotesNodes current (node x xs) [] = ⊥
    DenotesNodes current (node x xs) (p ∷ ps) = Denotes current x p × DenotesNodes current xs ps

    -- A block has the block around it as its parent, and is the block around its statements.
    pub DenotesBlock : NodePointer → Block → NodePointer → Type 0
    DenotesBlock current (statements xs kind) p =
        (ps : List NodePointer) × IsAt p (Node.block ps current kind) × DenotesNodes p xs ps

    pub DenotesElse : NodePointer → BlockPointer → NodePointer → Type 0
    DenotesElse current no_block p = p ≡ none
    DenotesElse current (to_block b) p = DenotesBlock current b p

    pub DenotesDeclaration : NodePointer → Declaration → NodePointer → Type 0
    DenotesDeclaration current (declares id type init is_argument) p =
        (t : Address) × (v : Address) × IsAt p (Node.declaration (text id) t v is_argument)
        × DenotesOrNop current type t
        × DenotesOrNop current init v

    pub DenotesDeclarations : NodePointer → Declarations → List Address → Type 0
    DenotesDeclarations current no_declarations [] = Unit
    DenotesDeclarations current no_declarations (_ ∷ _) = ⊥
    DenotesDeclarations current (also d ds) [] = ⊥
    DenotesDeclarations current (also d ds) (a ∷ as') =
        DenotesDeclaration current d (some a) × DenotesDeclarations current ds as'

    pub DenotesSignature : NodePointer → Signature → NodePointer → Type 0
    DenotesSignature current (takes arguments is_vararg return_type) p =
        (xs : List Address) × (r : Address) × IsAt p (Node.procedure_signature xs is_vararg r)
        × DenotesDeclarations current arguments xs
        × Denotes current return_type (some r)
