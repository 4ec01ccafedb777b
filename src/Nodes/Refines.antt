-- ===== src/Nodes/Refines.antt =====
-- typecheck.cpp: the nodes that `NodeConverter::make_node` builds stand for the tree that it is given.
use mathlib.Core.Path.{subst}
use janguage.Base.{
  ℕ, suc, ◌≤◌, ◌≡◌, ◌≢◌, inl, inr, refl, ap, ◌∙◌, true, false, List, [], ◌∷◌, ◌++◌, length,
  append-nil, append_assoc, some, ok, abort, arith,
}
use janguage.Token.{text}
use janguage.Ast.{
  Ast, Pointer, null, to, Nodes, end, node, Block, statements, BlockPointer, no_block, to_block,
  CompilerErrorKind, Declaration, declares, Declarations, no_declarations, also, Signature, takes,
}
use janguage.Nodes.{Address, at, NodePointer, Node, nop, Pool, Allocating, node_at}
use janguage.Nodes.Context.{
  make_nop, make_binary_operator, make_declaration, make_identifier, make_if, make_while,
  make_literal, make_procedure, make_procedure_call, make_procedure_signature, make_return,
  make_goto, make_label, make_pointer_type,
}
use janguage.Nodes.Convert.{
  make_node, make_block_node, make_statements, make_else_node, make_pointed, make_or_nop,
  make_arguments, make_declaration_node, make_declaration_nodes, make_signature_node,
  push_statement,
}
use janguage.Nodes.Denotes.{
  IsAt, Denotes, DenotesNodes, DenotesBlock, DenotesElse, DenotesDeclaration, DenotesDeclarations,
  DenotesSignature,
}
use janguage.Nodes.Stable.{stable, stable_nodes, stable_declaration, stable_declarations}
use janguage.Nodes.Building.{
  Keeps, From, Keeps-refl, Keeps-trans, later, node_at-last, Keeps-add, Yields, bind-Yields,
  made-Yields,
}
use janguage.Nodes.Parts.{
  Built, leaf, leaf_if, DenotesPointed, node_at-lt, push-length, push-other, push-same,
}
use janguage.Nodes.Refining.Expressions.{
  binary_operator-Refined, pointer_type-Refined, procedure_call-Refined, return_statement-Refined,
}
use janguage.Nodes.Refining.Statements.{
  if_statement-Refined, while_loop-Refined, module_node-Refined, declares-Refined,
}
use janguage.Nodes.Refining.Procedures.{external-Refined, defined-Refined, takes-Refined}

-- What the loop over a block's statements leaves.
abbrev Extended :
    Nodes → ℕ → Pool → List NodePointer → NodePointer → CompilerErrorKind → Unit {0} → Pool → Type 0
Extended xs i s before parent kind _ s' =
    (length s ≤ length s')
    × ((j : ℕ) (x : Node) → j ≢ i → node_at s j ≡ some x → node_at s' j ≡ some x)
    × (ps : List NodePointer) × (node_at s' i ≡ some (Node.block (before ++ ps) parent kind))
    × DenotesNodes (From (suc i) s') (some (at i)) xs ps

map-Yields :
    {A : Type 0} (P Q : A → Pool → Type 0) (m : Allocating A)
    → Yields P m
    → ((a : A) (s : Pool) → P a s → Q a s)
    → Yields Q m
map-Yields P Q (ok (a, s)) h f = f a s h
map-Yields P Q (abort _) h f = tt

mutual
  unfolding make_node make_nop Denotes make_binary_operator make_identifier make_if make_while
      make_literal make_procedure make_procedure_call make_procedure_signature make_return make_goto
      make_label make_pointer_type make_declaration DenotesPointed

  refines :
      (x : Ast) (current : NodePointer) (s : Pool)
      → Yields (Built s (λ has p. Denotes has current x p)) (make_node x current s)
  refines (Ast.binary_operator op lhs rhs) current s =
      binary_operator-Refined op lhs rhs current s (refines lhs current) (refines rhs current)
  refines (Ast.type_identifier t) current s = (Keeps-refl s, refl)
  refines (Ast.identifier t) current s =
      leaf_if (λ has p. IsAt has p (Node.identifier (text t))) _ (Node.identifier (text t)) s
        (λ has p i. i)
  refines (Ast.label name) current s =
      leaf_if (λ has p. IsAt has p (Node.label name)) _ (Node.label name) s (λ has p i. i)
  refines (Ast.goto_statement name) current s =
      leaf_if (λ has p. IsAt has p (Node.goto_statement name)) _ (Node.goto_statement name) s
        (λ has p i. i)
  refines (Ast.literal l) current s =
      leaf_if (λ has p. IsAt has p (Node.literal l.value l.suffix)) _
        (Node.literal l.value l.suffix) s (λ has p i. i)
  refines (Ast.array_type length_expression element) current s = tt
  refines (Ast.for_loop _ _ _ _ _ _) current s = tt
  refines Ast.break_statement current s =
      leaf (λ has p. IsAt has p Node.break_statement) Node.break_statement s (λ has p i. i)
  refines Ast.continue_statement current s =
      leaf (λ has p. IsAt has p Node.continue_statement) Node.continue_statement s (λ has p i. i)
  refines (Ast.declaration d) current s =
      made-Yields (Built s (λ has p. DenotesDeclaration has current d p))
        (make_declaration_node d current s) (refines_declaration d current s)
  refines (Ast.block b) current s =
      made-Yields (Built s (λ has p. DenotesBlock has current b p)) (make_block_node b current s)
        (refines_block b current s)
  refines (Ast.procedure_signature x) current s =
      made-Yields (Built s (λ has p. DenotesSignature has current x p))
        (make_signature_node x current s) (refines_signature x current s)
  refines (Ast.pointer_type target) current s =
      pointer_type-Refined target current s (refines target current)
  refines (Ast.if_statement condition then_block else_block) current s =
      if_statement-Refined condition then_block else_block current s (refines condition current)
        (refines_block then_block current) (refines_else else_block current)
  refines (Ast.while_loop condition b prologue) current s =
      while_loop-Refined condition b prologue current s (refines condition current)
        (refines_block b current) (refines_pointed prologue current)
  refines (Ast.return_statement expression) current s =
      return_statement-Refined expression current s (refines_or_nop expression current)
  refines (Ast.procedure signature body true) current s =
      external-Refined signature body current s (refines_signature signature current)
  refines (Ast.procedure signature no_block false) current s =
      let Q : NodePointer → Pool → Type 0 = Built s (λ has p. ⊥) in
      bind-Yields _ Q (make_signature_node signature current s) _
        (refines_signature signature current s) λ a s1 _. tt
  refines (Ast.procedure signature (to_block b) false) current s =
      defined-Refined signature b current s (refines_signature signature current)
        (refines_block b current)
  refines (Ast.procedure_call callee arguments) current s =
      procedure_call-Refined callee arguments current s (refines callee current)
        (refines_arguments arguments current)
  refines (Ast.module_node b) current s = module_node-Refined b current s (refines_block b current)

  refines_or_nop :
      (x : Pointer) (current : NodePointer) (s : Pool)
      → Yields (Built s (λ has p. DenotesPointed has current x p)) (make_or_nop x current s)
  refines_or_nop null current s =
      leaf (λ has p. DenotesPointed has current null p) nop s (λ has p i. inr i)
  refines_or_nop (to x) current s = refines x current s

  refines_pointed :
      (x : Pointer) (current : NodePointer) (s : Pool)
      → Yields (Built s (λ has p. DenotesPointed has current x p)) (make_pointed x current s)
  refines_pointed null current s = (Keeps-refl s, inl refl)
  refines_pointed (to x) current s = refines x current s

  refines_else :
      (b : BlockPointer) (current : NodePointer) (s : Pool)
      → Yields (Built s (λ has p. DenotesElse has current b p)) (make_else_node b current s)
  refines_else no_block current s = (Keeps-refl s, refl)
  refines_else (to_block b) current s =
      made-Yields (Built s (λ has p. DenotesBlock has current b p)) (make_block_node b current s)
        (refines_block b current s)

  refines_arguments :
      (xs : Nodes) (current : NodePointer) (s : Pool)
      → Yields (Built s (λ has ps. DenotesNodes has current xs ps)) (make_arguments xs current s)
  refines_arguments end current s = (Keeps-refl s, tt)
  refines_arguments (node x xs) current s =
      let Q : List NodePointer → Pool → Type 0 =
        Built s (λ has ps. DenotesNodes has current (node x xs) ps) in
      bind-Yields _ Q (make_node x current s) _ (refines x current s) λ p s1 (k1, d1).
        bind-Yields _ Q (make_arguments xs current s1) _ (refines_arguments xs current s1)
          λ ps s2 (k2, d2). (
            Keeps-trans s s1 s2 k1 k2,
            (
              stable (later (length s) (length s) s1 s2 (omega arith) k2) current x p d1,
              stable_nodes (later (length s1) (length s) s2 s2 k1.0 (Keeps-refl s2)) current xs ps
                  d2,
            ),
          )

  refines_declaration :
      (d : Declaration) (current : NodePointer) (s : Pool)
      → Yields
          (Built s (λ has a. DenotesDeclaration has current d (some a)))
          (make_declaration_node d current s)
  refines_declaration (declares id type init is_argument) current s =
      declares-Refined id type init is_argument current s (refines_or_nop type current)
        (refines_or_nop init current)

  refines_declarations :
      (ds : Declarations) (current : NodePointer) (s : Pool)
      → Yields
          (Built s (λ has as'. DenotesDeclarations has current ds as'))
          (make_declaration_nodes ds current s)
  refines_declarations no_declarations current s = (Keeps-refl s, tt)
  refines_declarations (also x xs) current s =
      let Q : List Address → Pool → Type 0 =
        Built s (λ has ps. DenotesDeclarations has current (also x xs) ps) in
      bind-Yields _ Q (make_declaration_node x current s) _ (refines_declaration x current s)
        λ p s1 (k1, d1).
          bind-Yields _ Q (make_declaration_nodes xs current s1) _
            (refines_declarations xs current s1)
            λ ps s2 (k2, d2). (
              Keeps-trans s s1 s2 k1 k2,
              (
                stable_declaration (later (length s) (length s) s1 s2 (omega arith) k2) current x
                    (some p) d1,
                stable_declarations (later (length s1) (length s) s2 s2 k1.0 (Keeps-refl s2))
                    current xs ps d2,
              ),
            )

  refines_signature :
      (x : Signature) (current : NodePointer) (s : Pool)
      → Yields
          (Built s (λ has a. DenotesSignature has current x (some a)))
          (make_signature_node x current s)
  refines_signature (takes arguments is_vararg return_type) current s =
      takes-Refined arguments is_vararg return_type current s
        (refines_declarations arguments current) (refines return_type current)

  refines_block :
      (b : Block) (current : NodePointer) (s : Pool)
      → Yields
          (Built s (λ has a. DenotesBlock has current b (some a)))
          (make_block_node b current s)
  refines_block (statements xs kind) current s =
      let Q : Address → Pool → Type 0 =
        Built s (λ has a. DenotesBlock has current (statements xs kind) (some a)) in
      let s0 = s ++ Node.block [] current kind ∷ [] in
      let kept = Keeps-add s (Node.block [] current kind) in
      bind-Yields _ Q (make_statements xs (length s) s0) _
        (refines_statements xs (length s) s0 [] current kind
          (node_at-last s (Node.block [] current kind)))
        λ _ s1 (le, others, ps, e, d). (
          (
            omega (arith, le, kept.0),
            λ j x h. others j x (λ q. absurd (omega (arith, q, node_at-lt s j x h))) (kept.1 j x h),
          ),
          (
            ps,
            (length s, refl, (omega arith, e)),
            stable_nodes (later (suc (length s)) (length s) s1 s1 (omega arith) (Keeps-refl s1))
                (some (at (length s))) xs ps d,
          ),
        )

  -- The loop over the statements changes nothing but the block, to which they are added.
  refines_statements :
      (xs : Nodes) (i : ℕ) (s : Pool) (before : List NodePointer) (parent : NodePointer)
      (kind : CompilerErrorKind)
      → node_at s i ≡ some (Node.block before parent kind)
      → Yields (Extended xs i s before parent kind) (make_statements xs i s)
  refines_statements end i s before parent kind h =
      (omega arith, λ j x n e. e, [], rw (append-nil before) h, tt)
  refines_statements (node x xs) i s before parent kind h =
      let Q = Extended (node x xs) i s before parent kind in
      bind-Yields _ Q (make_node x (some (at i)) s) _ (refines x (some (at i)) s) λ p s1 (k1, d1).
        let s2 = push_statement s1 i p in
        let lt = node_at-lt s i _ h in
        map-Yields _ Q (make_statements xs i s2)
          (refines_statements xs i s2 (before ++ p ∷ []) parent kind
            (push-same s1 i p (k1.1 i _ h)))
          λ _ s3 (le, others, ps, e, d).
            let other : (j : ℕ) → length s ≤ j → j ≢ i =
              λ j g q. absurd (omega (arith, q, g, lt)) in
            let moved : (j : ℕ) (y : Node) → From (length s) s1 j y → From (suc i) s3 j y = λ j y g.
              (
                omega (arith, g.0, lt),
                others j y (other j g.0) (push-other s1 i j p y (other j g.0) g.1),
              ) in
            (
              omega (arith, k1.0, le, push-length s1 i p),
              λ j y n g. others j y n (push-other s1 i j p y n (k1.1 j y g)),
              p ∷ ps,
              e ∙ ap (λ zs. some (Node.block zs parent kind)) (append_assoc before (p ∷ []) ps),
              (stable moved (some (at i)) x p d1, d),
            )

-- From a pool and the block around a tree, `make_node` leaves every node that there was as it is, and
-- the pointer that it returns stands for the tree in the new pool, by nodes that it has added: each
-- node has the tree's parts, and each block the block around it as its parent. A type name that is not
-- known is null, and a declaration with it has no type.
pub make_node-Denotes :
    (x : Ast) (current : NodePointer) (s : Pool) (p : NodePointer) (s' : Pool)
    → make_node x current s ≡ ok (p, s')
    → Keeps s s' × Denotes (From (length s) s') current x p
make_node-Denotes x current s p s' e =
    subst (λ o. Yields (Built s (λ has p. Denotes has current x p)) o) e (refines x current s)
