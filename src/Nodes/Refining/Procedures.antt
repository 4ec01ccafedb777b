-- ===== src/Nodes/Refining/Procedures.antt =====
-- typecheck.cpp: the nodes that `NodeConverter` builds for procedures and their signatures.
use janguage.Base.{refl, Bool, true, false, [], ◌∷◌, ◌++◌, length, none, some, arith}
use janguage.Ast.{Ast, Block, BlockPointer, to_block, Declarations, Signature, takes}
use janguage.Nodes.{Address, NodePointer, Node, Pool}
use janguage.Nodes.Context.{
  make_nop, make_binary_operator, make_declaration, make_identifier, make_if, make_while,
  make_literal, make_procedure, make_procedure_call, make_procedure_signature, make_return,
  make_goto, make_label, make_pointer_type,
}
use janguage.Nodes.Convert.{make_node, make_block_node, make_declaration_nodes, make_signature_node}
use janguage.Nodes.Denotes.{Denotes, DenotesSignature}
use janguage.Nodes.Stable.{stable_block, stable_declarations, stable_signature}
use janguage.Nodes.Building.{
  Keeps-trans, later, bind-Yields, made-Yields, pointer-Yields, allocate-Yields,
}
use janguage.Nodes.Parts.{Built, carry, DenotesPointed}
use janguage.Nodes.Refining.{NodeRefines, BlockRefines, DeclarationsRefine, SignatureRefines}

pub external-Refined :
    (signature : Signature) (body : BlockPointer) (current : NodePointer) (s : Pool)
    → ((s : Pool) → SignatureRefines signature current s)
    → NodeRefines (Ast.procedure signature body true) current s
unfolding make_node make_nop Denotes make_binary_operator make_identifier make_if make_while
    make_literal make_procedure make_procedure_call make_procedure_signature make_return make_goto
    make_label make_pointer_type make_declaration DenotesPointed
external-Refined signature body current s h1 =
    let Q : NodePointer → Pool → Type 0 =
      Built s (λ has p. Denotes has current (Ast.procedure signature body true) p) in
    bind-Yields _ Q (make_signature_node signature current s) _ (h1 s) λ a s1 (k1, d1).
      made-Yields Q (make_procedure a none true s1) (
        allocate-Yields (λ a. Q (some a)) (Node.procedure a none true) s1
          λ k2 h.
            let s2 = s1 ++ Node.procedure a none true ∷ [] in
            (
              Keeps-trans s s1 s2 k1 k2,
              (
                a,
                (length s1, refl, (k1.0, h)),
                stable_signature (later (length s) (length s) s1 s2 (omega arith) k2) current
                    signature (some a) d1,
              ),
            ))

pub defined-Refined :
    (signature : Signature) (b : Block) (current : NodePointer) (s : Pool)
    → ((s : Pool) → SignatureRefines signature current s)
    → ((s : Pool) → BlockRefines b current s)
    → NodeRefines (Ast.procedure signature (to_block b) false) current s
unfolding make_node make_nop Denotes make_binary_operator make_identifier make_if make_while
    make_literal make_procedure make_procedure_call make_procedure_signature make_return make_goto
    make_label make_pointer_type make_declaration DenotesPointed
defined-Refined signature b current s h1 h2 =
    let Q : NodePointer → Pool → Type 0 =
      Built s (λ has p. Denotes has current (Ast.procedure signature (to_block b) false) p) in
    bind-Yields _ Q (make_signature_node signature current s) _ (h1 s) λ a s1 (k1, d1).
      bind-Yields _ Q (make_block_node b current s1) _ (h2 s1) λ body s2 (k2, d2).
        made-Yields Q (make_procedure a (some body) false s2) (
          allocate-Yields (λ a. Q (some a)) (Node.procedure a (some body) false) s2
            λ k3 h.
              let s3 = s2 ++ Node.procedure a (some body) false ∷ [] in
              let k13 = Keeps-trans s1 s2 s3 k2 k3 in
              (
                Keeps-trans s s1 s3 k1 k13,
                (
                  a,
                  body,
                  (length s2, refl, (omega (arith, k1.0, k2.0), h)),
                  stable_signature (later (length s) (length s) s1 s3 (omega arith) k13) current
                      signature (some a) d1,
                  stable_block (later (length s1) (length s) s2 s3 k1.0 k3) current b (some body)
                      d2,
                ),
              ))

pub takes-Refined :
    (arguments : Declarations) (is_vararg : Bool) (return_type : Ast) (current : NodePointer)
    (s : Pool)
    → ((s : Pool) → DeclarationsRefine arguments current s)
    → ((s : Pool) → NodeRefines return_type current s)
    → SignatureRefines (takes arguments is_vararg return_type) current s
unfolding make_node make_nop Denotes make_binary_operator make_identifier make_if make_while
    make_literal make_procedure make_procedure_call make_procedure_signature make_return make_goto
    make_label make_pointer_type make_declaration DenotesPointed
takes-Refined arguments is_vararg return_type current s h1 h2 =
    let Q : Address → Pool → Type 0 =
      Built s
        (λ has a. DenotesSignature has current (takes arguments is_vararg return_type) (some a)) in
    bind-Yields _ Q (make_declaration_nodes arguments current s) _ (h1 s) λ xs s1 (k1, d1).
      bind-Yields _ Q (make_node return_type current s1) _ (h2 s1) λ r s2 (k2, d2).
        pointer-Yields Q r _ λ a e.
          allocate-Yields Q (Node.procedure_signature xs is_vararg a) s2 λ k3 h.
            let s3 = s2 ++ Node.procedure_signature xs is_vararg a ∷ [] in
            let k13 = Keeps-trans s1 s2 s3 k2 k3 in
            (
              Keeps-trans s s1 s3 k1 k13,
              (
                xs,
                a,
                (length s2, refl, (omega (arith, k1.0, k2.0), h)),
                stable_declarations (later (length s) (length s) s1 s3 (omega arith) k13) current
                    arguments xs d1,
                carry (length s1) (length s) s2 s3 k1.0 k3 current return_type r a e d2,
              ),
            )
