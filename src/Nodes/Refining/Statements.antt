-- ===== src/Nodes/Refining/Statements.antt =====
-- typecheck.cpp: the nodes that `NodeConverter` builds for conditional statements, loops, modules and declarations.
use janguage.Base.{
  refl, Bool, not, ◌||◌, ◌==◌, [], ◌∷◌, ◌++◌, length, some, assert, ◌>>=◌, ◌>>◌, arith,
}
use janguage.Token.{Token, text}
use janguage.Ast.{Ast, Pointer, Block, BlockPointer, declares}
use janguage.Nodes.{Address, NodePointer, Node, Pool, Allocating, allocate_node}
use janguage.Nodes.Context.{
  is_null, or_nop, make_nop, make_binary_operator, make_declaration, make_identifier, make_if,
  make_while, make_literal, make_procedure, make_procedure_call, make_procedure_signature,
  make_return, make_goto, make_label, make_pointer_type,
}
use janguage.Nodes.Convert.{make_node, make_block_node, make_else_node, make_pointed, make_or_nop}
use janguage.Nodes.Denotes.{Denotes, DenotesDeclaration}
use janguage.Nodes.Stable.{stable_block, stable_else}
use janguage.Nodes.Building.{
  Keeps-trans, later, bind-Yields, made-Yields, assert-Yields, pointer-Yields, or_nop-Yields,
  allocate-Yields,
}
use janguage.Nodes.Parts.{Built, carry, DenotesPointed, settled_later, stable_pointed}
use janguage.Nodes.Refining.{
  NodeRefines, BlockRefines, ElseRefines, PointedRefines, OrNopRefines, DeclarationRefines,
}

pub if_statement-Refined :
    (condition : Ast) (then_block : Block) (else_block : BlockPointer) (current : NodePointer)
    (s : Pool)
    → ((s : Pool) → NodeRefines condition current s)
    → ((s : Pool) → BlockRefines then_block current s)
    → ((s : Pool) → ElseRefines else_block current s)
    → NodeRefines (Ast.if_statement condition then_block else_block) current s
unfolding make_node make_nop Denotes make_binary_operator make_identifier make_if make_while
    make_literal make_procedure make_procedure_call make_procedure_signature make_return make_goto
    make_label make_pointer_type make_declaration DenotesPointed
if_statement-Refined condition then_block else_block current s h1 h2 h3 =
    let Q : NodePointer → Pool → Type 0 =
      Built s (λ has p. Denotes has current (Ast.if_statement condition then_block else_block) p) in
    bind-Yields _ Q (make_node condition current s) _ (h1 s) λ c s1 (k1, d1).
      bind-Yields _ Q (make_block_node then_block current s1) _ (h2 s1) λ t s2 (k2, d2).
        bind-Yields _ Q (make_else_node else_block current s2) _ (h3 s2) λ e s3 (k3, d3).
          made-Yields Q (make_if c t e s3) (
            pointer-Yields (λ a. Q (some a)) c _
              λ a ca.
                allocate-Yields (λ a. Q (some a)) (Node.if_statement a t e) s3
                  λ k4 h.
                    let s4 = s3 ++ Node.if_statement a t e ∷ [] in
                    let k24 = Keeps-trans s2 s3 s4 k3 k4 in
                    let k14 = Keeps-trans s1 s2 s4 k2 k24 in
                    (
                      Keeps-trans s s1 s4 k1 k14,
                      (
                        a,
                        t,
                        e,
                        (length s3, refl, (omega (arith, k1.0, k2.0, k3.0), h)),
                        carry (length s) (length s) s1 s4 (omega arith) k14 current condition c a ca
                            d1,
                        stable_block (later (length s1) (length s) s2 s4 k1.0 k24) current
                            then_block (some t) d2,
                        stable_else
                            (later (length s2) (length s) s3 s4 (omega (arith, k1.0, k2.0)) k4)
                            current else_block e d3,
                      ),
                    ))

pub while_loop-Refined :
    (condition : Ast) (b : Block) (prologue : Pointer) (current : NodePointer) (s : Pool)
    → ((s : Pool) → NodeRefines condition current s)
    → ((s : Pool) → BlockRefines b current s)
    → ((s : Pool) → PointedRefines prologue current s)
    → NodeRefines (Ast.while_loop condition b prologue) current s
unfolding make_node make_nop Denotes make_binary_operator make_identifier make_if make_while
    make_literal make_procedure make_procedure_call make_procedure_signature make_return make_goto
    make_label make_pointer_type make_declaration DenotesPointed
while_loop-Refined condition b prologue current s h1 h2 h3 =
    let Q : NodePointer → Pool → Type 0 =
      Built s (λ has p. Denotes has current (Ast.while_loop condition b prologue) p) in
    bind-Yields _ Q (make_node condition current s) _ (h1 s) λ c s1 (k1, d1).
      bind-Yields _ Q (make_block_node b current s1) _ (h2 s1) λ body s2 (k2, d2).
        bind-Yields _ Q (make_pointed prologue current s2) _ (h3 s2) λ e s3 (k3, d3).
          made-Yields Q (make_while c body e s3) (
            pointer-Yields (λ a. Q (some a)) c _
              λ a ca.
                or_nop-Yields (λ a. Q (some a)) e s3 _
                  λ v s4 k4 n.
                    allocate-Yields (λ a. Q (some a)) (Node.while_loop a body v) s4
                      λ k5 h.
                        let s5 = s4 ++ Node.while_loop a body v ∷ [] in
                        let k35 = Keeps-trans s3 s4 s5 k4 k5 in
                        let k25 = Keeps-trans s2 s3 s5 k3 k35 in
                        let k15 = Keeps-trans s1 s2 s5 k2 k25 in
                        (
                          Keeps-trans s s1 s5 k1 k15,
                          (
                            a,
                            body,
                            v,
                            (length s4, refl, (omega (arith, k1.0, k2.0, k3.0, k4.0), h)),
                            carry (length s) (length s) s1 s5 (omega arith) k15 current condition c
                                a ca d1,
                            stable_block (later (length s1) (length s) s2 s5 k1.0 k25) current b
                                (some body) d2,
                            settled_later (length s) (length s2) s3 s4 s5
                                (omega (arith, k1.0, k2.0)) (omega (arith, k1.0, k2.0, k3.0)) k4 k5
                                current prologue e v d3 n,
                          ),
                        ))

pub module_node-Refined :
    (b : Block) (current : NodePointer) (s : Pool)
    → ((s : Pool) → BlockRefines b current s)
    → NodeRefines (Ast.module_node b) current s
unfolding make_node make_nop Denotes make_binary_operator make_identifier make_if make_while
    make_literal make_procedure make_procedure_call make_procedure_signature make_return make_goto
    make_label make_pointer_type make_declaration DenotesPointed
module_node-Refined b current s h1 =
    let Q : NodePointer → Pool → Type 0 =
      Built s (λ has p. Denotes has current (Ast.module_node b) p) in
    bind-Yields _ Q (make_block_node b current s) _ (h1 s) λ body s1 (k1, d1).
      made-Yields Q (allocate_node (Node.module_node body) s1) (
        allocate-Yields (λ a. Q (some a)) (Node.module_node body) s1
          λ k2 h.
            let s2 = s1 ++ Node.module_node body ∷ [] in
            (
              Keeps-trans s s1 s2 k1 k2,
              (
                body,
                (length s1, refl, (k1.0, h)),
                stable_block (later (length s) (length s) s1 s2 (omega arith) k2) current b
                    (some body) d1,
              ),
            ))

pub declares-Refined :
    (id : Token) (type init : Pointer) (is_argument : Bool) (current : NodePointer) (s : Pool)
    → ((s : Pool) → OrNopRefines type current s)
    → ((s : Pool) → OrNopRefines init current s)
    → DeclarationRefines (declares id type init is_argument) current s
unfolding make_node make_nop Denotes make_binary_operator make_identifier make_if make_while
    make_literal make_procedure make_procedure_call make_procedure_signature make_return make_goto
    make_label make_pointer_type make_declaration DenotesPointed
declares-Refined id type init is_argument current s h1 h2 =
    let Q : Address → Pool → Type 0 =
      Built s
        (λ has a. DenotesDeclaration has current (declares id type init is_argument) (some a)) in
    bind-Yields _ Q (make_or_nop type current s) _ (h1 s) λ t s1 (k1, d1).
      bind-Yields _ Q (make_or_nop init current s1) _ (h2 s1) λ i s2 (k2, d2).
        let add_node : Address → Address × Pool → Allocating Address =
          λ a x. allocate_node (Node.declaration (text id) a x.0 is_argument) x.1 in
        let rest : Address × Pool → Allocating Address = λ x. or_nop i x.1 >>= add_node x.0 in
        let given = not (is_null t) || not (is_null i) in
        assert-Yields Q (not (length (text id) == 0)) (assert given >> (or_nop t s2 >>= rest)) (
          assert-Yields Q given (or_nop t s2 >>= rest) (
            or_nop-Yields Q t s2 rest λ a s3 k3 n. or_nop-Yields Q i s3 (add_node a) λ b s4 k4 m.
              allocate-Yields Q (Node.declaration (text id) a b is_argument) s4 λ k5 h.
                let s5 = s4 ++ Node.declaration (text id) a b is_argument ∷ [] in
                let k35 = Keeps-trans s3 s4 s5 k4 k5 in
                let k25 = Keeps-trans s2 s3 s5 k3 k35 in
                (
                  Keeps-trans s s1 s5 k1 (Keeps-trans s1 s2 s5 k2 k25),
                  (
                    a,
                    b,
                    (length s4, refl, (omega (arith, k1.0, k2.0, k3.0, k4.0), h)),
                    settled_later (length s) (length s) s2 s3 s5 (omega arith)
                        (omega (arith, k1.0, k2.0)) k3 k35 current type t a
                        (stable_pointed (later (length s) (length s) s1 s2 (omega arith) k2) current
                          type t d1)
                        n,
                    settled_later (length s) (length s1) s3 s4 s5 k1.0
                        (omega (arith, k1.0, k2.0, k3.0)) k4 k5 current init i b
                        (stable_pointed (later (length s1) (length s1) s2 s3 (omega arith) k3)
                          current init i d2)
                        m,
                  ),
                )))
