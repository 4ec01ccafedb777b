-- ===== src/Nodes/Refining/Expressions.antt =====
-- typecheck.cpp: the nodes that `NodeConverter` builds for operators, calls, return statements and pointer types.
use janguage.Base.{refl, [], ◌∷◌, ◌++◌, length, some, arith}
use janguage.Token.{TokenType}
use janguage.Ast.{Ast, Pointer, Nodes}
use janguage.Nodes.{NodePointer, Node, Pool, allocate_node, is_type}
use janguage.Nodes.Context.{
  make_nop, make_binary_operator, make_declaration, make_identifier, make_if, make_while,
  make_literal, make_procedure, make_procedure_call, make_procedure_signature, make_return,
  make_goto, make_label, make_pointer_type,
}
use janguage.Nodes.Convert.{make_node, make_or_nop, make_arguments}
use janguage.Nodes.Denotes.{Denotes}
use janguage.Nodes.Stable.{stable_nodes}
use janguage.Nodes.Building.{
  Keeps-trans, later, bind-Yields, made-Yields, assert-Yields, pointer-Yields, or_nop-Yields,
  allocate-Yields,
}
use janguage.Nodes.Parts.{Built, carry, DenotesPointed, settled_later}
use janguage.Nodes.Refining.{NodeRefines, OrNopRefines, ArgumentsRefine}

pub binary_operator-Refined :
    (op : TokenType) (lhs rhs : Ast) (current : NodePointer) (s : Pool)
    → ((s : Pool) → NodeRefines lhs current s)
    → ((s : Pool) → NodeRefines rhs current s)
    → NodeRefines (Ast.binary_operator op lhs rhs) current s
unfolding make_node make_nop Denotes make_binary_operator make_identifier make_if make_while
    make_literal make_procedure make_procedure_call make_procedure_signature make_return make_goto
    make_label make_pointer_type make_declaration DenotesPointed
binary_operator-Refined op lhs rhs current s h1 h2 =
    let Q : NodePointer → Pool → Type 0 =
      Built s (λ has p. Denotes has current (Ast.binary_operator op lhs rhs) p) in
    bind-Yields _ Q (make_node lhs current s) _ (h1 s) λ l s1 (k1, d1).
      bind-Yields _ Q (make_node rhs current s1) _ (h2 s1) λ r s2 (k2, d2).
        made-Yields Q (make_binary_operator op l r s2) (
          pointer-Yields (λ a. Q (some a)) l _
            λ a e.
              pointer-Yields (λ a. Q (some a)) r _
                λ b e'.
                  allocate-Yields (λ a. Q (some a)) (Node.binary_operator op a b) s2
                    λ k3 h.
                      let s3 = s2 ++ Node.binary_operator op a b ∷ [] in
                      (
                        Keeps-trans s s1 s3 k1 (Keeps-trans s1 s2 s3 k2 k3),
                        (
                          a,
                          b,
                          (length s2, refl, (omega (arith, k1.0, k2.0), h)),
                          carry (length s) (length s) s1 s3 (omega arith)
                              (Keeps-trans s1 s2 s3 k2 k3) current lhs l a e d1,
                          carry (length s1) (length s) s2 s3 k1.0 k3 current rhs r b e' d2,
                        ),
                      ))

pub pointer_type-Refined :
    (target : Ast) (current : NodePointer) (s : Pool)
    → ((s : Pool) → NodeRefines target current s)
    → NodeRefines (Ast.pointer_type target) current s
unfolding make_node make_nop Denotes make_binary_operator make_identifier make_if make_while
    make_literal make_procedure make_procedure_call make_procedure_signature make_return make_goto
    make_label make_pointer_type make_declaration DenotesPointed
pointer_type-Refined target current s h1 =
    let Q : NodePointer → Pool → Type 0 =
      Built s (λ has p. Denotes has current (Ast.pointer_type target) p) in
    bind-Yields _ Q (make_node target current s) _ (h1 s) λ t s1 (k1, d1).
      made-Yields Q (make_pointer_type t s1) (
        pointer-Yields (λ a. Q (some a)) t _
          λ a e.
            assert-Yields (λ a. Q (some a)) (is_type s1 a) (allocate_node (Node.pointer_type a) s1)
              (allocate-Yields (λ a. Q (some a)) (Node.pointer_type a) s1
                λ k2 h.
                  let s2 = s1 ++ Node.pointer_type a ∷ [] in
                  (
                    Keeps-trans s s1 s2 k1 k2,
                    (
                      a,
                      (length s1, refl, (k1.0, h)),
                      carry (length s) (length s) s1 s2 (omega arith) k2 current target t a e d1,
                    ),
                  )))

pub procedure_call-Refined :
    (callee : Ast) (arguments : Nodes) (current : NodePointer) (s : Pool)
    → ((s : Pool) → NodeRefines callee current s)
    → ((s : Pool) → ArgumentsRefine arguments current s)
    → NodeRefines (Ast.procedure_call callee arguments) current s
unfolding make_node make_nop Denotes make_binary_operator make_identifier make_if make_while
    make_literal make_procedure make_procedure_call make_procedure_signature make_return make_goto
    make_label make_pointer_type make_declaration DenotesPointed
procedure_call-Refined callee arguments current s h1 h2 =
    let Q : NodePointer → Pool → Type 0 =
      Built s (λ has p. Denotes has current (Ast.procedure_call callee arguments) p) in
    bind-Yields _ Q (make_node callee current s) _ (h1 s) λ c s1 (k1, d1).
      bind-Yields _ Q (make_arguments arguments current s1) _ (h2 s1) λ ps s2 (k2, d2).
        made-Yields Q (make_procedure_call c ps s2) (
          pointer-Yields (λ a. Q (some a)) c _
            λ a e.
              allocate-Yields (λ a. Q (some a)) (Node.procedure_call a ps) s2
                λ k3 h.
                  let s3 = s2 ++ Node.procedure_call a ps ∷ [] in
                  let k13 = Keeps-trans s1 s2 s3 k2 k3 in
                  (
                    Keeps-trans s s1 s3 k1 k13,
                    (
                      a,
                      ps,
                      (length s2, refl, (omega (arith, k1.0, k2.0), h)),
                      carry (length s) (length s) s1 s3 (omega arith) k13 current callee c a e d1,
                      stable_nodes (later (length s1) (length s) s2 s3 k1.0 k3) current arguments ps
                          d2,
                    ),
                  ))

pub return_statement-Refined :
    (expression : Pointer) (current : NodePointer) (s : Pool)
    → ((s : Pool) → OrNopRefines expression current s)
    → NodeRefines (Ast.return_statement expression) current s
unfolding make_node make_nop Denotes make_binary_operator make_identifier make_if make_while
    make_literal make_procedure make_procedure_call make_procedure_signature make_return make_goto
    make_label make_pointer_type make_declaration DenotesPointed
return_statement-Refined expression current s h1 =
    let Q : NodePointer → Pool → Type 0 =
      Built s (λ has p. Denotes has current (Ast.return_statement expression) p) in
    bind-Yields _ Q (make_or_nop expression current s) _ (h1 s) λ e s1 (k1, d1).
      made-Yields Q (make_return e s1) (
        or_nop-Yields (λ a. Q (some a)) e s1 _
          λ v s2 k2 n.
            allocate-Yields (λ a. Q (some a)) (Node.return_statement v) s2
              λ k3 h.
                let s3 = s2 ++ Node.return_statement v ∷ [] in
                (
                  Keeps-trans s s1 s3 k1 (Keeps-trans s1 s2 s3 k2 k3),
                  (
                    v,
                    (length s2, refl, (omega (arith, k1.0, k2.0), h)),
                    settled_later (length s) (length s) s1 s2 s3 (omega arith) k1.0 k2 k3 current
                        expression e v d1 n,
                  ),
                ))
