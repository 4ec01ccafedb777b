-- ===== src/Checker/Forms.antt =====
-- typecheck.cpp: the cases of the type checker for the other nodes than operators and literals.
use mathlib.Core.Path.{subst}
use janguage.Base.{◌≡◌, inl, refl, sym, append-nil, Bool, List, [], ◌∷◌, none, some, Bytes}
use janguage.Token.{TokenType}
use janguage.Nodes.{Address, NodePointer, Node}
use janguage.Checker.{Check, assign}
use janguage.Checker.Expressions.{
  set_declaration, check_binary_operator, check_before_use, check_found, check_identifier,
  typecheck_and_spread_poison, compare_argument, check_argument, check_arguments, check_call_of,
  check_call,
}
use janguage.Checker.Statements.{
  may_be_declared, check_specified, check_cast, check_declaration, check_else, check_if,
  check_while, check_module, check_array_type, check_pointer_type, check_basic_type,
}
use janguage.Checker.Procedures.{
  check_returns, check_result, check_body, check_procedure, check_signature_arguments,
  check_signature, check_return,
}
use janguage.Checker.Extends.{Extends, same}
use janguage.Checker.Along.{Still-pure}
use janguage.Checker.Rules.{Extending, Extending-bind, Extending-Still}
use janguage.Checker.Cases.{field_rules, Extending-check_operands}
use janguage.Checker.Bodies.{Extending-add_return}

Extending-set_declaration : (a d : Address) → Extending (set_declaration a d)
unfolding set_declaration
Extending-set_declaration a d = record {
  from = λ s b s' h.
      let same_state : record s { declaration_of = assign a (some d) s.declaration_of } ≡ s' = cc in
      subst (Extends s) same_state (record {
        nodes = λ c x n. (x, n, same);
        types = λ c x t n i. (t, i, inl refl);
        errors = ([], sym (append-nil s.errors));
        block = refl;
        procedure = refl;
        tables = refl;
        containing = refl;
      });
}

Extending-may_be_declared :
    (a : Address) (name : Bytes) (x : Node) → Extending (may_be_declared a name x)
unfolding may_be_declared
Extending-may_be_declared a name x = search field_rules depth 30

Extending-check_specified : (a specified : Address) → Extending (check_specified a specified)
unfolding check_specified
Extending-check_specified a specified = search field_rules depth 30

Extending-check_returns : (a signature body : Address) → Extending (check_returns a signature body)
unfolding check_returns
Extending-check_returns a signature body = search (field_rules, Extending-add_return) depth 30

Extending-check_result : (a : Address) → Extending (check_result a)
unfolding check_result
Extending-check_result a = search field_rules depth 30

pub Extending-check_cast : (a target e : Address) → Extending (check_cast a target e)
unfolding check_cast
Extending-check_cast a target e = search field_rules depth 30

ruleset case_rules = (
  field_rules, Extending-set_declaration, Extending-may_be_declared, Extending-check_specified,
  Extending-check_returns, Extending-check_result,
)

module _ (typecheck : NodePointer → Check (Unit {0}))
    (below : (p : NodePointer) → Extending (typecheck p)) where
  pub Extending-check_binary_operator :
      (kind : TokenType) (l r a : Address) → Extending (check_binary_operator typecheck kind l r a)
  unfolding check_binary_operator
  Extending-check_binary_operator kind l r a =
      search (field_rules, below, Extending-check_operands) depth 30

  Extending-check_before_use : (d : Address) → Extending (check_before_use typecheck d)
  unfolding check_before_use
  Extending-check_before_use d = search (case_rules, below) depth 30

  Extending-check_found :
      (a : Address) (name : Bytes) (d : NodePointer) → Extending (check_found typecheck a name d)
  unfolding check_found
  Extending-check_found a name none = search case_rules depth 30
  Extending-check_found a name (some d) = search (case_rules, Extending-check_before_use) depth 30

  pub Extending-check_identifier :
      (a : Address) (name : Bytes) → Extending (check_identifier typecheck a name)
  unfolding check_identifier
  Extending-check_identifier a name = search (case_rules, Extending-check_found) depth 30

  Extending-typecheck_and_spread_poison :
      (a parent : Address) → Extending (typecheck_and_spread_poison typecheck a parent)
  unfolding typecheck_and_spread_poison
  Extending-typecheck_and_spread_poison a parent = search (case_rules, below) depth 30

  Extending-compare_argument :
      (a argument expected : Address) → Extending (compare_argument typecheck a argument expected)
  unfolding compare_argument
  Extending-compare_argument a argument expected = search case_rules depth 30

  Extending-check_argument :
      (a : Address) (p e : NodePointer) → Extending (check_argument typecheck a p e)
  unfolding check_argument
  Extending-check_argument a p none = search (case_rules, below) depth 30
  Extending-check_argument a p (some e) =
      search (case_rules, below, Extending-compare_argument) depth 30

  Extending-check_arguments :
      (a : Address) (ps : List NodePointer) (es : List Address)
      → Extending (check_arguments typecheck a ps es)
  unfolding check_arguments
  Extending-check_arguments a [] es = Extending-Still _ (Still-pure tt)
  Extending-check_arguments a (p ∷ ps) [] =
      Extending-bind (check_argument typecheck a p none) (λ _. check_arguments typecheck a ps [])
        (Extending-check_argument a p none) (λ _. Extending-check_arguments a ps [])
  Extending-check_arguments a (p ∷ ps) (e ∷ es) =
      Extending-bind (check_argument typecheck a p (some e))
        (λ _. check_arguments typecheck a ps es) (Extending-check_argument a p (some e))
        (λ _. Extending-check_arguments a ps es)

  Extending-check_call_of :
      (a : Address) (ps : List NodePointer) (x : Node) → Extending (check_call_of typecheck a ps x)
  unfolding check_call_of
  Extending-check_call_of a ps (Node.procedure_signature es v r) =
      search (case_rules, Extending-check_arguments) depth 30
  Extending-check_call_of a ps _ = search case_rules depth 30

  pub Extending-check_call :
      (a callee : Address) (ps : List NodePointer) → Extending (check_call typecheck a callee ps)
  unfolding check_call
  Extending-check_call a callee ps =
      search (case_rules, Extending-check_call_of, Extending-typecheck_and_spread_poison) depth 30

  pub Extending-check_declaration :
      (a : Address) (name : Bytes) (specified init : Address)
      → Extending (check_declaration typecheck a name specified init)
  unfolding check_declaration
  Extending-check_declaration a name specified init = search (case_rules, below) depth 30

  Extending-check_else : (b : NodePointer) → Extending (check_else typecheck b)
  unfolding check_else
  Extending-check_else none = search case_rules depth 30
  Extending-check_else (some b) = search (case_rules, below) depth 30

  pub Extending-check_if :
      (a condition then_block : Address) (else_block : NodePointer)
      → Extending (check_if typecheck a condition then_block else_block)
  unfolding check_if
  Extending-check_if a condition then_block else_block =
      search (case_rules, below, Extending-check_else, Extending-typecheck_and_spread_poison) depth
        30

  pub Extending-check_while :
      (a condition body prologue : Address)
      → Extending (check_while typecheck a condition body prologue)
  unfolding check_while
  Extending-check_while a condition body prologue = search (case_rules, below) depth 30

  Extending-check_body :
      (a signature : Address) (body : NodePointer)
      → Extending (check_body typecheck a signature body)
  unfolding check_body
  Extending-check_body a signature none = search case_rules depth 30
  Extending-check_body a signature (some body) = search (case_rules, below) depth 30

  pub Extending-check_procedure :
      (a signature : Address) (body : NodePointer) (is_external : Bool)
      → Extending (check_procedure typecheck a signature body is_external)
  unfolding check_procedure
  Extending-check_procedure a signature body is_external =
      search (case_rules, Extending-check_body, Extending-typecheck_and_spread_poison) depth 30

  Extending-check_signature_arguments :
      (a : Address) (ds : List Address) → Extending (check_signature_arguments typecheck a ds)
  unfolding check_signature_arguments
  Extending-check_signature_arguments a [] = Extending-Still _ (Still-pure tt)
  Extending-check_signature_arguments a (d ∷ ds) =
      Extending-bind (typecheck_and_spread_poison typecheck d a)
        (λ _. check_signature_arguments typecheck a ds) (Extending-typecheck_and_spread_poison d a)
        (λ _. Extending-check_signature_arguments a ds)

  pub Extending-check_signature :
      (a : Address) (ds : List Address) → Extending (check_signature typecheck a ds)
  unfolding check_signature
  Extending-check_signature a ds = search (case_rules, Extending-check_signature_arguments) depth 30

  pub Extending-check_return : (a e : Address) → Extending (check_return typecheck a e)
  unfolding check_return
  Extending-check_return a e = search (case_rules, below) depth 30

  pub Extending-check_module : (a block : Address) → Extending (check_module typecheck a block)
  unfolding check_module
  Extending-check_module a block = search (case_rules, below) depth 30

  pub Extending-check_array_type :
      (a n element : Address) → Extending (check_array_type typecheck a n element)
  unfolding check_array_type
  Extending-check_array_type a n element = search (case_rules, below) depth 30

  pub Extending-check_pointer_type :
      (a target : Address) → Extending (check_pointer_type typecheck a target)
  unfolding check_pointer_type
  Extending-check_pointer_type a target = search (case_rules, below) depth 30

  pub Extending-check_basic_type : (a : Address) → Extending (check_basic_type typecheck a)
  unfolding check_basic_type
  Extending-check_basic_type a = search case_rules depth 30
