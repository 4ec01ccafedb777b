-- ===== src/Checker/Clean/Cases.antt =====
-- typecheck.cpp: the cases with calls for the nodes below, in programs in which a poisoned node is
-- reported, where the calls keep them so.
use mathlib.Core.Path.{subst}
use janguage.Base.{sym, ◌≢◌, Bool, ℕ, List, [], ◌∷◌, none, some, Bytes}
use janguage.Token.{TokenType}
use janguage.Ast.{CompilerErrorKind, no_error, declaration_error, typecheck_error}
use janguage.Nodes.{Address, NodePointer, Node}
use janguage.Checker.{Check, poison, load, ◌>>=◌}
use janguage.Checker.Casts.{init_expression, read_field}
use janguage.Checker.Expressions.{
  check_binary_operator, check_before_use, check_found, check_identifier, set_declaration,
  typecheck_and_spread_poison, compare_argument, check_argument, check_arguments, check_call_of,
  check_call,
}
use janguage.Checker.Statements.{
  check_declaration, check_else, check_if, check_while, check_module, check_array_type,
  check_pointer_type, check_basic_type, check_statements, check_block, settle_errors,
}
use janguage.Checker.Procedures.{
  check_body, check_procedure, check_signature_arguments, check_signature, check_return,
}
use janguage.Checker.Along.{Still-pure, bind-eq-ok, load-eq-ok}
use janguage.Checker.Clean.{PlainNode, IsSound, Sounding, Sounding-bind, Sounding-Still}
use janguage.Checker.Clean.Operators.{Sounding-check_operands}
use janguage.Checker.Clean.Forms.{
  Sounding-set_declaration, Sounding-pass_on, Sounding-check_specified, case_rules,
}

pub Sounding-settle_errors :
    (a : Address) (before : ℕ) (kind : CompilerErrorKind)
    → kind ≢ typecheck_error
    → Sounding (settle_errors a before kind)
unfolding settle_errors
Sounding-settle_errors a before no_error h = Sounding-Still _ (Still-pure tt)
Sounding-settle_errors a before declaration_error h = Sounding-Still _ (Still-pure tt)
Sounding-settle_errors a before typecheck_error h = absurd (h (cc))

module _ (typecheck : NodePointer → Check (Unit {0}))
    (below : (p : NodePointer) → Sounding (typecheck p)) where
  pub Sounding-check_binary_operator :
      (kind : TokenType) (l r a : Address) → Sounding (check_binary_operator typecheck kind l r a)
  unfolding check_binary_operator
  Sounding-check_binary_operator kind l r a =
      search (case_rules, below, Sounding-check_operands) depth 30

  Sounding-check_before_use : (d : Address) → Sounding (check_before_use typecheck d)
  unfolding check_before_use
  Sounding-check_before_use d = search (case_rules, below) depth 30

  Sounding-check_found :
      (a : Address) (name : Bytes) (d : NodePointer) → Sounding (check_found typecheck a name d)
  unfolding check_found
  Sounding-check_found a name none = search case_rules depth 30
  Sounding-check_found a name (some d) =
      Sounding-bind (set_declaration a d) _ (Sounding-set_declaration a d) (λ _.
        Sounding-bind (check_before_use typecheck d) _ (Sounding-check_before_use d) (λ _.
          Sounding-bind (read_field init_expression d) _ (search case_rules depth 30)
            (Sounding-pass_on a)))

  pub Sounding-check_identifier :
      (a : Address) (name : Bytes) → Sounding (check_identifier typecheck a name)
  unfolding check_identifier
  Sounding-check_identifier a name = search (case_rules, Sounding-check_found) depth 30

  Sounding-typecheck_and_spread_poison :
      (a parent : Address) → Sounding (typecheck_and_spread_poison typecheck a parent)
  unfolding typecheck_and_spread_poison
  Sounding-typecheck_and_spread_poison a parent = search (case_rules, below) depth 30

  Sounding-compare_argument :
      (a argument expected : Address) → Sounding (compare_argument typecheck a argument expected)
  unfolding compare_argument
  Sounding-compare_argument a argument expected = search case_rules depth 30

  Sounding-check_argument :
      (a : Address) (p e : NodePointer) → Sounding (check_argument typecheck a p e)
  unfolding check_argument
  Sounding-check_argument a p none = search (case_rules, below) depth 30
  Sounding-check_argument a p (some e) =
      search (case_rules, below, Sounding-compare_argument) depth 30

  Sounding-check_arguments :
      (a : Address) (ps : List NodePointer) (es : List Address)
      → Sounding (check_arguments typecheck a ps es)
  unfolding check_arguments
  Sounding-check_arguments a [] es = Sounding-Still _ (Still-pure tt)
  Sounding-check_arguments a (p ∷ ps) [] =
      Sounding-bind (check_argument typecheck a p none) (λ _. check_arguments typecheck a ps [])
        (Sounding-check_argument a p none) (λ _. Sounding-check_arguments a ps [])
  Sounding-check_arguments a (p ∷ ps) (e ∷ es) =
      Sounding-bind (check_argument typecheck a p (some e)) (λ _. check_arguments typecheck a ps es)
        (Sounding-check_argument a p (some e)) (λ _. Sounding-check_arguments a ps es)

  Sounding-check_call_of :
      (a : Address) (ps : List NodePointer) (x : Node)
      → PlainNode x
      → Sounding (check_call_of typecheck a ps x)
  unfolding check_call_of
  Sounding-check_call_of a ps (Node.procedure_signature es v r) h =
      search (case_rules, Sounding-check_arguments) depth 30
  Sounding-check_call_of a ps _ h = search case_rules depth 30

  -- The type of what is called is a node of the program.
  Sounding-called :
      (a t : Address) (ps : List NodePointer)
      → Sounding (load t >>= λ x. check_call_of typecheck a ps x)
  Sounding-called a t ps = record {
    from = λ s b s' run y.
        let (x, s1, e1, k1) = bind-eq-ok (load t) (check_call_of typecheck a ps) s b s' run in
        let (here, p) = load-eq-ok t x s s1 e1 in
        (Sounding-check_call_of a ps x (y.plain.nodes t x here)).from s1 b s' k1
          (subst IsSound (sym p) y);
  }

  pub Sounding-check_call :
      (a callee : Address) (ps : List NodePointer) → Sounding (check_call typecheck a callee ps)
  unfolding check_call
  Sounding-check_call a callee ps =
      search (case_rules, Sounding-called, Sounding-typecheck_and_spread_poison) depth 30

  pub Sounding-check_declaration :
      (a : Address) (name : Bytes) (specified init : Address)
      → specified ≢ poison
      → Sounding (check_declaration typecheck a name specified init)
  unfolding check_declaration
  Sounding-check_declaration a name specified init h =
      search (case_rules, below, Sounding-check_specified) depth 30

  Sounding-check_else : (b : NodePointer) → Sounding (check_else typecheck b)
  unfolding check_else
  Sounding-check_else none = search case_rules depth 30
  Sounding-check_else (some b) = search (case_rules, below) depth 30

  pub Sounding-check_if :
      (a condition then_block : Address) (else_block : NodePointer)
      → Sounding (check_if typecheck a condition then_block else_block)
  unfolding check_if
  Sounding-check_if a condition then_block else_block =
      search (case_rules, below, Sounding-check_else, Sounding-typecheck_and_spread_poison) depth 30

  pub Sounding-check_while :
      (a condition body prologue : Address)
      → Sounding (check_while typecheck a condition body prologue)
  unfolding check_while
  Sounding-check_while a condition body prologue = search (case_rules, below) depth 30

  Sounding-check_body :
      (a signature : Address) (body : NodePointer)
      → Sounding (check_body typecheck a signature body)
  unfolding check_body
  Sounding-check_body a signature none = search case_rules depth 30
  Sounding-check_body a signature (some body) = search (case_rules, below) depth 30

  pub Sounding-check_procedure :
      (a signature : Address) (body : NodePointer) (is_external : Bool)
      → signature ≢ poison
      → Sounding (check_procedure typecheck a signature body is_external)
  unfolding check_procedure
  Sounding-check_procedure a signature body is_external h =
      search (case_rules, Sounding-check_body, Sounding-typecheck_and_spread_poison) depth 30

  Sounding-check_signature_arguments :
      (a : Address) (ds : List Address) → Sounding (check_signature_arguments typecheck a ds)
  unfolding check_signature_arguments
  Sounding-check_signature_arguments a [] = Sounding-Still _ (Still-pure tt)
  Sounding-check_signature_arguments a (d ∷ ds) =
      Sounding-bind (typecheck_and_spread_poison typecheck d a)
        (λ _. check_signature_arguments typecheck a ds) (Sounding-typecheck_and_spread_poison d a)
        (λ _. Sounding-check_signature_arguments a ds)

  pub Sounding-check_signature :
      (a : Address) (ds : List Address) → Sounding (check_signature typecheck a ds)
  unfolding check_signature
  Sounding-check_signature a ds = search (case_rules, Sounding-check_signature_arguments) depth 30

  pub Sounding-check_return : (a e : Address) → Sounding (check_return typecheck a e)
  unfolding check_return
  Sounding-check_return a e = search (case_rules, below) depth 30

  pub Sounding-check_module : (a block : Address) → Sounding (check_module typecheck a block)
  unfolding check_module
  Sounding-check_module a block = search (case_rules, below) depth 30

  pub Sounding-check_array_type :
      (a n element : Address) → Sounding (check_array_type typecheck a n element)
  unfolding check_array_type
  Sounding-check_array_type a n element = search (case_rules, below) depth 30

  pub Sounding-check_pointer_type :
      (a target : Address) → Sounding (check_pointer_type typecheck a target)
  unfolding check_pointer_type
  Sounding-check_pointer_type a target = search (case_rules, below) depth 30

  pub Sounding-check_basic_type : (a : Address) → Sounding (check_basic_type typecheck a)
  unfolding check_basic_type
  Sounding-check_basic_type a = search case_rules depth 30

  Sounding-check_statements : (ps : List NodePointer) → Sounding (check_statements typecheck ps)
  unfolding check_statements
  Sounding-check_statements [] = Sounding-Still _ (Still-pure tt)
  Sounding-check_statements (p ∷ ps) =
      Sounding-bind (typecheck p) (λ _. check_statements typecheck ps) (below p)
        (λ _. Sounding-check_statements ps)

  pub Sounding-check_block :
      (a : Address) (ps : List NodePointer) (kind : CompilerErrorKind)
      → kind ≢ typecheck_error
      → Sounding (check_block typecheck a ps kind)
  unfolding check_block
  Sounding-check_block a ps kind h =
      search (case_rules, Sounding-check_statements, Sounding-settle_errors) depth 30
