-- ===== src/Registrar/Visits.antt =====
-- typecheck.cpp: `visit` with a `DeclarationRegistrar` stands in every relation that its steps stand in.
use janguage.Base.{Bool, true, false, Bytes, ℕ, zero, suc, List, [], ◌∷◌, none, some}
use janguage.Nodes.{Address, NodePointer, Node}
use janguage.Checker.{State, Error, Check}
use janguage.Checker.Along.{Along, Still-pure}
use janguage.Registrar.{
  require_new, is_local_procedure, register_declaration, body_of, register_label, register_argument,
  register_arguments, register_procedure, visit_all, visit_arguments, visit_procedure, visit_node,
  visit,
}
use janguage.Registrar.Kept.{Keeping, Kept-Still, Kept-bind, Kept-stop, kept_rules}

module _ (R : State → State → Type 0) (keeping : Keeping R) where
  Kept-require_new : (b : Bool) (e : Error) → Along R (require_new b e)
  unfolding require_new
  Kept-require_new true e = search kept_rules depth 30
  Kept-require_new false e = search kept_rules depth 30

  Kept-is_local_procedure : (x : Node) → Along R (is_local_procedure x)
  unfolding is_local_procedure
  Kept-is_local_procedure (Node.procedure _ _ _) = search kept_rules depth 30
  Kept-is_local_procedure _ = search kept_rules depth 30

  Kept-body_of : (x : Node) → Along R (body_of x)
  unfolding body_of
  Kept-body_of (Node.procedure _ _ _) = search kept_rules depth 30
  Kept-body_of _ = search kept_rules depth 30

  Kept-register_declaration :
      (a : Address) (name : Bytes) (init : Address) (is_argument : Bool)
      → Along R (register_declaration a name init is_argument)
  unfolding register_declaration
  Kept-register_declaration a name init is_argument =
      search (kept_rules, Kept-require_new, Kept-is_local_procedure) depth 30

  Kept-register_label : (a : Address) (name : Bytes) → Along R (register_label a name)
  unfolding register_label
  Kept-register_label a name = search (kept_rules, Kept-require_new, Kept-body_of) depth 30

  Kept-register_argument : (body d : Address) → Along R (register_argument body d)
  unfolding register_argument
  Kept-register_argument body d = search (kept_rules, Kept-require_new) depth 30

  Kept-register_arguments :
      (body : Address) (ds : List Address) → Along R (register_arguments body ds)
  unfolding register_arguments
  Kept-register_arguments body [] = Kept-Still R keeping _ (Still-pure tt)
  Kept-register_arguments body (d ∷ ds) =
      Kept-bind R keeping (register_argument body d) (λ _. register_arguments body ds)
        (Kept-register_argument body d) (λ _. Kept-register_arguments body ds)

  Kept-register_procedure :
      (signature : Address) (body : NodePointer) (is_external : Bool)
      → Along R (register_procedure signature body is_external)
  unfolding register_procedure
  Kept-register_procedure signature body is_external =
      search (kept_rules, Kept-register_arguments) depth 30

  module _ (visit : NodePointer → Check (Unit {0}))
      (below : (p : NodePointer) → Along R (visit p)) where
    Kept-visit_all : (ps : List NodePointer) → Along R (visit_all visit ps)
    unfolding visit_all
    Kept-visit_all [] = Kept-Still R keeping _ (Still-pure tt)
    Kept-visit_all (p ∷ ps) =
        Kept-bind R keeping (visit p) (λ _. visit_all visit ps) (below p) (λ _. Kept-visit_all ps)

    Kept-visit_arguments : (ds : List Address) → Along R (visit_arguments visit ds)
    unfolding visit_arguments
    Kept-visit_arguments [] = Kept-Still R keeping _ (Still-pure tt)
    Kept-visit_arguments (d ∷ ds) =
        Kept-bind R keeping (visit (some d)) (λ _. visit_arguments visit ds) (below (some d))
          (λ _. Kept-visit_arguments ds)

    Kept-visit_procedure :
        (a signature : Address) (body : NodePointer) (is_external : Bool)
        → Along R (visit_procedure visit a signature body is_external)
    unfolding visit_procedure
    Kept-visit_procedure a signature body is_external =
        search (kept_rules, below, Kept-register_procedure) depth 30

    Kept-visit_node : (a : Address) (x : Node) → Along R (visit_node visit a x)
    unfolding visit_node
    Kept-visit_node a (Node.block statements parent kind) =
        search (kept_rules, Kept-visit_all) depth 30
    Kept-visit_node a (Node.declaration name specified init is_argument) =
        search (kept_rules, below, Kept-register_declaration) depth 30
    Kept-visit_node a (Node.label name) = Kept-register_label a name
    Kept-visit_node a (Node.procedure_call callee arguments) =
        search (kept_rules, below, Kept-visit_all) depth 30
    Kept-visit_node a (Node.procedure signature body is_external) =
        Kept-visit_procedure a signature body is_external
    Kept-visit_node a (Node.procedure_signature arguments is_vararg return_type) =
        search (kept_rules, below, Kept-visit_arguments) depth 30
    Kept-visit_node a _ = search (kept_rules, below) depth 30

  pub Kept-visit : (fuel : ℕ) (p : NodePointer) → Along R (visit fuel p)
  unfolding visit
  Kept-visit zero p = Kept-stop R keeping _
  Kept-visit (suc fuel) none = Kept-Still R keeping _ (Still-pure tt)
  Kept-visit (suc fuel) (some a) =
      search (kept_rules, Kept-visit_node (visit fuel) (Kept-visit fuel)) depth 30
