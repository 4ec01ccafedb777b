-- ===== src/Checker/Clean/Forms.antt =====
-- typecheck.cpp: the cases of the type checker other than those for operators and literals, in programs in
-- which a poisoned node is reported.
use mathlib.Core.Path.{subst}
use janguage.Base.{◌≡◌, ◌≢◌, ap, sym, ◌∙◌, not, [], some, Bytes}
use janguage.Nodes.{Address, NodePointer, Node}
use janguage.Nodes.Context.{is_null}
use janguage.Checker.{poison, type, assign, gets, guard, follow, ◌>>=◌}
use janguage.Checker.Casts.{set_inferred_type}
use janguage.Checker.Expressions.{set_declaration}
use janguage.Checker.Statements.{may_be_declared, check_specified, check_cast}
use janguage.Checker.Procedures.{check_returns, check_result}
use janguage.Checker.Along.{bind-eq-ok, gets-eq-ok, guard-eq-ok, follow-eq-ok}
use janguage.Checker.Clean.{IsSound, Sounding, set_inferred_type-Soundly}
use janguage.Checker.Clean.Stores.{Sounding-add_return}
use janguage.Checker.Clean.Operators.{builtin_rules, voyd-ne-poison, Sounding-check_operands}

pub Sounding-set_declaration : (a d : Address) → Sounding (set_declaration a d)
unfolding set_declaration
Sounding-set_declaration a d = record {
  from = λ s b s' h x.
      let same_state : record s { declaration_of = assign a (some d) s.declaration_of } ≡ s' = cc in
      subst IsSound same_state (record { plain = x.plain; clean = x.clean });
}

pub Sounding-may_be_declared :
    (a : Address) (name : Bytes) (x : Node) → Sounding (may_be_declared a name x)
unfolding may_be_declared
Sounding-may_be_declared a name x = search builtin_rules depth 30

pub Sounding-check_specified :
    (a specified : Address) → specified ≢ poison → Sounding (check_specified a specified)
unfolding check_specified
Sounding-check_specified a specified h = search builtin_rules depth 30

pub Sounding-check_returns :
    (a signature body : Address) → Sounding (check_returns a signature body)
unfolding check_returns
Sounding-check_returns a signature body = search (builtin_rules, Sounding-add_return) depth 30

pub Sounding-check_result : (a : Address) → Sounding (check_result a)
unfolding check_result
Sounding-check_result a = search builtin_rules depth 30

pub Sounding-check_cast :
    (a target e : Address) → target ≢ poison → Sounding (check_cast a target e)
unfolding check_cast
Sounding-check_cast a target e h = search builtin_rules depth 30

-- The type of a checked init expression may be set.
pub Sounding-pass_on :
    (a init : Address)
    → Sounding (
        gets (λ s. s.inferred init) >>= λ type.
        guard (not (is_null type)) >>= λ _. follow type >>= λ t. set_inferred_type a t)
Sounding-pass_on a init = record {
  from = λ s b s' run x.
      let last = λ (type : NodePointer). follow type >>= λ t. set_inferred_type a t in
      let (type, s1, e1, k1) =
        bind-eq-ok (gets (λ s. s.inferred init))
          (λ type. guard (not (is_null type)) >>= λ _. last type) s b s' run in
      let (h1, p1) = gets-eq-ok (λ s. s.inferred init) type s s1 e1 in
      let (u, s2, e2, k2) = bind-eq-ok (guard (not (is_null type))) (λ _. last type) s1 b s' k1 in
      let (_, p2) = guard-eq-ok (not (is_null type)) u s1 s2 e2 in
      let (t, s3, e3, k3) = bind-eq-ok (follow type) (set_inferred_type a) s2 b s' k2 in
      let (h3, p3) = follow-eq-ok type t s2 s3 e3 in
      let still = p3 ∙ (p2 ∙ p1) in
      set_inferred_type-Soundly a t s3 s' b
        (λ q. subst (λ s. s.errors ≢ []) (sym still) (x.clean init (sym h1 ∙ (h3 ∙ ap some q)))) k3
        (subst IsSound (sym still) x);
}

pub ruleset case_rules = (
  builtin_rules, Sounding-set_declaration, Sounding-may_be_declared, Sounding-check_returns,
  Sounding-check_result,
)
