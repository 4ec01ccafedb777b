-- ===== src/Checker/Sets.antt =====
-- typecheck.cpp and node.cpp: `set_inferred_type` and the methods of the type checker that set types
-- and report errors.
use mathlib.Core.Path.{subst}
use janguage.Base.{
  ◌≡◌, ◌⊎◌, inl, inr, refl, ap, sym, ◌∙◌, Bool, true, false, Bool-cases, Option-cases, ℕ, suc, ◌+◌,
  length, [], append-nil, negsuc, some, Outcome, ok, abort, int_eq_iff, Bytes, arith,
}
use janguage.Types.{Kind}
use janguage.Types.Equal.{kind_eq_iff}
use janguage.Nodes.{Address, NodePointer, Node}
use janguage.Checker.{
  Error, State, node_of, assign, address_eq, address_eq_iff, poison, nop, guard, ◌>>=◌,
}
use janguage.Checker.Compare.{types_equal, types_equal_within, nodes_match, node_at_address}
use janguage.Checker.Casts.{
  put_type, is_replaceable, set_inferred_type, report, report_types, spread_poison,
}
use janguage.Checker.Extends.{Extends, Replaceable, same}
use janguage.Checker.Rules.{Extending, assign-other, extending_rules}

-- What is compared where two types are found equal.
types_equal-nodes :
    (fuel : ℕ) (s : State) (t u : Address) (x y : Node)
    → node_of s.pool t ≡ some x
    → node_of s.pool u ≡ some y
    → types_equal_within (suc fuel) s (some t) (some u) ≡ ok true
    → nodes_match (types_equal_within fuel s) s x y ≡ ok true
unfolding types_equal_within node_at_address
types_equal-nodes fuel s t u x y h h' e = ground arith

has_node :
    (fuel : ℕ) (s : State) (t u : Address)
    → types_equal_within (suc fuel) s (some t) (some u) ≡ ok true
    → (x : Node) × (node_of s.pool t ≡ some x)
unfolding types_equal_within node_at_address
has_node fuel s t u e = elim (Option-cases (node_of s.pool t)) [
  | inl h ↦ absurd (cc (e, h))
  | inr (x, h) ↦ (x, h)
]

module _ (below : NodePointer → NodePointer → Outcome Bool) (s : State) where
  nodes_match-poison :
      (x : Node)
      → nodes_match below s x (Node.basic_type Kind.poison (negsuc 0)) ≡ ok true
      → x ≡ Node.basic_type Kind.poison (negsuc 0)
  unfolding nodes_match
  nodes_match-poison (Node.basic_type k n) e =
      ground (arith, kind_eq_iff k Kind.poison, int_eq_iff n (negsuc 0))
  nodes_match-poison (Node.pointer_type t) e = cc
  nodes_match-poison x e = cc

  nodes_match-nop : (x : Node) → nodes_match below s x Node.nop ≡ ok true → x ≡ Node.nop
  unfolding nodes_match
  nodes_match-nop Node.nop e = refl
  nodes_match-nop (Node.pointer_type t) e = cc
  nodes_match-nop x e = cc

module _ (s : State) (t : Address) where
  pub equal-poison :
      types_equal s (some t) (some poison) ≡ ok true
      → node_of s.pool t ≡ some (Node.basic_type Kind.poison (negsuc 0))
  unfolding types_equal node_of
  equal-poison e =
      let (x, h) = has_node _ s t poison e in
      h
      ∙ ap some (
          nodes_match-poison (types_equal_within (18 + length s.pool) s) s x
            (types_equal-nodes _ s t poison x _ h refl e))

  equal-nop : types_equal s (some t) (some nop) ≡ ok true → node_of s.pool t ≡ some Node.nop
  unfolding types_equal node_of
  equal-nop e =
      let (x, h) = has_node _ s t nop e in
      h
      ∙ ap some (
          nodes_match-nop (types_equal_within (18 + length s.pool) s) s x
            (types_equal-nodes _ s t nop x _ h refl e))

  -- A type that may be replaced is one of the two.
  is_replaceable-Replaceable : is_replaceable s (some t) ≡ ok true → Replaceable s.pool t
  unfolding is_replaceable
  is_replaceable-Replaceable = cases (types_equal s (some t) (some poison)) refl
    where
      cases :
          (o : Outcome Bool)
          → types_equal s (some t) (some poison) ≡ o
          → (elim o as (λ _. Outcome Bool) [
            | ok true ↦ ok true
            | ok false ↦ types_equal s (some t) (some nop)
            | abort reason ↦ abort reason
          ])
            ≡ ok true
          → Replaceable s.pool t
      cases (ok true) h e = inl (equal-poison h)
      cases (ok false) h e = inr (equal-nop e)
      cases (abort reason) h e = cc

-- The state with another inferred type of a node.
abbrev pub retyped : State → Address → Address → State
retyped s a t = record s { inferred = assign a (some t) s.inferred }

pub set_inferred_type-eq-ok :
    (a t : Address) (s s' : State) (b : Unit {0})
    → set_inferred_type a t s ≡ ok (b, s')
    → (is_replaceable s (s.inferred a) ≡ ok true) × (s' ≡ retyped s a t)
unfolding set_inferred_type ◌>>=◌ guard put_type
set_inferred_type-eq-ok a t s s' b e = ground arith

types_retyped :
    (s : State) (a t c v : Address)
    → is_replaceable s (s.inferred a) ≡ ok true
    → s.inferred c ≡ some v
    → (u : Address) × (assign a (some t) s.inferred c ≡ some u) × ((u ≡ v) ⊎ Replaceable s.pool v)
types_retyped s a t c v fresh i = elim (Bool-cases (address_eq c a)) [
  | inl e ↦
      let p = (address_eq_iff c a).0 e in
      (t, ground arith, inr (is_replaceable-Replaceable s v (cc (fresh, i, ap s.inferred p))))
  | inr e ↦ (v, ground arith, inl refl)
]

-- A type is set only where there is none, or one that may be replaced.
pub Extending-set_inferred_type : (a t : Address) → Extending (set_inferred_type a t)
Extending-set_inferred_type a t = record {
  from = λ s b s' e.
      let (fresh, p) = set_inferred_type-eq-ok a t s s' b e in
      subst (Extends s) (sym p) (record {
        nodes = λ c x n. (x, n, same);
        types = λ c x v n i. types_retyped s a t c v fresh i;
        errors = ([], sym (append-nil s.errors));
        block = refl;
        procedure = refl;
        tables = refl;
        containing = refl;
      });
}

pub ruleset set_rules = (extending_rules, Extending-set_inferred_type)

pub Extending-report : (a : Address) (poisons : Bool) (e : Error) → Extending (report a poisons e)
unfolding report
Extending-report a poisons e = search set_rules

pub ruleset report_rules = (set_rules, Extending-report)

pub Extending-report_types :
    (a : Address) (poisons : Bool) (kind : Bytes → Bytes → Error) (t u : NodePointer)
    → Extending (report_types a poisons kind t u)
unfolding report_types
Extending-report_types a poisons kind t u = search report_rules

pub Extending-spread_poison : (a b : Address) → Extending (spread_poison a b)
unfolding spread_poison
Extending-spread_poison a b = search report_rules

pub ruleset set_and_report_rules = (report_rules, Extending-report_types, Extending-spread_poison)
