-- ===== src/Checker/Stores.antt =====
-- typecheck.cpp: the nodes that the type checker assigns to: a field that a cast is put into, and the
-- body of a procedure that a return statement is added to.
use mathlib.Core.Path.{subst}
use janguage.Base.{
  ◌≡◌, ◌⊎◌, inl, inr, refl, ap, sym, ◌∙◌, Bool, ℕ, zero, suc, [], ◌∷◌, append-nil, some, ok, arith,
}
use janguage.Nodes.{Address, builtin, at, NodePointer, Node, Pool, node_at}
use janguage.Checker.{State, Check, node_of, pure, load, store, replace, follow, ◌>>=◌, ◌>>◌}
use janguage.Checker.Casts.{
  Field, lhs, rhs, do_implicit_cast_if_necessary, cast_field, field_of, with_field,
}
use janguage.Checker.Extends.{
  Extends, Extends-trans, Step, Becomes, same, then_step, wraps, returns, is_return,
}
use janguage.Checker.Along.{bind-eq-ok, pure-eq-ok, load-eq-ok, follow-eq-ok}
use janguage.Checker.Rules.{Extending}
use janguage.Checker.Puts.{IsCast, Casting-do_implicit_cast}

-- A pool in which one node is replaced.
abbrev Replaced : Pool → Pool → Address → Node → Type 0
Replaced pool pool' a y =
    (d : Address) (z : Node)
    → node_of pool d ≡ some z
    → ((d ≡ a) × (node_of pool' d ≡ some y)) ⊎ (node_of pool' d ≡ some z)

node_at-replace :
    (pool : Pool) (i j : ℕ) (y z : Node)
    → node_at pool j ≡ some z
    → ((j ≡ i) × (node_at (replace pool i y) j ≡ some y)) ⊎ (node_at (replace pool i y) j ≡ some z)
unfolding node_at replace
node_at-replace [] i j y z e = cc
node_at-replace (x ∷ pool) zero zero y z e = inl (refl, refl)
node_at-replace (x ∷ pool) zero (suc j) y z e = inr e
node_at-replace (x ∷ pool) (suc i) zero y z e = inr e
node_at-replace (x ∷ pool) (suc i) (suc j) y z e = elim (node_at-replace pool i j y z e) [
  | inl (p, q) ↦ inl (ap suc p, q)
  | inr q ↦ inr q
]

replace-Replaced : (pool : Pool) (i : ℕ) (y : Node) → Replaced pool (replace pool i y) (at i) y
unfolding node_of
replace-Replaced pool i y (builtin j) z e = inr e
replace-Replaced pool i y (at j) z e = elim (node_at-replace pool i j y z e) [
  | inl (p, q) ↦ inl (ap at p, q)
  | inr q ↦ inr q
]

store-eq-ok :
    (a : Address) (y : Node) (s s' : State) (b : Unit {0})
    → store a y s ≡ ok (b, s')
    → (pool : Pool) × (s' ≡ record s { pool = pool }) × Replaced s.pool pool a y
unfolding store
store-eq-ok (builtin i) y s s' b e = cc
store-eq-ok (at i) y s s' b e = (replace s.pool i y, cc, replace-Replaced s.pool i y)

field_of-cast : (f : Field) (t e e' : Address) → field_of f (Node.type_cast t e) ≡ some e' → ⊥
unfolding field_of
field_of-cast lhs t e e' h = cc
field_of-cast rhs t e e' h = cc
field_of-cast f t e e' h = cc

-- A node may be assigned what it becomes by a step.
module _ (pool pool' : Pool) (a : Address) (x y : Node) (here : node_of pool a ≡ some x)
    (replaced : Replaced pool pool' a y) where
  Step-replaced : Step pool x y → Step pool' x y
  Step-replaced (wraps f e c t p n q) = elim (replaced c _ n) [
    | inl (i, _) ↦
        let same_node : x ≡ Node.type_cast t e = cc (here, n, ap (node_of pool) i) in
        absurd (field_of-cast f t e e (ap (field_of f) (sym same_node) ∙ p))
    | inr n' ↦ wraps f e c t p n' q
  ]
  Step-replaced (returns xs parent kind r z n h p q) = elim (replaced r z n) [
    | inl (i, _) ↦
        let same_node : x ≡ z = cc (here, n, ap (node_of pool) i) in
        absurd (cc (h, ap is_return same_node, ap is_return p))
    | inr n' ↦ returns xs parent kind r z n' h p q
  ]

  Becomes-replaced : (y ≡ x) ⊎ Step pool x y → Becomes pool' x y
  Becomes-replaced (inl e) = subst (Becomes pool' x) (sym e) same
  Becomes-replaced (inr st) = then_step same (Step-replaced st)

pub store-Extends :
    (a : Address) (x y : Node) (s s' : State) (b : Unit {0})
    → node_of s.pool a ≡ some x
    → (y ≡ x) ⊎ Step s.pool x y
    → store a y s ≡ ok (b, s')
    → Extends s s'
store-Extends a x y s s' b here st e =
    let (pool, p, replaced) = store-eq-ok a y s s' b e in
    let b' = Becomes-replaced s.pool pool a x y here replaced st in
    subst (Extends s) (sym p) (record {
      nodes = λ d z n. elim (replaced d z n) [
        | inl (i, n') ↦
            (y, n', subst (λ z. Becomes pool z y) (cc (here, n, ap (node_of s.pool) i)) b')
        | inr n' ↦ (z, n', same)
      ];
      types = λ d z t n i. (t, i, inl refl);
      errors = ([], sym (append-nil s.errors));
      block = refl;
      procedure = refl;
      tables = refl;
      containing = refl;
    })

with_field_self :
    (f : Field) (x : Node) (e : Address) → field_of f x ≡ some e → with_field f e x ≡ x
unfolding field_of with_field
with_field_self f x e h = ground arith

field_Becomes :
    (f : Field) (pool : Pool) (x : Node) (e e' : Address)
    → field_of f x ≡ some e
    → IsCast pool e e'
    → (with_field f e' x ≡ x) ⊎ Step pool x (with_field f e' x)
field_Becomes f pool x e e' h (inl p) = inl (ap (λ c. with_field f c x) p ∙ with_field_self f x e h)
field_Becomes f pool x e e' h (inr (t, n)) = inr (wraps f e e' t h n refl)

module _ (f : Field) (a : Address) (type : NodePointer) where
  after_cast : Node → Bool × Address → Check Bool
  after_cast x (done, e') = store a (with_field f e' x) >> pure done

  after_cast-Extends :
      (x : Node) (e e' : Address) (done r : Bool) (s s' : State)
      → node_of s.pool a ≡ some x
      → field_of f x ≡ some e
      → IsCast s.pool e e'
      → after_cast x (done, e') s ≡ ok (r, s')
      → Extends s s'
  unfolding after_cast
  after_cast-Extends x e e' done r s s' here h c run =
      let (b, s1, e1, e2) = bind-eq-ok (store a (with_field f e' x)) (λ _. pure done) s r s' run in
      subst (Extends s) (sym (pure-eq-ok done r s1 s' e2).1)
        (store-Extends a x (with_field f e' x) s s1 b here (field_Becomes f s.pool x e e' h c) e1)

  pub Extending-cast_field :
      ((e : Address) → Extending (do_implicit_cast_if_necessary e type))
      → Extending (cast_field f a type)
  unfolding cast_field after_cast
  Extending-cast_field cast = record {
    from = λ s r s' run.
        let (x, s1, e1, k1) =
          bind-eq-ok (load a)
            (λ x. follow (field_of f x) >>= λ e.
              do_implicit_cast_if_necessary e type >>= λ c. after_cast x c)
            s r s' run in
        let (here, p1) = load-eq-ok a x s s1 e1 in
        let (e, s2, e2, k2) =
          bind-eq-ok (follow (field_of f x))
            (λ e. do_implicit_cast_if_necessary e type >>= λ c. after_cast x c) s1 r s' k1 in
        let (h, p2) = follow-eq-ok (field_of f x) e s1 s2 e2 in
        let ((done, e'), s3, e3, k3) =
          bind-eq-ok (do_implicit_cast_if_necessary e type) (λ c. after_cast x c) s2 r s' k2 in
        let (kept, c) = (Casting-do_implicit_cast e type).of_run s2 done e' s3 e3 in
        let unchanged = p2 ∙ p1 in
        Extends-trans s s3 s'
          (subst (λ s. Extends s s3) unchanged ((cast e).from s2 (done, e') s3 e3))
          (after_cast-Extends x e e' done r s3 s'
            (kept a x (ap (λ (s : State). node_of s.pool a) unchanged ∙ here)) h c k3);
  }
