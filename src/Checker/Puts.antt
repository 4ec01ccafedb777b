-- ===== src/Checker/Puts.antt =====
-- typecheck.cpp: the methods of the type checker that change nodes: the casts that are put into fields
-- of nodes, and the return statement that is added to a procedure's body.
use mathlib.Core.Path.{subst}
use janguage.Base.{
  ◌≡◌, ◌⊎◌, inl, inr, ap, ◌∙◌, Bool, true, false, length, [], ◌∷◌, ◌++◌, if◌then◌else◌, some, ok,
  Bytes, arith,
}
use janguage.Nodes.{Address, at, NodePointer, Node, Pool}
use janguage.Nodes.Building.{node_at-last}
use janguage.Nodes.Context.{is_null}
use janguage.Checker.{
  Error, State, Check, poison, node_of, pure, reads, load, allocate, guard, add_error, ◌>>=◌, ◌>>◌,
}
use janguage.Checker.Compare.{type_to_string}
use janguage.Checker.Casts.{
  put_type, set_inferred_type, report, report_types, make_type_cast, put_cast, refuse_cast,
  cast_or_report, do_implicit_cast_if_necessary,
}
use janguage.Checker.Along.{Still, still_rules, bind-eq-ok, pure-eq-ok, reads-eq-ok}
use janguage.Checker.Rules.{node_of-append}

set_inferred_type-pool :
    (a t : Address) (s s' : State) (b : Unit {0})
    → set_inferred_type a t s ≡ ok (b, s')
    → s'.pool ≡ s.pool
unfolding set_inferred_type put_type guard ◌>>=◌
set_inferred_type-pool a t s s' b e = ground arith

add_error-pool :
    (m : Error) (s s' : State) (b : Unit {0}) → add_error m s ≡ ok (b, s') → s'.pool ≡ s.pool
unfolding add_error
add_error-pool m s s' b e = cc

report-pool :
    (a : Address) (poisons : Bool) (m : Error) (s s' : State) (b : Unit {0})
    → report a poisons m s ≡ ok (b, s')
    → s'.pool ≡ s.pool
unfolding report
report-pool a true m s s' b e =
    let (b1, s1, e1, e2) = bind-eq-ok (set_inferred_type a poison) (λ _. add_error m) s b s' e in
    add_error-pool m s1 s' b e2 ∙ set_inferred_type-pool a poison s s1 b1 e1
report-pool a false m s s' b e =
    let (b1, s1, e1, e2) = bind-eq-ok (pure tt) (λ _. add_error m) s b s' e in
    add_error-pool m s1 s' b e2 ∙ ap State.pool ((pure-eq-ok tt b1 s s1 e1).1)

report_types-pool :
    (a : Address) (poisons : Bool) (kind : Bytes → Bytes → Error) (t u : NodePointer) (s s' : State)
    (b : Unit {0})
    → report_types a poisons kind t u s ≡ ok (b, s')
    → s'.pool ≡ s.pool
unfolding report_types
report_types-pool a poisons kind t u s s' b e =
    let rest = λ (left right : Bytes). report a poisons (kind left right) in
    let (left, s1, e1, e') =
      bind-eq-ok (reads (λ s. type_to_string s t))
        (λ left. reads (λ s. type_to_string s u) >>= rest left) s b s' e in
    let (right, s2, e2, e3) = bind-eq-ok (reads (λ s. type_to_string s u)) (rest left) s1 b s' e' in
    report-pool a poisons (kind left right) s2 s' b e3
    ∙ ap State.pool ((reads-eq-ok _ right s1 s2 e2).1 ∙ (reads-eq-ok _ left s s1 e1).1)

-- A pointer to an expression, after a cast may have been put around it.
abbrev pub IsCast : Pool → Address → Address → Type 0
IsCast pool e e' = (e' ≡ e) ⊎ ((t : Address) × (node_of pool e' ≡ some (Node.type_cast t e)))

-- The nodes that there were are as they were.
abbrev pub Same : Pool → Pool → Type 0
Same pool pool' = (a : Address) (x : Node) → node_of pool a ≡ some x → node_of pool' a ≡ some x

make_type_cast-eq-ok :
    (t a c : Address) (s s' : State)
    → make_type_cast t a s ≡ ok (c, s')
    → (c ≡ at (length s.pool)) × (s'.pool ≡ s.pool ++ Node.type_cast t a ∷ [])
unfolding make_type_cast load guard allocate ◌>>=◌
make_type_cast-eq-ok t a c s s' e = ground arith

make_type_cast-new :
    (t a c : Address) (s s' : State)
    → make_type_cast t a s ≡ ok (c, s')
    → Same s.pool s'.pool × (node_of s'.pool c ≡ some (Node.type_cast t a))
unfolding node_of
make_type_cast-new t a c s s' e =
    let (p, q) = make_type_cast-eq-ok t a c s s' e in
    (
      λ d x n. ap (λ pool. node_of pool d) q ∙ node_of-append s.pool _ d x n,
      ap (λ pool. node_of pool c) q
          ∙ (ap (node_of (s.pool ++ Node.type_cast t a ∷ [])) p ∙ node_at-last s.pool _),
    )

-- An action that may put a cast around an expression, and changes no node that there is.
pub record Casting (a : Address) (m : Check (Bool × Address)) : Type 0 where
  pub of_run :
      (s : State) (done : Bool) (c : Address) (s' : State)
      → m s ≡ ok ((done, c), s')
      → Same s.pool s'.pool × IsCast s'.pool a c

module _ (a : Address) where
  Casting-if :
      (b : Bool) (m n : Check (Bool × Address))
      → Casting a m
      → Casting a n
      → Casting a (if b then m else n)
  Casting-if true m n h h' = h
  Casting-if false m n h h' = h'

  Casting-bind :
      {A : Type 0} (m : Check A) (f : A → Check (Bool × Address))
      → Still m
      → ((x : A) → Casting a (f x))
      → Casting a (m >>= f)
  Casting-bind m f h h' = record {
    of_run = λ s done c s' e.
        let (x, s1, e1, e2) = bind-eq-ok m f s (done, c) s' e in
        (h' x).of_run s done c s'
          (subst (λ s1. f x s1 ≡ ok ((done, c), s')) (h.at_state s x s1 e1) e2);
  }

  Casting-pure : (b : Bool) → Casting a (pure (b, a))
  unfolding pure
  Casting-pure b = record {
    of_run = λ s done c s' e. let p : s' ≡ s = cc e in (λ d x n. cc (n, p), inl (cc e));
  }

  Casting-refuse_cast : (t : Address) (from : NodePointer) → Casting a (refuse_cast a t from)
  unfolding refuse_cast
  Casting-refuse_cast t from = record {
    of_run = λ s done c s' e.
        let (b, s1, e1, e2) =
          bind-eq-ok (report_types a (is_null from) Error.invalid_cast from (some t))
            (λ _. pure (false, a)) s (done, c) s' e in
        let (p, q) = pure-eq-ok (false, a) (done, c) s1 s' e2 in
        let kept = report_types-pool a (is_null from) Error.invalid_cast from (some t) s s1 b e1 in
        (
          λ d x n. ap (λ pool. node_of pool d) (ap State.pool q ∙ kept) ∙ n,
          inl (ap (λ (r : Bool × Address). r.1) p),
        );
  }

  Casting-put_cast : (t : Address) → Casting a (put_cast a t)
  unfolding put_cast
  Casting-put_cast t = record {
    of_run = λ s done c s' e.
        let (cast, s1, e1, e2) =
          bind-eq-ok (make_type_cast t a) (λ cast. set_inferred_type cast t >> pure (true, cast)) s
            (done, c) s' e in
        let (b, s2, e3, e4) =
          bind-eq-ok (set_inferred_type cast t) (λ _. pure (true, cast)) s1 (done, c) s' e2 in
        let (p, q) = pure-eq-ok (true, cast) (done, c) s2 s' e4 in
        let (same_nodes, new) = make_type_cast-new t a cast s s1 e1 in
        let kept = ap State.pool q ∙ set_inferred_type-pool cast t s1 s2 b e3 in
        (
          λ d x n. ap (λ pool. node_of pool d) kept ∙ same_nodes d x n,
          inr (
            t,
            ap (λ pool. node_of pool c) kept
                ∙ (ap (node_of s1.pool) (ap (λ (r : Bool × Address). r.1) p) ∙ new),
          ),
        );
  }

  ruleset casting_rules =
      (still_rules, Casting-if, Casting-bind, Casting-pure, Casting-refuse_cast, Casting-put_cast)

  pub Casting-do_implicit_cast :
      (type : NodePointer) → Casting a (do_implicit_cast_if_necessary a type)
  unfolding do_implicit_cast_if_necessary cast_or_report
  Casting-do_implicit_cast type = search casting_rules depth 20
