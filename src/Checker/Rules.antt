-- ===== src/Checker/Rules.antt =====
-- typecheck.cpp: what each way to put methods together makes of a state extends it.
use mathlib.Core.Path.{subst}
use janguage.Base.{
  ◌≡◌, refl, ap, sym, ◌∙◌, inl, Bool, ◌∷◌, [], ◌++◌, length, none, some, if◌then◌else◌, Abort,
  append-nil, ℕ, zero, suc, arith,
}
use janguage.Nodes.{Address, builtin, at, NodePointer, Node, Pool, node_at}
use janguage.Checker.{
  Error, Check, node_of, assign, address_eq_iff, stop, allocate, add_error, with_block,
  with_procedure, ◌>>=◌,
}
use janguage.Checker.Along.{
  Along, Still, still_rules, Along-Still, Along-stop, Along-if, Along-bind, Along-with_block,
  Along-with_procedure,
}
use janguage.Checker.Extends.{Extends, Extends-refl, Extends-trans, same}

abbrev pub Extending : {A : Type 0} → Check A → Type 0
Extending m = Along Extends m

pub Extending-Still : {A : Type 0} (m : Check A) → Still m → Extending m
Extending-Still m h = Along-Still Extends Extends-refl m h

pub Extending-stop : {A : Type 0} (reason : Abort) → Extending (stop {A = A} reason)
Extending-stop reason = Along-stop Extends reason

pub Extending-if :
    {A : Type 0} (b : Bool) (m n : Check A)
    → Extending m
    → Extending n
    → Extending (if b then m else n)
Extending-if b m n h h' = Along-if Extends b m n h h'

pub Extending-bind :
    {A B : Type 0} (m : Check A) (f : A → Check B)
    → Extending m
    → ((a : A) → Extending (f a))
    → Extending (m >>= f)
Extending-bind m f h h' = Along-bind Extends Extends-trans m f h h'

pub Extending-add_error : (e : Error) → Extending (add_error e)
unfolding add_error
Extending-add_error e = record {
  from = λ s b s' h.
      let same_state : record s { errors = s.errors ++ e ∷ [] } ≡ s' = cc in
      subst (Extends s) same_state (record {
        nodes = λ a x n. (x, n, same);
        types = λ a x t n i. (t, i, inl refl);
        errors = (e ∷ [], refl);
        block = refl;
        procedure = refl;
        tables = refl;
        containing = refl;
      });
}

node_at-append :
    (pool pool' : Pool) (i : ℕ) (x : Node)
    → node_at pool i ≡ some x
    → node_at (pool ++ pool') i ≡ some x
unfolding node_at
node_at-append [] pool' i x e = cc
node_at-append (y ∷ pool) pool' zero x e = e
node_at-append (y ∷ pool) pool' (suc i) x e = node_at-append pool pool' i x e

pub node_of-append :
    (pool pool' : Pool) (a : Address) (x : Node)
    → node_of pool a ≡ some x
    → node_of (pool ++ pool') a ≡ some x
unfolding node_of
node_of-append pool pool' (builtin i) x e = e
node_of-append pool pool' (at i) x e = node_at-append pool pool' i x e

pub node_of-length : (pool : Pool) → node_of pool (at (length pool)) ≡ none
unfolding node_of node_at
node_of-length [] = refl
node_of-length (x ∷ pool) = node_of-length pool

-- An attribute of another node than the one that is assigned to.
pub assign-other :
    {A : Type 0} (a b : Address) (v : A) (f : Address → A) → (b ≡ a → ⊥) → assign a v f b ≡ f b
assign-other a b v f h = ground (arith, address_eq_iff b a)

pub assign_self : {A : Type 0} (a : Address) (v : A) (f : Address → A) → assign a v f a ≡ v
assign_self a v f = ground (arith, address_eq_iff a a)

pub Extending-allocate : (x : Node) → Extending (allocate x)
unfolding allocate
Extending-allocate x = record {
  from = λ s b s' h.
      let a = at (length s.pool) in
      let same_state : record s { pool = s.pool ++ x ∷ []; inferred = assign a none s.inferred }
          ≡ s' =
        cc in
      subst (Extends s) same_state (record {
        nodes = λ c y n. (y, node_of-append s.pool (x ∷ []) c y n, same);
        types = λ c y t n i.
            let other : c ≡ a → ⊥ = λ p. cc (n, node_of-length s.pool, ap (node_of s.pool) p) in
            (t, assign-other a c none s.inferred other ∙ i, inl refl);
        errors = ([], sym (append-nil s.errors));
        block = refl;
        procedure = refl;
        tables = refl;
        containing = refl;
      });
}

pub Extending-with_block :
    {A : Type 0} (b : NodePointer) (m : Check A) → Extending m → Extending (with_block b m)
Extending-with_block b m h =
    Along-with_block Extends b m
      (λ s s' x. record {
        nodes = x.nodes;
        types = x.types;
        errors = x.errors;
        block = refl;
        procedure = x.procedure;
        tables = x.tables;
        containing = x.containing;
      })
      h

pub Extending-with_procedure :
    {A : Type 0} (p : NodePointer) (m : Check A) → Extending m → Extending (with_procedure p m)
Extending-with_procedure p m h =
    Along-with_procedure Extends p m
      (λ s s' x. record {
        nodes = x.nodes;
        types = x.types;
        errors = x.errors;
        block = x.block;
        procedure = refl;
        tables = x.tables;
        containing = x.containing;
      })
      h

pub ruleset extending_rules = (
  still_rules, Extending-Still, Extending-stop, Extending-if, Extending-bind, Extending-add_error,
  Extending-allocate, Extending-with_block, Extending-with_procedure,
)
