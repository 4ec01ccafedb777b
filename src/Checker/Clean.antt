-- ===== src/Checker/Clean.antt =====
-- typecheck.cpp: programs in which a poisoned node is reported. `Clean` says so of a state, and `Plain`
-- says of the nodes that they do not have the poison type of themselves, and that no block expects an
-- error, whose end takes errors back.
pub mod Casts
pub mod Stores
pub mod Coerce
pub mod Blames
pub mod Operators
pub mod Programs
pub mod Forms
pub mod Cases
pub mod Whole
use mathlib.Core.Path.{subst}
use janguage.Base.{
  ◌≡◌, ◌≢◌, ◌⊎◌, inl, inr, refl, ap, sym, ◌∙◌, Bool, true, false, Bool-cases, Option-cases, ℕ, zero,
  suc, List, [], ◌∷◌, ◌++◌, length, ℤ, negsuc, Option, none, some, ok, if◌then◌else◌, Abort,
  Outcome, arith,
}
use janguage.Ast.{CompilerErrorKind, no_error, declaration_error, typecheck_error}
use janguage.Types.{Kind}
use janguage.Nodes.{Address, builtin, at, NodePointer, Node, Pool, node_at}
use janguage.Checker.{
  Error, State, Check, poison, node_of, builtin_nodes, assign, address_eq, address_eq_iff, stop,
  allocate, add_error, with_block, with_procedure, ◌>>=◌, ◌>>◌,
}
use janguage.Checker.Along.{
  Along, Still, still_rules, Along-Still, Along-stop, Along-if, Along-bind, Along-with_block,
  Along-with_procedure,
}
use janguage.Checker.Casts.{put_type, set_inferred_type}
use janguage.Checker.Sets.{set_inferred_type-eq-ok, retyped}

-- No type that the node names is the poison type, and it expects no error.
abbrev pub PlainNode : Node → Type 0
PlainNode (Node.block _ _ typecheck_error) = ⊥
PlainNode (Node.declaration _ specified _ _) = specified ≢ poison
PlainNode (Node.procedure_signature _ _ return_type) = return_type ≢ poison
PlainNode (Node.procedure signature _ _) = signature ≢ poison
PlainNode (Node.type_cast target _) = target ≢ poison
PlainNode _ = Unit

pub record Plain (pool : Pool) : Type 0 where
  pub nodes : (a : Address) (x : Node) → node_of pool a ≡ some x → PlainNode x
  -- Only the builtin type is the poison type.
  pub basics :
      (t : Address) → node_of pool t ≡ some (Node.basic_type Kind.poison (negsuc 0)) → t ≡ poison

-- Where a node is poisoned, an error has been reported.
abbrev pub Clean : State → Type 0
Clean s = (a : Address) → s.inferred a ≡ some poison → s.errors ≢ []

pub record IsSound (s : State) : Type 0 where
  pub plain : Plain s.pool
  pub clean : Clean s

abbrev pub Soundly : State → State → Type 0
Soundly s s' = IsSound s → IsSound s'

abbrev pub Sounding : {A : Type 0} → Check A → Type 0
Sounding m = Along Soundly m

pub Sounding-Still : {A : Type 0} (m : Check A) → Still m → Sounding m
Sounding-Still m h = Along-Still Soundly (λ s x. x) m h

pub Sounding-stop : {A : Type 0} (reason : Abort) → Sounding (stop {A = A} reason)
Sounding-stop reason = Along-stop Soundly reason

pub Sounding-if :
    {A : Type 0} (b : Bool) (m n : Check A)
    → Sounding m
    → Sounding n
    → Sounding (if b then m else n)
Sounding-if b m n h h' = Along-if Soundly b m n h h'

pub Sounding-bind :
    {A B : Type 0} (m : Check A) (f : A → Check B)
    → Sounding m
    → ((a : A) → Sounding (f a))
    → Sounding (m >>= f)
Sounding-bind m f h h' = Along-bind Soundly (λ s s' s'' p q x. q (p x)) m f h h'

pub Sounding-with_block :
    {A : Type 0} (b : NodePointer) (m : Check A) → Sounding m → Sounding (with_block b m)
Sounding-with_block b m h =
    Along-with_block Soundly b m
      (λ s s' k x.
        let y = k (record { plain = x.plain; clean = x.clean }) in
        record { plain = y.plain; clean = y.clean })
      h

pub Sounding-with_procedure :
    {A : Type 0} (p : NodePointer) (m : Check A) → Sounding m → Sounding (with_procedure p m)
Sounding-with_procedure p m h =
    Along-with_procedure Soundly p m
      (λ s s' k x.
        let y = k (record { plain = x.plain; clean = x.clean }) in
        record { plain = y.plain; clean = y.clean })
      h

-- A list with an element at its end is not empty.
pub append-ne-nil {ℓ} : {A : Type ℓ} (xs : List A) (x : A) → xs ++ x ∷ [] ≢ []
append-ne-nil [] x e = cc
append-ne-nil (y ∷ xs) x e = cc

pub Sounding-add_error : (e : Error) → Sounding (add_error e)
unfolding add_error
Sounding-add_error e = record {
  from = λ s b s' h x.
      let same_state : record s { errors = s.errors ++ e ∷ [] } ≡ s' = cc in
      subst IsSound same_state
        (record { plain = x.plain; clean = λ a p q. append-ne-nil s.errors e q });
}

-- A type may be set if it is not the poison type, or if an error has been reported.
pub set_inferred_type-Soundly :
    (a t : Address) (s s' : State) (b : Unit {0})
    → (t ≡ poison → s.errors ≢ [])
    → set_inferred_type a t s ≡ ok (b, s')
    → Soundly s s'
set_inferred_type-Soundly a t s s' b fine e x =
    let (_, p) = set_inferred_type-eq-ok a t s s' b e in
    subst IsSound (sym p) (record {
      plain = x.plain;
      clean = λ c q. elim (Bool-cases (address_eq c a)) [
        | inl h ↦ fine (ground (arith, address_eq_iff c a))
        | inr h ↦ x.clean c (ground arith)
      ];
    })

pub Sounding-set_inferred_type : (a t : Address) → t ≢ poison → Sounding (set_inferred_type a t)
Sounding-set_inferred_type a t h = record {
  from = λ s b s' e. set_inferred_type-Soundly a t s s' b (λ p. absurd (h p)) e;
}

node_at-append :
    (pool : Pool) (x y : Node) (i : ℕ)
    → node_at (pool ++ x ∷ []) i ≡ some y
    → (node_at pool i ≡ some y) ⊎ (y ≡ x)
unfolding node_at
node_at-append [] x y zero e = inr (cc e)
node_at-append [] x y (suc i) e = cc
node_at-append (z ∷ pool) x y zero e = inl e
node_at-append (z ∷ pool) x y (suc i) e = node_at-append pool x y i e

pub Plain-append :
    (pool : Pool) (x : Node)
    → PlainNode x
    → x ≢ Node.basic_type Kind.poison (negsuc 0)
    → Plain pool
    → Plain (pool ++ x ∷ [])
unfolding node_of
Plain-append pool x fine other plain = record { nodes = nodes; basics = basics }
  where
    nodes : (a : Address) (y : Node) → node_of (pool ++ x ∷ []) a ≡ some y → PlainNode y
    nodes (builtin i) y e = plain.nodes (builtin i) y e
    nodes (at i) y e = elim (node_at-append pool x y i e) [
      | inl h ↦ plain.nodes (at i) y h
      | inr h ↦ subst PlainNode (sym h) fine
    ]

    basics :
        (t : Address)
        → node_of (pool ++ x ∷ []) t ≡ some (Node.basic_type Kind.poison (negsuc 0))
        → t ≡ poison
    basics (builtin i) e = plain.basics (builtin i) e
    basics (at i) e = elim (node_at-append pool x (Node.basic_type Kind.poison (negsuc 0)) i e) [
      | inl h ↦ plain.basics (at i) h
      | inr h ↦ absurd (other (sym h))
    ]

pub Sounding-allocate :
    (x : Node) → PlainNode x → x ≢ Node.basic_type Kind.poison (negsuc 0) → Sounding (allocate x)
unfolding allocate
Sounding-allocate x fine other = record {
  from = λ s b s' h y.
      let same_state : record s {
        pool = s.pool ++ x ∷ [];
        inferred = assign (at (length s.pool)) none s.inferred;
      }
          ≡ s' =
        cc in
      subst IsSound same_state (record {
        plain = Plain-append s.pool x fine other y.plain;
        clean = λ c q. elim (Bool-cases (address_eq c (at (length s.pool)))) [
          | inl k ↦ absurd (ground arith)
          | inr k ↦ y.clean c (ground arith)
        ];
      });
}

pub ruleset sound_rules = (
  still_rules, Sounding-Still, Sounding-stop, Sounding-if, Sounding-bind, Sounding-with_block,
  Sounding-with_procedure, Sounding-add_error,
)
