-- ===== src/Nodes/Parts.antt =====
-- typecheck.cpp: a node that has been added, a statement that has been pushed to its block, and what is
-- carried on to a later pool.
use mathlib.Core.Path.{subst}
use janguage.Base.{
  ℕ, zero, suc, ◌≤◌, ◌<◌, ◌≡◌, ◌≢◌, ◌⊎◌, inl, inr, refl, ap, Bool, true, false, List, [], ◌∷◌, ◌++◌,
  length, none, some, assert, ◌>>◌, arith,
}
use janguage.Ast.{Ast, Pointer, null, to, CompilerErrorKind}
use janguage.Nodes.{Address, at, NodePointer, Node, nop, Pool, node_at, allocate_node}
use janguage.Nodes.Convert.{made, push_statement, push_back}
use janguage.Nodes.Denotes.{IsAt, Denotes, DenotesOrNop}
use janguage.Nodes.Stable.{stable}
use janguage.Nodes.Building.{Keeps, From, Keeps-trans, later, Yields, made-Yields, allocate-Yields}

-- The nodes that have been added to a pool have a property.
abbrev pub Built : {A : Type 0} → Pool → ((ℕ → Node → Type 0) → A → Type 0) → A → Pool → Type 0
Built s D a s' = Keeps s s' × D (From (length s) s') a

-- A node of the pool that has been added.
pub leaf :
    (D : (ℕ → Node → Type 0) → NodePointer → Type 0) (x : Node) (s : Pool)
    → ((has : ℕ → Node → Type 0) (p : NodePointer) → IsAt has p x → D has p)
    → Yields (Built s D) (made (allocate_node x s))
leaf D x s f = made-Yields (Built s D) (allocate_node x s) (
    allocate-Yields (λ a. Built s D (some a)) x s
      λ k h. (
        k,
        f (From (length s) (s ++ x ∷ [])) (some (at (length s))) (length s, refl, (omega arith, h)),
      ))

module _ (n n' : ℕ) (s s' : Pool) (le : n' ≤ n) (k : Keeps s s') (current : NodePointer) where
  pub carry :
      (x : Ast) (p : NodePointer) (a : Address)
      → p ≡ some a
      → Denotes (From n s) current x p
      → Denotes (From n' s') current x (some a)
  carry x p a e d =
      stable (later n n' s s' le k) current x (some a)
        (subst (λ p. Denotes (From n s) current x p) e d)

-- What stands for a node that may be left out, before it is replaced by a `NopNode`.
unfoldable pub DenotesPointed : (ℕ → Node → Type 0) → NodePointer → Pointer → NodePointer → Type 0
DenotesPointed has current null p = (p ≡ none) ⊎ IsAt has p nop
DenotesPointed has current (to x) p = Denotes has current x p

pub settled :
    (has : ℕ → Node → Type 0) (current : NodePointer) (x : Pointer) (p : NodePointer) (a : Address)
    → DenotesPointed has current x p
    → (p ≡ some a) ⊎ ((p ≡ none) × IsAt has (some a) nop)
    → DenotesOrNop has current x a
unfolding Denotes DenotesPointed
settled has current null p a (inl e) (inl e') = absurd (cc (e, e'))
settled has current null p a (inl e) (inr (e', i)) = i
settled has current null p a (inr i) (inl e) = subst (λ p. IsAt has p nop) e i
settled has current null p a (inr (i, e, h)) (inr (e', _)) = absurd (cc (e, e'))
settled has current (to x) p a d (inl e) = inl (subst (λ p. Denotes has current x p) e d)
settled has current (to x) p a d (inr (e, i)) = inr (subst (λ p. Denotes has current x p) e d, i)

pub stable_pointed :
    {has has' : ℕ → Node → Type 0}
    → ((i : ℕ) (x : Node) → has i x → has' i x)
    → (current : NodePointer) (x : Pointer) (p : NodePointer) → DenotesPointed has current x p
    → DenotesPointed has' current x p
unfolding DenotesPointed
stable_pointed f current null p (inl e) = inl e
stable_pointed f current null p (inr (i, e, h)) = inr (i, e, f i nop h)
stable_pointed f current (to x) p d = stable f current x p d

pub leaf_if :
    (D : (ℕ → Node → Type 0) → NodePointer → Type 0) (b : Bool) (x : Node) (s : Pool)
    → ((has : ℕ → Node → Type 0) (p : NodePointer) → IsAt has p x → D has p)
    → Yields (Built s D) (made (assert b >> allocate_node x s))
unfolding made
leaf_if D true x s f = leaf D x s f
leaf_if D false x s f = tt

pub node_at-lt : (s : Pool) (i : ℕ) (x : Node) → node_at s i ≡ some x → i < length s
unfolding node_at
node_at-lt [] i x e = absurd (cc e)
node_at-lt (y ∷ s) zero x e = omega arith
node_at-lt (y ∷ s) (suc i) x e = omega (arith, node_at-lt s i x e)

pub push-length : (s : Pool) (i : ℕ) (p : NodePointer) → length (push_statement s i p) ≡ length s
unfolding push_statement
push-length [] i p = refl
push-length (x ∷ s) zero p = refl
push-length (x ∷ s) (suc i) p = ap suc (push-length s i p)

pub push-other :
    (s : Pool) (i j : ℕ) (p : NodePointer) (x : Node)
    → j ≢ i
    → node_at s j ≡ some x
    → node_at (push_statement s i p) j ≡ some x
unfolding push_statement node_at
push-other [] i j p x n e = e
push-other (y ∷ s) zero zero p x n e = absurd (n refl)
push-other (y ∷ s) zero (suc j) p x n e = e
push-other (y ∷ s) (suc i) zero p x n e = e
push-other (y ∷ s) (suc i) (suc j) p x n e = push-other s i j p x (λ q. n (ap suc q)) e

pub push-same :
    (s : Pool) (i : ℕ) (p : NodePointer) {xs : List NodePointer} {parent : NodePointer}
    {kind : CompilerErrorKind}
    → node_at s i ≡ some (Node.block xs parent kind)
    → node_at (push_statement s i p) i ≡ some (Node.block (xs ++ p ∷ []) parent kind)
unfolding push_statement node_at push_back
push-same [] i p e = absurd (cc e)
push-same (y ∷ s) zero p {xs} {parent} {kind} e =
    let same : y ≡ Node.block xs parent kind = cc e in ap (λ y. some (push_back y p)) same
push-same (y ∷ s) (suc i) p e = push-same s i p e

-- What stands for a node that may be left out, in a later pool.
pub settled_later :
    (n n' : ℕ) (s s' s'' : Pool)
    → n ≤ n'
    → n ≤ length s
    → Keeps s s'
    → Keeps s' s''
    → (current : NodePointer) (x : Pointer) (p : NodePointer) (a : Address)
    → DenotesPointed (From n' s) current x p
    → (p ≡ some a) ⊎ ((p ≡ none) × IsAt (From (length s) s') (some a) nop)
    → DenotesOrNop (From n s'') current x a
settled_later n n' s s' s'' le le' k k' current x p a d (inl e) =
    settled (From n s'') current x p a
      (stable_pointed (later n' n s s'' le (Keeps-trans s s' s'' k k')) current x p d) (inl e)
settled_later n n' s s' s'' le le' k k' current x p a d (inr (e, (i, at_i, h))) =
    settled (From n s'') current x p a
      (stable_pointed (later n' n s s'' le (Keeps-trans s s' s'' k k')) current x p d)
      (inr (e, (i, at_i, later (length s) n s' s'' le' k' i nop h)))
