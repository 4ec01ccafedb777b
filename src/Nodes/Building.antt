-- ===== src/Nodes/Building.antt =====
-- context.cpp and typecheck.cpp: what code that adds nodes to the pool leaves as it is, with a rule for
-- each form of it.
use janguage.Base.{
  ℕ, zero, suc, ◌≤◌, ◌≡◌, ◌⊎◌, inl, inr, refl, Bool, true, false, [], ◌∷◌, ◌++◌, length,
  length-append, none, some, ok, abort, assert, ◌>>=◌, ◌>>◌, arith,
}
use janguage.Nodes.{
  Address, at, NodePointer, Node, nop, Pool, Allocating, node_at, add, allocate_node,
  assert_pointer,
}
use janguage.Nodes.Context.{make_nop, or_nop}
use janguage.Nodes.Convert.{made}
use janguage.Nodes.Denotes.{IsAt}

-- Every node stays as it is.
abbrev pub Keeps : Pool → Pool → Type 0
Keeps s s' =
    (length s ≤ length s') × ((i : ℕ) (x : Node) → node_at s i ≡ some x → node_at s' i ≡ some x)

-- The node at a place of the pool, from a place on.
abbrev pub From : ℕ → Pool → ℕ → Node → Type 0
From n s i x = (n ≤ i) × (node_at s i ≡ some x)

pub Keeps-refl : (s : Pool) → Keeps s s
Keeps-refl s = (omega arith, λ i x h. h)

pub Keeps-trans : (s s' s'' : Pool) → Keeps s s' → Keeps s' s'' → Keeps s s''
Keeps-trans s s' s'' (l, f) (l', g) = (omega (arith, l, l'), λ i x h. g i x (f i x h))

pub later :
    (n n' : ℕ) (s s' : Pool)
    → n' ≤ n
    → Keeps s s'
    → (i : ℕ) (x : Node) → From n s i x
    → From n' s' i x
later n n' s s' le (l, f) i x (h, e) = (omega (arith, le, h), f i x e)

node_at-front :
    (s : Pool) (y : Node) (i : ℕ) (x : Node)
    → node_at s i ≡ some x
    → node_at (s ++ y ∷ []) i ≡ some x
unfolding node_at
node_at-front [] y i x h = absurd (cc h)
node_at-front (z ∷ s) y zero x h = h
node_at-front (z ∷ s) y (suc i) x h = node_at-front s y i x h

pub node_at-last : (s : Pool) (y : Node) → node_at (s ++ y ∷ []) (length s) ≡ some y
unfolding node_at
node_at-last [] y = refl
node_at-last (z ∷ s) y = node_at-last s y

pub Keeps-add : (s : Pool) (y : Node) → Keeps s (s ++ y ∷ [])
Keeps-add s y = (omega (arith, length-append s (y ∷ [])), node_at-front s y)

-- What holds of the value and of the pool where code returns.
abbrev pub Yields : {A : Type 0} → (A → Pool → Type 0) → Allocating A → Type 0
Yields Q (ok (a, s)) = Q a s
Yields Q (abort _) = Unit

pub bind-Yields :
    {A B : Type 0} (P : A → Pool → Type 0) (Q : B → Pool → Type 0) (m : Allocating A)
    (k : A × Pool → Allocating B)
    → Yields P m
    → ((a : A) (s : Pool) → P a s → Yields Q (k (a, s)))
    → Yields Q (m >>= k)
bind-Yields P Q (ok (a, s)) k h f = f a s h
bind-Yields P Q (abort _) k h f = tt

pub made-Yields :
    (Q : NodePointer → Pool → Type 0) (m : Allocating Address)
    → Yields (λ a s. Q (some a) s) m
    → Yields Q (made m)
unfolding made
made-Yields Q (ok (a, s)) h = h
made-Yields Q (abort _) h = tt

module _ {A : Type 0} (Q : A → Pool → Type 0) where
  pub assert-Yields : (b : Bool) (m : Allocating A) → Yields Q m → Yields Q (assert b >> m)
  assert-Yields true m h = h
  assert-Yields false m h = tt

  pub pointer-Yields :
      (p : NodePointer) (k : Address → Allocating A)
      → ((a : Address) → p ≡ some a → Yields Q (k a))
      → Yields Q (assert_pointer p >>= k)
  unfolding assert_pointer
  pointer-Yields none k f = tt
  pointer-Yields (some a) k f = f a refl

  -- A node in place of null.
  pub or_nop-Yields :
      (p : NodePointer) (s : Pool) (k : Address × Pool → Allocating A)
      → ((a : Address) (s' : Pool)
          → Keeps s s'
          → (p ≡ some a) ⊎ ((p ≡ none) × IsAt (From (length s) s') (some a) nop)
          → Yields Q (k (a, s')))
      → Yields Q (or_nop p s >>= k)
  unfolding or_nop make_nop add
  or_nop-Yields none s k f =
      f (at (length s)) (s ++ nop ∷ []) (Keeps-add s nop)
        (inr (refl, (length s, refl, (omega arith, node_at-last s nop))))
  or_nop-Yields (some a) s k f = f a s (Keeps-refl s) (inl refl)

pub allocate-Yields :
    (Q : Address → Pool → Type 0) (x : Node) (s : Pool)
    → (Keeps s (s ++ x ∷ [])
        → node_at (s ++ x ∷ []) (length s) ≡ some x
        → Q (at (length s)) (s ++ x ∷ []))
    → Yields Q (allocate_node x s)
unfolding add
allocate-Yields Q x s f = f (Keeps-add s x) (node_at-last s x)
