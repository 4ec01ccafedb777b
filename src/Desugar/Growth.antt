-- ===== src/Desugar/Growth.antt =====
-- desugar.cpp: what the ways to put the code together make of its results and of the pool.
use mathlib.Core.Path.{subst}
use janguage.Base.{
  ℕ, ◌≡◌, ◌⊎◌, inl, inr, refl, ap, ◌∙◌, Bool, true, false, ◌||◌, Bool-cases, ltb, ok, abort, fatal,
  unreached, ◌>>=◌, arith,
}
use janguage.Ast.Kinds.{AstKind}
use janguage.MemoryPool.{MemoryPool, advance_pointer, allocate}
use janguage.Desugar.{Desugared, new_node, new_node_if, rebuilt}

-- Pools that allocations lead to.
pub data Grows : MemoryPool → MemoryPool → Type 0 where
  done : {pool : MemoryPool} → Grows pool pool
  grown :
      {pool pool' pool'' : MemoryPool} (n : ℕ) {p : ℕ}
      → Grows pool pool'
      → allocate pool' n ≡ ok (p, pool'')
      → Grows pool pool''

Grows-trans :
    {pool pool' pool'' : MemoryPool} → Grows pool pool' → Grows pool' pool'' → Grows pool pool''
Grows-trans g Grows.done = g
Grows-trans g (Grows.grown n h e) = Grows.grown n (Grows-trans g h) e

allocate-cases :
    (pool : MemoryPool) (n : ℕ)
    → ((p : ℕ) × (pool' : MemoryPool) × (allocate pool n ≡ ok (p, pool')))
      ⊎ (allocate pool n ≡ abort fatal)
unfolding allocate
allocate-cases pool n =
    elim (Bool-cases
      (ltb (advance_pointer pool.memory_start pool.capacity) (advance_pointer pool.cursor n))) [
        | inl h ↦ inr (rw h refl)
        | inr h ↦
            inl (pool.cursor, record pool { cursor = advance_pointer pool.cursor n }, rw h refl)
      ]

-- If a node is not another one, then it is the one that was given, and nothing was allocated.
abbrev pub Same : {A : Type 0} → Bool → A → A → MemoryPool → MemoryPool → Type 0
Same changed a original pool' pool = changed ≡ false → (a ≡ original) × (pool' ≡ pool)

or-false : (b c : Bool) → (b || c) ≡ false → (b ≡ false) × (c ≡ false)
or-false b c e = ground arith

pub Same-pair :
    {A B C : Type 0} (f : A → B → C) {c d : Bool} {a x : A} {b y : B}
    {pool pool' pool'' : MemoryPool}
    → Same c a x pool' pool
    → Same d b y pool'' pool'
    → Same (c || d) (f a b) (f x y) pool'' pool
Same-pair f {c} {d} {a} {x} {b} {y} s t e =
    let (ec, ed) = or-false c d e in
    let (p, q) = s ec in let (p', q') = t ed in (ap (λ z. f z b) p ∙ ap (f x) p', q' ∙ q)

pub Same-map :
    {A B : Type 0} (f : A → B) {c : Bool} {a x : A} {pool pool' : MemoryPool}
    → Same c a x pool' pool
    → Same c (f a) (f x) pool' pool
Same-map f s e = (ap f (s e).0, (s e).1)

module _ (size_of : AstKind → ℕ) where
  -- Code that returns only if `H` holds, with a value that satisfies `P`, and otherwise stops: at an
  -- UNREACHED only if `H` does not hold, and else at a pool that allocations have led to, in which
  -- there is no room for a node.
  pub data Lowers {A : Type 0} (H : Type 0) (P : A → Type 0) (original : A) (pool : MemoryPool)
      : Desugared A → Type 0 where
    lowers :
        {a : A} {changed : Bool} {pool' : MemoryPool}
        → H
        → P a
        → Same changed a original pool' pool
        → Grows pool pool'
        → Lowers H P original pool (ok (a, changed, pool'))
    refuses : (H → ⊥) → Lowers H P original pool (abort unreached)
    exhausts :
        {pool' : MemoryPool} (kind : AstKind)
        → Grows pool pool'
        → allocate pool' (size_of kind) ≡ abort fatal
        → Lowers H P original pool (abort fatal)

  pub convert-Lowers :
      {A : Type 0} {H K : Type 0} {P : A → Type 0} {original : A} {pool : MemoryPool}
      {m : Desugared A}
      → (H → K)
      → (K → H)
      → Lowers H P original pool m
      → Lowers K P original pool m
  convert-Lowers to from (Lowers.lowers h p s g) = Lowers.lowers (to h) p s g
  convert-Lowers to from (Lowers.refuses n) = Lowers.refuses (λ k. n (from k))
  convert-Lowers to from (Lowers.exhausts kind g e) = Lowers.exhausts kind g e

  pub and-Lowers :
      {B : Type 0} {H K : Type 0} {Q : B → Type 0} {y : B} {pool : MemoryPool} {o : Desugared B}
      → H
      → Lowers K Q y pool o
      → Lowers (H × K) Q y pool o
  and-Lowers h (Lowers.lowers k q s g) = Lowers.lowers (h, k) q s g
  and-Lowers h (Lowers.refuses n) = Lowers.refuses (λ k. n k.1)
  and-Lowers h (Lowers.exhausts kind g e) = Lowers.exhausts kind g e

  module _ {B : Type 0} {Q : B → Type 0} {y : B} {pool pool1 : MemoryPool}
      (g : Grows pool pool1) where
    pub bind-Lowers :
        {A : Type 0} {H K : Type 0} {P : A → Type 0} {x : A} {m : Desugared A}
        (k : A × Bool × MemoryPool → Desugared B)
        → Lowers H P x pool1 m
        → ((a : A) (c : Bool) (pool2 : MemoryPool)
            → P a
            → Same c a x pool2 pool1
            → Grows pool pool2
            → Lowers K Q y pool (k (a, c, pool2)))
        → Lowers (H × K) Q y pool (m >>= k)
    bind-Lowers k (Lowers.refuses n) f = Lowers.refuses (λ h. n h.0)
    bind-Lowers k (Lowers.exhausts kind g' e) f = Lowers.exhausts kind (Grows-trans g g') e
    bind-Lowers k (Lowers.lowers {a} {changed} {pool'} h p s g') f =
        and-Lowers h (f a changed pool' p s (Grows-trans g g'))

    -- The last part.
    pub last-Lowers :
        {A : Type 0} {H : Type 0} {P : A → Type 0} {x : A} {m : Desugared A}
        (k : A × Bool × MemoryPool → Desugared B)
        → Lowers H P x pool1 m
        → ((a : A) (c : Bool) (pool2 : MemoryPool)
            → P a
            → Same c a x pool2 pool1
            → Grows pool pool2
            → Lowers (Unit {0}) Q y pool (k (a, c, pool2)))
        → Lowers H Q y pool (m >>= k)
    last-Lowers k l f = convert-Lowers (λ h. h.0) (λ h. (h, tt)) (bind-Lowers k l f)

    pub new-Lowers :
        {K : Type 0} (kind : AstKind) (k : MemoryPool → Desugared B)
        → ((pool2 : MemoryPool) → Grows pool pool2 → Lowers K Q y pool (k pool2))
        → Lowers K Q y pool (new_node size_of kind pool1 >>= k)
    unfolding new_node
    new-Lowers kind k f = elim (allocate-cases pool1 (size_of kind)) [
      | inl (p, pool2, e) ↦ rw e (f pool2 (Grows.grown (size_of kind) g e))
      | inr e ↦ rw e (Lowers.exhausts kind g e)
    ]

    pub new_if-Lowers :
        {K : Type 0} (needed : Bool) (kind : AstKind) (k : MemoryPool → Desugared B)
        → ((pool2 : MemoryPool) → Grows pool pool2 → Lowers K Q y pool (k pool2))
        → Lowers K Q y pool (new_node_if size_of needed kind pool1 >>= k)
    unfolding new_node_if
    new_if-Lowers true kind k f = new-Lowers kind k f
    new_if-Lowers false kind k f = f pool1 g

    pub rebuilt-Lowers :
        (kind : AstKind) (changed : Bool) {b : B}
        → Q b
        → Same changed b y pool1 pool
        → Lowers (Unit {0}) Q y pool (rebuilt size_of kind changed y b pool1)
    unfolding rebuilt
    rebuilt-Lowers kind true q s =
        new-Lowers kind _ (λ pool2 g2. Lowers.lowers tt q (λ e. absurd (cc e)) g2)
    rebuilt-Lowers kind false q s = Lowers.lowers tt (subst Q (s refl).0 q) (λ e. (refl, (s e).1)) g
