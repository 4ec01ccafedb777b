-- ===== src/Checker/Scopes.antt =====
-- node.cpp: `BlockNode::find_declaration` finds the declaration of the innermost block around.
use mathlib.Core.Path.{subst}
use janguage.Base.{
  ◌≡◌, refl, ap, sym, ◌∙◌, ℕ, zero, suc, ◌≤◌, ◌<◌, List, length, Option-cases, none, some, ok, ◌⊎◌,
  inl, inr, Bytes, arith,
}
use janguage.Ast.{CompilerErrorKind}
use janguage.Nodes.{Address, at, NodePointer, Node, Pool}
use janguage.Nodes.Parts.{node_at-lt}
use janguage.Checker.{State, node_of}
use janguage.Checker.Expressions.{find, find_declaration, find_declaration_within}

-- The block around a block is a block that was made before it.
abbrev pub IsNested : Pool → Type 0
IsNested pool =
    (i : ℕ) (xs : List NodePointer) (p : Address) (kind : CompilerErrorKind)
    → node_of pool (at i) ≡ some (Node.block xs (some p) kind)
    → (j : ℕ) × (ys : List NodePointer) × (q : NodePointer) × (kind' : CompilerErrorKind) × (p
        ≡ at j)
      × (j < i)
      × (node_of pool (at j) ≡ some (Node.block ys q kind'))

-- A block, and the blocks around it.
pub data Encloses (pool : Pool) (i : ℕ) : ℕ → Type 0 where
  self : Encloses pool i i
  outer :
      {j l : ℕ} (xs : List NodePointer) (kind : CompilerErrorKind)
      → Encloses pool i j
      → node_of pool (at j) ≡ some (Node.block xs (some (at l)) kind)
      → Encloses pool i l

-- What a name means in a block: the declaration in the innermost block around that has one. Blocks
-- further inside are those at higher places.
abbrev pub Means : State → Bytes → ℕ → NodePointer → Type 0
Means s name i none = (m : ℕ) → Encloses s.pool i m → find name (s.table (at m)) ≡ none
Means s name i (some d) =
    (l : ℕ) × Encloses s.pool i l
    × (find name (s.table (at l)) ≡ some d)
    × ((m : ℕ) → Encloses s.pool i m → l < m → find name (s.table (at m)) ≡ none)

Encloses-le : (pool : Pool) (i m : ℕ) → IsNested pool → Encloses pool i m → m ≤ i
Encloses-le pool i m h self = omega arith
Encloses-le pool i m h (outer {j} {l} xs kind e n) =
    let (l', _, _, _, p, lt, _) = h j xs (at l) kind n in
    let same : l ≡ l' = cc p in omega (arith, same, lt, Encloses-le pool i j h e)

-- The blocks around a block are it, or around its parent.
through :
    (pool : Pool) (i j m : ℕ) (xs : List NodePointer) (kind : CompilerErrorKind)
    → node_of pool (at i) ≡ some (Node.block xs (some (at j)) kind)
    → Encloses pool i m
    → (m ≡ i) ⊎ Encloses pool j m
through pool i j m xs kind n self = inl refl
through pool i j m xs kind n (outer {j = k} {l = l} ys kind' e n') =
    elim (through pool i j k xs kind n e) [
      | inl p ↦ let same : l ≡ j = cc (n, n', p) in inr (subst (Encloses pool j) (sym same) self)
      | inr e' ↦ inr (outer ys kind' e' n')
    ]

prepend :
    (pool : Pool) (i j m : ℕ) (xs : List NodePointer) (kind : CompilerErrorKind)
    → node_of pool (at i) ≡ some (Node.block xs (some (at j)) kind)
    → Encloses pool j m
    → Encloses pool i m
prepend pool i j m xs kind n self = outer xs kind self n
prepend pool i j m xs kind n (outer ys kind' e n') =
    outer ys kind' (prepend pool i j _ xs kind n e) n'

module _ (s : State) (name : Bytes) (nested : IsNested s.pool) where
  Means-outer :
      (i j : ℕ) (xs : List NodePointer) (kind : CompilerErrorKind) (r : NodePointer)
      → node_of s.pool (at i) ≡ some (Node.block xs (some (at j)) kind)
      → find name (s.table (at i)) ≡ none
      → Means s name j r
      → Means s name i r
  Means-outer i j xs kind none n h means =
      λ m e. elim (through s.pool i j m xs kind n e) [ inl p ↦ rw p h | inr e' ↦ means m e' ]
  Means-outer i j xs kind (some d) n h (l, e, f, inner) = (
    l,
    prepend s.pool i j l xs kind n e,
    f,
    λ m e' lt. elim (through s.pool i j m xs kind n e') [
      | inl p ↦ rw p h
      | inr e'' ↦ inner m e'' lt
    ],
  )

  -- Only the block itself is around a global block.
  global_Encloses :
      (i m : ℕ) (xs : List NodePointer) (kind : CompilerErrorKind)
      → node_of s.pool (at i) ≡ some (Node.block xs none kind)
      → Encloses s.pool i m
      → m ≡ i
  global_Encloses i m xs kind n self = refl
  global_Encloses i m xs kind n (outer ys kind' e n') =
      let p = global_Encloses i _ xs kind n e in cc (n, n', p)

  found_here : (i : ℕ) (d : Address) → find name (s.table (at i)) ≡ some d → Means s name i (some d)
  found_here i d h =
      (i, self, h, λ m e lt. absurd (omega (arith, lt, Encloses-le s.pool i m nested e)))

  step_found :
      (fuel i : ℕ) (d : Address)
      → find name (s.table (at i)) ≡ some d
      → find_declaration_within (suc fuel) s (at i) name ≡ ok (some d)
  unfolding find_declaration_within
  step_found fuel i d h = ground arith

  step_global :
      (fuel i : ℕ) (xs : List NodePointer) (kind : CompilerErrorKind)
      → find name (s.table (at i)) ≡ none
      → node_of s.pool (at i) ≡ some (Node.block xs none kind)
      → find_declaration_within (suc fuel) s (at i) name ≡ ok none
  unfolding find_declaration_within
  step_global fuel i xs kind h n = ground arith

  step_outer :
      (fuel i : ℕ) (xs : List NodePointer) (p : Address) (kind : CompilerErrorKind)
      → find name (s.table (at i)) ≡ none
      → node_of s.pool (at i) ≡ some (Node.block xs (some p) kind)
      → find_declaration_within (suc fuel) s (at i) name ≡ find_declaration_within fuel s p name
  unfolding find_declaration_within
  step_outer fuel i xs p kind h n = ground arith

  search_from :
      (fuel i : ℕ) (xs : List NodePointer) (parent : NodePointer) (kind : CompilerErrorKind)
      → i < fuel
      → node_of s.pool (at i) ≡ some (Node.block xs parent kind)
      → (r : NodePointer) × (find_declaration_within fuel s (at i) name ≡ ok r) × Means s name i r
  search_from zero i xs parent kind lt n = absurd (omega arith)
  search_from (suc fuel) i xs none kind lt n = elim (Option-cases (find name (s.table (at i)))) [
    | inl h ↦ (none, step_global fuel i xs kind h n, λ m e. rw (global_Encloses i m xs kind n e) h)
    | inr (d, h) ↦ (some d, step_found fuel i d h, found_here i d h)
  ]
  search_from (suc fuel) i xs (some p) kind lt n =
      elim (Option-cases (find name (s.table (at i)))) [
        | inl h ↦
            let (j, ys, q, kind', e, below, n') = nested i xs p kind n in
            let (r, run, means) = search_from fuel j ys q kind' (omega (arith, below, lt)) n' in
            let parent = n ∙ ap (λ p. some (Node.block xs (some p) kind)) e in
            (
              r,
              step_outer fuel i xs (at j) kind h parent ∙ run,
              Means-outer i j xs kind r parent h means,
            )
        | inr (d, h) ↦ (some d, step_found fuel i d h, found_here i d h)
      ]

  -- In a pool whose blocks come after their parent blocks, `find_declaration` on a block returns. It
  -- returns the declaration that the innermost block around has of the name, or null if none of them
  -- has one.
  pub find_declaration-Means :
      (i : ℕ) (xs : List NodePointer) (parent : NodePointer) (kind : CompilerErrorKind)
      → node_of s.pool (at i) ≡ some (Node.block xs parent kind)
      → (r : NodePointer) × (find_declaration s (at i) name ≡ ok r) × Means s name i r
  unfolding find_declaration node_of
  find_declaration-Means i xs parent kind n =
      search_from (suc (length s.pool)) i xs parent kind
        (omega (arith, node_at-lt s.pool i (Node.block xs parent kind) n)) n
