-- ===== src/MemoryPool/Bounds.antt =====
-- memory_pool.cpp: what is allocated lies within the pool and does not overlap.
use mathlib.Core.Path.{subst}
use janguage.Base.{
  sym, refl, ◌<◌, ltb, ℕ, ◌+◌, ◌≤◌, ◌≡◌, List, [], ◌∷◌, leb, leb→le, if◌then◌else◌, Bool-cases, inl,
  inr, Outcome, ok, abort, fatal, ◌>>=◌, arith,
}
use janguage.MemoryPool.{MemoryPool, address_space, advance_pointer, make, allocate, reset}

-- The blocks, first byte and size, that lie below a pointer, which a reset to it leaves alone.
abbrev pub below : ℕ → List (ℕ × ℕ) → List (ℕ × ℕ)
below limit [] = []
below limit ((p, n) ∷ blocks) =
    if leb (p + n) limit then (p, n) ∷ below limit blocks else below limit blocks

-- The memory of the pool ends within the address space, as memory that `malloc` returns does, and would
-- with `n` bytes more.
abbrev pub HasRoom : MemoryPool → ℕ → Type 0
HasRoom pool n = pool.memory_start + pool.capacity + n < address_space

-- The pools that the operations lead to, with the blocks that are in use, the last one first. No size is
-- so large that a pointer behind the pool would wrap around.
pub data Live : MemoryPool → List (ℕ × ℕ) → Type 0 where
  made :
      (memory_start capacity : ℕ)
      → HasRoom (make memory_start capacity) 0
      → Live (make memory_start capacity) []
  allocated :
      {pool pool' : MemoryPool} {blocks : List (ℕ × ℕ)} (n : ℕ) {p : ℕ}
      → Live pool blocks
      → HasRoom pool n
      → allocate pool n ≡ ok (p, pool')
      → Live pool' ((p, n) ∷ blocks)
  released :
      {pool pool' : MemoryPool} {blocks : List (ℕ × ℕ)} (p : ℕ)
      → Live pool blocks
      → reset pool p ≡ ok pool'
      → Live pool' (below p blocks)

-- Each block ends where the one before it in the list begins, or below, and none begins in front of
-- `first`.
abbrev pub LaidOut : ℕ → ℕ → List (ℕ × ℕ) → Type 0
LaidOut first limit [] = first ≤ limit
LaidOut first limit ((p, n) ∷ blocks) = (p + n ≤ limit) × LaidOut first p blocks

LaidOut-mono :
    (first : ℕ) {k m : ℕ} (blocks : List (ℕ × ℕ))
    → k ≤ m
    → LaidOut first k blocks
    → LaidOut first m blocks
LaidOut-mono first [] le h = omega arith
LaidOut-mono first ((p, n) ∷ blocks) le h = (omega (arith, h.0), h.1)

LaidOut-below :
    (first limit k : ℕ) (blocks : List (ℕ × ℕ))
    → first ≤ limit
    → LaidOut first k blocks
    → LaidOut first k (below limit blocks) × LaidOut first limit (below limit blocks)
LaidOut-below first limit k [] le h = (h, le)
LaidOut-below first limit k ((p, n) ∷ blocks) le h = elim (Bool-cases (leb (p + n) limit)) [
  | inl e ↦ rw e (
    (h.0, (LaidOut-below first limit p blocks le h.1).0),
    (leb→le (p + n) limit e, (LaidOut-below first limit p blocks le h.1).0),
  )
  | inr e ↦
      let (inside, under) = LaidOut-below first limit p blocks le h.1 in
      rw e (LaidOut-mono first (below limit blocks) (omega (arith, h.0)) inside, under)
]

advance_pointer-small :
    (p bytes : ℕ) → p + bytes < address_space → advance_pointer p bytes ≡ p + bytes
unfolding advance_pointer
advance_pointer-small p bytes h = omega arith

-- The memory of the pool lies within the address space, and the cursor in it or at its end.
pub record IsWithin (pool : MemoryPool) : Type 0 where
  pub room : HasRoom pool 0
  pub from : pool.memory_start ≤ pool.cursor
  pub up_to : pool.cursor ≤ pool.memory_start + pool.capacity

-- What `allocate` does where nothing wraps around.
allocate-small :
    (pool : MemoryPool) (n : ℕ)
    → IsWithin pool
    → HasRoom pool n
    → allocate pool n ≡ (
        if ltb (pool.memory_start + pool.capacity) (pool.cursor + n)
        then abort fatal
        else ok (pool.cursor, record pool { cursor = pool.cursor + n }))
unfolding allocate
allocate-small pool n w h =
    rw
      (
        advance_pointer-small pool.memory_start pool.capacity (omega (arith, w.room)),
        advance_pointer-small pool.cursor n (omega (arith, h, w.up_to)),
      )
      refl

allocate-eq :
    (pool : MemoryPool) (n : ℕ) {p : ℕ} {pool' : MemoryPool}
    → IsWithin pool
    → HasRoom pool n
    → allocate pool n ≡ ok (p, pool')
    → (p ≡ pool.cursor)
      × (pool' ≡ record pool { cursor = pool.cursor + n })
      × (pool.cursor + n ≤ pool.memory_start + pool.capacity)
allocate-eq pool n w h e = ground (arith, allocate-small pool n w h)

reset-eq :
    (pool : MemoryPool) (p : ℕ) {pool' : MemoryPool}
    → IsWithin pool
    → reset pool p ≡ ok pool'
    → (pool' ≡ record pool { cursor = p })
      × (pool.memory_start ≤ p)
      × (p ≤ pool.memory_start + pool.capacity)
unfolding reset
reset-eq pool p w e =
    ground (arith, advance_pointer-small pool.memory_start pool.capacity (omega (arith, w.room)))

-- In every pool that allocations and resets lead to, where no size is so large that a pointer behind the
-- pool would wrap around, the blocks in use do not overlap, and lie between the start of the pool and
-- its cursor, which does not pass its end.
pub Live-LaidOut :
    {pool : MemoryPool} {blocks : List (ℕ × ℕ)}
    → Live pool blocks
    → LaidOut pool.memory_start pool.cursor blocks × IsWithin pool
Live-LaidOut (made memory_start capacity h) =
    unfold make in (omega arith, record { room = h; from = omega arith; up_to = omega arith })
Live-LaidOut (allocated {pool} {pool'} {blocks} n {p} l h e) =
    let (laid_out, w) = Live-LaidOut l in
    let (p_is, pool_is, fits) = allocate-eq pool n w h e in
    subst (λ pool'. LaidOut pool'.memory_start pool'.cursor ((p, n) ∷ blocks) × IsWithin pool')
      (sym pool_is)
      (
        (omega (arith, p_is), LaidOut-mono pool.memory_start blocks (omega (arith, p_is)) laid_out),
        record { room = w.room; from = omega (arith, w.from); up_to = fits },
      )
Live-LaidOut (released {pool} {pool'} {blocks} p l e) =
    let (laid_out, w) = Live-LaidOut l in
    let (pool_is, from, up_to) = reset-eq pool p w e in
    let (_, under) = LaidOut-below pool.memory_start p pool.cursor blocks from laid_out in
    subst (λ pool'. LaidOut pool'.memory_start pool'.cursor (below p blocks) × IsWithin pool')
      (sym pool_is) (under, record { room = w.room; from = from; up_to = up_to })

abbrev pub allocate_all : MemoryPool → List ℕ → Outcome MemoryPool
allocate_all pool [] = ok pool
allocate_all pool (n ∷ sizes) = do (p, pool') ← allocate pool n; allocate_all pool' sizes

abbrev pub sum : List ℕ → ℕ
sum [] = 0
sum (n ∷ sizes) = n + sum sizes

-- From a pool whose memory lies within the address space and whose cursor lies in it, a run of
-- allocations whose sizes together do not make a pointer behind the pool wrap around succeeds exactly
-- when they fit behind the cursor, and then moves the cursor by that much; otherwise the program stops
-- with the message of FATAL.
pub allocate_all-sum :
    (pool : MemoryPool) (sizes : List ℕ)
    → IsWithin pool
    → HasRoom pool (sum sizes)
    → allocate_all pool sizes ≡ (
        if leb (pool.cursor + sum sizes) (pool.memory_start + pool.capacity)
        then ok (record pool { cursor = pool.cursor + sum sizes })
        else abort fatal)
allocate_all-sum pool [] w h = ground (arith, w.up_to)
allocate_all-sum pool (n ∷ sizes) w h =
    let first = allocate-small pool n w (omega (arith, h)) in
    elim (Bool-cases (ltb (pool.memory_start + pool.capacity) (pool.cursor + n))) [
      | inl full ↦ rw (first, full) (ground (arith, full))
      | inr fits ↦
          let next_pool = record pool { cursor = pool.cursor + n } in
          let le : pool.cursor + n ≤ pool.memory_start + pool.capacity = ground (arith, fits) in
          let rest =
            allocate_all-sum next_pool sizes
              (record { room = w.room; from = omega (arith, w.from); up_to = le })
              (omega (arith, h)) in
          let regroup : pool.cursor + n + sum sizes ≡ pool.cursor + (n + sum sizes) = omega arith in
          rw (first, fits) (rw regroup at rest)
    ]
