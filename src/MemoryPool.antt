-- ===== src/MemoryPool.antt =====
-- memory_pool.h and memory_pool.cpp: a bump allocator. Pointers and sizes are 64-bit words, so that what
-- is added to a pointer wraps around. `memory_start` is what `malloc` has returned.
pub mod Bounds
use janguage.Base.{ℕ, ◌+◌, ◌%◌, ◌||◌, ltb, if◌then◌else◌, Outcome, ok, abort, fatal, ◌>>=◌}

-- 2 to the power of 64.
abbrev pub address_space : ℕ
address_space = 18446744073709551616

-- A pointer, moved on.
unfoldable pub advance_pointer : ℕ → ℕ → ℕ
advance_pointer p bytes = (p + bytes) % address_space

pub record MemoryPool : Type 0 where
  pub capacity : ℕ
  pub memory_start : ℕ
  pub cursor : ℕ

-- `MemoryPool(capacity)`, with the pointer that `malloc` returns.
unfoldable pub make : ℕ → ℕ → MemoryPool
make memory_start capacity = record {
  capacity = capacity;
  memory_start = memory_start;
  cursor = memory_start;
}

unfoldable pub allocate : MemoryPool → ℕ → Outcome (ℕ × MemoryPool)
unfolding advance_pointer
allocate pool bytes =
    if ltb (advance_pointer pool.memory_start pool.capacity) (advance_pointer pool.cursor bytes)
    then abort fatal
    else ok (pool.cursor, record pool { cursor = advance_pointer pool.cursor bytes })

-- The span is its first byte and its size.
unfoldable pub allocate_span : MemoryPool → ℕ → Outcome (ℕ × ℕ × MemoryPool)
unfolding allocate
allocate_span pool bytes = do (result, pool') ← allocate pool bytes; ok (result, bytes, pool')

unfoldable pub reset : MemoryPool → ℕ → Outcome MemoryPool
unfolding advance_pointer
reset pool where_to =
    if ltb where_to pool.memory_start
      || ltb (advance_pointer pool.memory_start pool.capacity) where_to
    then abort fatal
    else ok (record pool { cursor = where_to })
