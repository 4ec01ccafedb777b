-- ===== src/Examples/Pools.antt =====
-- memory_pool.cpp at a pool of sixteen bytes.
use janguage.Base.{ℕ, ◌≡◌, refl, [], ◌∷◌, ok, abort, fatal, arith}
use janguage.MemoryPool.{MemoryPool, make, allocate}
use janguage.MemoryPool.Bounds.{
  Live, IsWithin, LaidOut, Live-LaidOut, allocate_all, allocate_all-sum,
}

abbrev pool_at : ℕ → MemoryPool
pool_at cursor = record { capacity = 16; memory_start = 4096; cursor = cursor }

first_run : allocate (make 4096 16) 10 ≡ ok (4096, pool_at 4106)
unfolding allocate make
first_run = refl

second_run : allocate (pool_at 4106) 6 ≡ ok (4106, pool_at 4112)
unfolding allocate
second_run = refl

both-Live : Live (pool_at 4112) ((4106, 6) ∷ (4096, 10) ∷ [])
unfolding make
both-Live =
    Live.allocated 6 (Live.allocated 10 (Live.made 4096 16 (omega arith)) (omega arith) first_run)
      (omega arith) second_run

Live-LaidOut_example : LaidOut 4096 4112 ((4106, 6) ∷ (4096, 10) ∷ []) × IsWithin (pool_at 4112)
Live-LaidOut_example = Live-LaidOut both-Live

pool-IsWithin : IsWithin (pool_at 4106)
pool-IsWithin = record { room = omega arith; from = omega arith; up_to = omega arith }

allocate_all-sum_example : allocate_all (pool_at 4106) (3 ∷ 4 ∷ []) ≡ abort fatal
allocate_all-sum_example = allocate_all-sum (pool_at 4106) (3 ∷ 4 ∷ []) pool-IsWithin (omega arith)
