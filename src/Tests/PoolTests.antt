-- ===== src/Tests/PoolTests.antt =====
-- A run of the pool allocator.
use fast_graph.Prelude.{ℕ, ◌≡◌, refl, some, [], ◌∷◌, arith, nat_eq, int_eq, text_eq}
use fast_graph.Memory.Pool.{PoolAllocator, slots, allocate}
use fast_graph.Memory.Pool.Fresh.{IsPool, Gives, allocate-Gives}

-- Two free slots, and a third in use.
abbrev pool : PoolAllocator
pool = record { free_list = 16 ∷ 8 ∷ []; blocks = 8 ∷ [] }

pool-IsPool : IsPool pool (24 ∷ [])
pool-IsPool = record { once = refl; apart = λ x m. ground (arith, m) }

allocate-Gives_example :
    (slot : ℕ) × (p' : PoolAllocator) × (allocate pool 3 8 800 ≡ (some slot, p'))
    × Gives pool p' (24 ∷ []) slot
unfolding slots
allocate-Gives_example =
    allocate-Gives pool (24 ∷ []) 3 8 800 pool-IsPool (omega arith) (omega arith)
      (λ x m. ground (arith, m))
