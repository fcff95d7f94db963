-- ===== src/Tests/SlabTests.antt =====
-- Runs of the slab allocator.
use fast_graph.Prelude.{◌≡◌, refl, some, [], ◌∷◌, nat_eq, int_eq, text_eq}
use fast_graph.Memory.Slab.{SlabAllocator, size_class, allocate, deallocate}
use fast_graph.Memory.Slab.Reuse.{allocate-deallocate}

class_20 : size_class 20 ≡ some 2
unfolding size_class
class_20 = refl

class_30 : size_class 30 ≡ some 2
unfolding size_class
class_30 = refl

abbrev slab : SlabAllocator
slab = record { pools = [] ∷ [] ∷ (700 ∷ []) ∷ [] ∷ [] ∷ [] ∷ [] ∷ [] ∷ [] ∷ [] }

allocate-deallocate_example : allocate (deallocate slab 400 20) 30 800 ≡ (400, slab)
allocate-deallocate_example = allocate-deallocate slab 400 20 30 2 800 refl class_20 class_30
