-- ===== src/Tests/MemoryTests.antt =====
-- Runs of the arena and the string pool.
use fast_graph.Prelude.{
  ℕ, ◌^◌, ◌≡◌, refl, ◌↔◌, Option, some, [], ◌∷◌, arith, nat_eq, int_eq, text_eq,
}
use fast_graph.Prelude.{list_beq}
use fast_graph.Prelude.Dict.{find, put}
use fast_graph.Memory.Arena
use fast_graph.Memory.Arena.{Arena, alloc, alloc_all}
use fast_graph.Memory.Arena.Bounds
use fast_graph.Memory.Arena.Bounds.{
  Allocates, alloc-Allocates, Ascending, alloc_all-Ascending, IsAligned,
}
use fast_graph.Memory.StringPool
use fast_graph.Memory.StringPool.{StringPool, intern, c_str}
use fast_graph.Memory.StringPool.Pointers.{
  Holds, new-IsValid, Interns, intern-Interns, intern-intern_iff,
}
use fast_graph.Dispatch.Exceptions.{codes}

abbrev small : Arena
small = record { base = 4096; cap = 64; used = 5 }

small-IsValid : Bounds.IsValid small
small-IsValid = record { room = omega arith; small = omega arith }

alloc-Allocates_example :
    Allocates small 20 (2 ^ 4) (alloc small 20 (2 ^ 4))
    × IsAligned (2 ^ 4) (alloc small 20 (2 ^ 4)).0
alloc-Allocates_example = alloc-Allocates small 20 4 small-IsValid (omega arith, omega arith) refl

alloc_all-Ascending_example :
    Ascending 4101 4160 (alloc_all small ((20, 2 ^ 4) ∷ (90, 2 ^ 0) ∷ (4, 2 ^ 2) ∷ []))
alloc_all-Ascending_example =
    alloc_all-Ascending small ((20, 2 ^ 4) ∷ (90, 2 ^ 0) ∷ (4, 2 ^ 2) ∷ []) small-IsValid (
      (4, refl, (omega arith, omega arith)),
      ((0, refl, (omega arith, omega arith)), ((2, refl, (omega arith, omega arith)), tt)),
    )

abbrev pool : StringPool
pool = StringPool.new 4096 256

intern-Interns_example : Interns pool (codes "person") (intern pool (codes "person"))
intern-Interns_example =
    intern-Interns pool (codes "person") (new-IsValid 4096 256 (omega arith)) (omega arith)

abbrev first : Option ℕ × StringPool
unfolding intern
first = intern pool (codes "person")

abbrev second : Option ℕ × StringPool
unfolding intern
second = intern first.1 (codes "city")

first_run : intern pool (codes "person") ≡ (some 4096, first.1)
unfolding intern find StringPool.new Arena.new alloc Arena.align_up put list_beq StringPool.place
first_run = refl

second_run : intern first.1 (codes "city") ≡ (some 4112, second.1)
unfolding intern find StringPool.new Arena.new alloc Arena.align_up put list_beq StringPool.place
    first
second_run = refl

intern-intern_iff_example :
    ((◌≡◌ {A = ℕ} 4096 4112) ↔ (codes "person" ≡ codes "city"))
    × Holds second.1.mem 4096 (c_str (codes "person"))
intern-intern_iff_example =
    intern-intern_iff pool first.1 second.1 (codes "person") (codes "city") 4096 4112
      (new-IsValid 4096 256 (omega arith)) (omega arith) (omega arith) first_run second_run
