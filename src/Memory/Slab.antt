-- ===== src/Memory/Slab.antt =====
-- src/memory/slab.hpp: free lists by size class. A pointer is a number, not null; a list linked through
-- the free blocks is a list of their pointers; what `malloc` returns is an argument.
pub mod Reuse
use fast_graph.Prelude.{
  ℕ, zero, suc, ◌+◌, ◌-◌, ◌*◌, ◌/◌, ◌%◌, ◌^◌, ◌≤◌, ◌<◌, min, max, ◌≡◌, refl, sym, ap, subst, ◌∙◌,
  ◌≢◌, ◌↔◌, ◌⊎◌, inl, inr, ⊎_elim, Bool, true, false, not, ◌&&◌, ◌||◌, Option, none, some, List, [],
  ◌∷◌, ◌++◌, map, append-nil, append_assoc, arith, ltb, leb, if◌then◌else◌, Bool-cases,
  Option-cases, List-cases, length, get_elem?, get_or, set, take, drop, replicate, length-append,
  length-set, get_or-set_self, get_or-set_ne, length-take, length-drop, take-append_all,
  drop-append_all, ℤ, pos, negsuc, pos_part, neg_part, ◌+ℤ◌, ◌-ℤ◌, ◌≤ℤ◌, ◌<ℤ◌, ltb_ℤ, leb_ℤ,
  int_laws, Eq, ◌==◌, nat_eq, int_eq, text_eq, Text, eq_refl, eq_true, eq_false, eq_symm, ltb-true,
  ltb-false, leb-true, leb-false, drop-drop, get_or-drop, drop-append_of_length, drop-nil, take_all,
}

abbrev pub k_classes : List ℕ
k_classes = 8 ∷ 16 ∷ 32 ∷ 64 ∷ 128 ∷ 256 ∷ 512 ∷ 1024 ∷ 2048 ∷ []

pub record SlabAllocator : Type 0 where
  pub pools : List (List ℕ)

-- The loop of `size_class`, from class `i` on.
unfoldable pub first_class : ℕ → ℕ → List ℕ → Option ℕ
first_class size i [] = none
first_class size i (c ∷ cs) = if leb size c then some i else first_class size (suc i) cs

unfoldable pub size_class : ℕ → Option ℕ
unfolding first_class
size_class size = first_class size 0 k_classes

-- `FreeList::get`, with the pointer that `malloc` would return
unfoldable pub take_block : SlabAllocator → ℕ → List ℕ → ℕ → ℕ × SlabAllocator
take_block s cls [] fresh = (fresh, s)
take_block s cls (p ∷ ps) fresh = (p, record { pools = set s.pools cls ps })

unfoldable pub allocate : SlabAllocator → ℕ → ℕ → ℕ × SlabAllocator
unfolding take_block
allocate s size fresh = elim (size_class size) [
  | none ↦ (fresh, s)
  | some cls ↦ take_block s cls (get_or s.pools cls []) fresh
]

-- Above the classes, `free` is called.
unfoldable pub deallocate : SlabAllocator → ℕ → ℕ → SlabAllocator
deallocate s ptr size = elim (size_class size) [
  | none ↦ s
  | some cls ↦ record { pools = set s.pools cls (ptr ∷ get_or s.pools cls []) }
]
