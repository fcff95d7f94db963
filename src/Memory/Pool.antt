-- ===== src/Memory/Pool.antt =====
-- src/memory/pool_allocator.hpp: `PoolAllocator`. The list linked through the free slots is a list of
-- their pointers; what `malloc` returns is an argument, and so are the size of a slot and their number
-- in a block, which the code asserts to be positive.
pub mod Fresh
use fast_graph.Prelude.{
  ℕ, zero, suc, ◌+◌, ◌-◌, ◌*◌, ◌/◌, ◌%◌, ◌^◌, ◌≤◌, ◌<◌, min, max, ◌≡◌, refl, sym, ap, subst, ◌∙◌,
  ◌≢◌, ◌↔◌, ◌⊎◌, inl, inr, ⊎_elim, Bool, true, false, not, ◌&&◌, ◌||◌, Option, none, some, List, [],
  ◌∷◌, ◌++◌, map, append-nil, append_assoc, arith, ltb, leb, if◌then◌else◌, Bool-cases,
  Option-cases, List-cases, length, get_elem?, get_or, set, take, drop, replicate, length-append,
  length-set, get_or-set_self, get_or-set_ne, length-take, length-drop, take-append_all,
  drop-append_all, ℤ, pos, negsuc, pos_part, neg_part, ◌+ℤ◌, ◌-ℤ◌, ◌≤ℤ◌, ◌<ℤ◌, ltb_ℤ, leb_ℤ,
  int_laws, Eq, ◌==◌, nat_eq, int_eq, text_eq, Text, eq_refl, eq_true, eq_false, eq_symm, ltb-true,
  ltb-false, leb-true, leb-false, drop-drop, get_or-drop, drop-append_of_length, drop-nil, take_all,
}

pub record PoolAllocator : Type 0 where
  pub free_list : List ℕ
  pub blocks : List ℕ

-- The slots of a block, in the order in which `grow` links them.
unfoldable pub slots : ℕ → ℕ → ℕ → List ℕ
slots zero size block = []
slots (suc count) size block = block ∷ slots count size (block + size)

unfoldable pub grow : PoolAllocator → ℕ → ℕ → ℕ → PoolAllocator
unfolding slots
grow p count size block = record {
  free_list = slots count size block ++ p.free_list;
  blocks = p.blocks ++ block ∷ [];
}

abbrev pub pop_slot : PoolAllocator → Option ℕ × PoolAllocator
pop_slot p = elim p.free_list [
  | [] ↦ (none, p)
  | slot ∷ rest ↦ (some slot, record p { free_list = rest })
]

-- `none` only where a block has no slot.
unfoldable pub allocate : PoolAllocator → ℕ → ℕ → ℕ → Option ℕ × PoolAllocator
unfolding grow
allocate p count size block = elim p.free_list [
  | [] ↦ pop_slot (grow p count size block)
  | slot ∷ rest ↦ pop_slot p
]

unfoldable pub deallocate : PoolAllocator → ℕ → PoolAllocator
deallocate p ptr = record p { free_list = ptr ∷ p.free_list }
