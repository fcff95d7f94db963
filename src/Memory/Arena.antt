-- ===== src/Memory/Arena.antt =====
-- src/memory/arena.hpp: the bump allocator. A pointer is an address, `nullptr` is `none`, and `size_t`
-- wraps at 2 ^ 64. `base` is the address `buf_`, which `malloc` returns: a multiple of
-- `alignof(std::max_align_t)`.
pub mod Bounds
use Prim.Native.Nat.{bit_and}
use fast_graph.Prelude.{
  ℕ, ◌+◌, ◌-◌, ◌*◌, ◌%◌, ◌^◌, Option, none, some, List, [], ◌∷◌, ltb, if◌then◌else◌,
}

pub record Arena : Type 0 where
  pub base : ℕ
  pub cap : ℕ
  pub used : ℕ

abbrev pub size_mod : ℕ
size_mod = 2 ^ 64

-- `explicit Arena(size_t capacity)`
unfoldable pub new : ℕ → ℕ → Arena
new base capacity = record { base = base; cap = capacity; used = 0 }

-- ( used_ + align - 1 ) & ~( align - 1 )
unfoldable pub align_up : ℕ → ℕ → ℕ
align_up used align = bit_and ((used + align - 1) % size_mod) (size_mod - align)

unfoldable pub alloc : Arena → ℕ → ℕ → Option ℕ × Arena
alloc a size align =
    let offset = align_up a.used align in
    if ltb a.cap ((offset + size) % size_mod)
    then (none, a)
    else (some (a.base + offset), record a { used = (offset + size) % size_mod })

-- `alloc_array<T>(n)`, with the size and the alignment of `T`
unfoldable pub alloc_array : Arena → ℕ → ℕ → ℕ → Option ℕ × Arena
alloc_array a size_of align_of n = alloc a (size_of * n % size_mod) align_of

unfoldable pub reset : Arena → Arena
reset a = record a { used = 0 }

-- A block (address, size) joins those handed out later; a refused request gives none.
abbrev pub collect : Option ℕ → ℕ → List (ℕ × ℕ) → List (ℕ × ℕ)
collect none size blocks = blocks
collect (some ptr) size blocks = (ptr, size) ∷ blocks

-- The blocks that a run of requests (size, alignment) is handed.
unfoldable pub alloc_all : Arena → List (ℕ × ℕ) → List (ℕ × ℕ)
alloc_all a [] = []
alloc_all a ((size, align) ∷ rest) =
    collect (alloc a size align).0 size (alloc_all (alloc a size align).1 rest)
