-- ===== src/Memory/StringPool.antt =====
-- src/memory/string_pool.hpp: the pool of interned labels.
-- The bytes of the arena are a function of the address.
pub mod Pointers
use fast_graph.Prelude.{
  ℕ, ◌+◌, ◌≡◌, Option, none, some, [], ◌∷◌, ◌++◌, Text, ◌==◌, length, if◌then◌else◌, nat_eq,
  text_eq,
}
use fast_graph.Prelude.Dict.{Dict, find, put}
use fast_graph.Memory.Arena
use fast_graph.Memory.Arena.{Arena, alloc}

pub record StringPool : Type 0 where
  pub arena : Arena
  pub mem : ℕ → ℕ
  pub table : Dict Text ℕ

unfoldable pub new : ℕ → ℕ → StringPool
new base arena_size = record { arena = Arena.new base arena_size; mem = λ _. 0; table = [] }

-- `memcpy(p, data, n)`
unfoldable pub memcpy : (ℕ → ℕ) → ℕ → Text → ℕ → ℕ
memcpy mem p [] = mem
memcpy mem p (b ∷ bs) = memcpy (λ i. if i == p then b else mem i) (p + 1) bs

-- `s.data()` with its terminator: the `s.size() + 1` bytes that are copied
abbrev pub c_str : Text → Text
c_str s = s ++ 0 ∷ []

-- `alignof(std::max_align_t)`, the default alignment of `alloc`
abbrev pub max_align : ℕ
max_align = 16

unfoldable pub place : StringPool → Text → Option ℕ × Arena → Option ℕ × StringPool
place p s (none, a) = (none, record p { arena = a })
place p s (some q, a) =
    (some q, record { arena = a; mem = memcpy p.mem q (c_str s); table = put s q p.table })

unfoldable pub intern : StringPool → Text → Option ℕ × StringPool
unfolding place
intern p s = elim (find s p.table) [
  | some q ↦ (some q, p)
  | none ↦ place p s (alloc p.arena (length s + 1) max_align)
]
