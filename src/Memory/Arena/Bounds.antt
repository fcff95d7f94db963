-- ===== src/Memory/Arena/Bounds.antt =====
-- The blocks that `Arena::alloc` of src/memory/arena.hpp returns.
use native.Mathlib.Nat.{add-mod, one-le-pow, pow-le-pow_right, mod-eq_of_lt}
use fast_graph.Prelude.{
  ℕ, ◌+◌, ◌-◌, ◌*◌, ◌/◌, ◌%◌, ◌^◌, ◌≤◌, ◌<◌, ◌≡◌, refl, ◌⊎◌, inl, inr, Option, none, some, List, [],
  ◌∷◌, arith, ltb, Bool-cases, subst,
}
use fast_graph.Prelude.Bits.{bit_and_high}
use fast_graph.Memory.Arena.{Arena, align_up, alloc, alloc_all}

-- The arena lies in memory, so that no computation on a request of less than 2 ^ 62 bytes wraps.
pub record IsValid (a : Arena) : Type 0 where
  pub room : a.used ≤ a.cap
  pub small : a.cap < 2 ^ 62

abbrev pub IsRequest : ℕ → ℕ → Type 0
IsRequest size k = (size < 2 ^ 62) × (k ≤ 12)

pow-le : (k : ℕ) → k ≤ 12 → (1 ≤ 2 ^ k) × (2 ^ k ≤ 4096)
pow-le k h = (one-le-pow k 2 (omega arith), pow-le-pow_right {n = 2} (omega arith) h)

align_up_lem :
    (used k : ℕ)
    → used < 2 ^ 62
    → k ≤ 12
    → align_up used (2 ^ k) ≡ (used + 2 ^ k - 1) / 2 ^ k * 2 ^ k
unfolding align_up
align_up_lem used k h p =
    let b = pow-le k p in
    rw (mod-eq_of_lt {n = used + 2 ^ k - 1} {m = 2 ^ 64} (omega arith))
      (bit_and_high k 64 (used + 2 ^ k - 1) (omega arith) (omega arith))

-- Rounding `used` up to a multiple of `m`.
round_up :
    (used m : ℕ)
    → 1 ≤ m
    → (used ≤ (used + m - 1) / m * m)
      × ((used + m - 1) / m * m ≤ used + m - 1)
      × ((used + m - 1) / m * m % m ≡ 0)
round_up used m h = (grind arith, grind arith, grind arith)

aligned_sum : (b offset m : ℕ) → 1 ≤ m → b % m ≡ 0 → offset % m ≡ 0 → (b + offset) % m ≡ 0
aligned_sum b offset m h p q = rw (add-mod b offset m, p, q) (mod-eq_of_lt {n = 0} {m = m} h)

-- What a call returns: no block, for want of room, or one whose offset from `base` is the next
-- multiple of the alignment.
abbrev pub Allocates : Arena → ℕ → ℕ → Option ℕ × Arena → Type 0
Allocates a size align (none, a') = (a' ≡ a) × (a.cap < a.used + align - 1 + size)
Allocates a size align (some ptr, a') =
    (a.base + a.used ≤ ptr)
    × ((ptr - a.base) % align ≡ 0)
    × (ptr + size ≤ a.base + a.cap)
    × (a' ≡ record a { used = ptr - a.base + size })

abbrev pub IsAligned : ℕ → Option ℕ → Type 0
IsAligned align none = Unit
IsAligned align (some ptr) = ptr % align ≡ 0

pub alloc_lem :
    (a : Arena) (size k : ℕ)
    → IsValid a
    → IsRequest size k
    → Allocates a size (2 ^ k) (alloc a size (2 ^ k))
unfolding alloc
alloc_lem a size k v r =
    let b = pow-le k r.1 in
    let offset = align_up a.used (2 ^ k) in
    let e : offset ≡ (a.used + 2 ^ k - 1) / 2 ^ k * 2 ^ k =
      align_up_lem a.used k (omega arith) r.1 in
    let (lo, hi, aligned) = round_up a.used (2 ^ k) b.0 in
    let no_wrap : (offset + size) % 2 ^ 64 ≡ offset + size =
      mod-eq_of_lt {n = offset + size} {m = 2 ^ 64} (omega arith) in
    let back : a.base + offset - a.base ≡ offset = omega arith in
    elim (Bool-cases (ltb a.cap (offset + size))) [
      | inl full ↦ rw (no_wrap, full) (refl, ground arith)
      | inr fits ↦ rw (no_wrap, fits) (rw back (omega arith, rw e aligned, ground arith, refl))
    ]

Allocates-IsAligned :
    (a : Arena) (size align : ℕ) (r : Option ℕ × Arena)
    → 1 ≤ align
    → a.base % align ≡ 0
    → Allocates a size align r
    → IsAligned align r.0
Allocates-IsAligned a size align (none, a') h b s = tt
Allocates-IsAligned a size align (some ptr, a') h b (lo, aligned, _, _) =
    subst (λ p. p % align ≡ 0) (omega arith) (aligned_sum a.base (ptr - a.base) align h b aligned)

-- A request on a valid arena, whose buffer is at a multiple of the alignment that is asked for, gets
-- an aligned block in the buffer behind the bytes in use, and `used` moves behind it; or it gets none,
-- only for want of room, and the arena is unchanged.
pub alloc-Allocates :
    (a : Arena) (size k : ℕ)
    → IsValid a
    → IsRequest size k
    → a.base % 2 ^ k ≡ 0
    → Allocates a size (2 ^ k) (alloc a size (2 ^ k)) × IsAligned (2 ^ k) (alloc a size (2 ^ k)).0
alloc-Allocates a size k v r b =
    let s = alloc_lem a size k v r in
    (s, Allocates-IsAligned a size (2 ^ k) _ ((pow-le k r.1).0) b s)

-- Blocks in ascending order between two bounds, none overlapping the next.
abbrev pub Ascending : ℕ → ℕ → List (ℕ × ℕ) → Type 0
Ascending lo hi [] = lo ≤ hi
Ascending lo hi ((ptr, size) ∷ blocks) = (lo ≤ ptr) × Ascending (ptr + size) hi blocks

abbrev pub AreRequests : List (ℕ × ℕ) → Type 0
AreRequests [] = Unit
AreRequests ((size, align) ∷ rest) =
    ((k : ℕ) × (align ≡ 2 ^ k) × IsRequest size k) × AreRequests rest

Allocates-cases :
    (a : Arena) (size align : ℕ) (r : Option ℕ × Arena)
    → Allocates a size align r
    → ((r.0 ≡ none) × (r.1 ≡ a))
      ⊎ ((ptr : ℕ) × (r.0 ≡ some ptr)
          × (r.1 ≡ record a { used = ptr - a.base + size })
          × (a.base + a.used ≤ ptr)
          × (ptr + size ≤ a.base + a.cap))
Allocates-cases a size align (none, a') (e, _) = inl (refl, e)
Allocates-cases a size align (some ptr, a') (lo, _, hi, e) = inr (ptr, refl, e, lo, hi)

-- The blocks of any run of requests follow one another in the buffer behind the bytes in use: no two
-- overlap.
pub alloc_all-Ascending :
    (a : Arena) (requests : List (ℕ × ℕ))
    → IsValid a
    → AreRequests requests
    → Ascending (a.base + a.used) (a.base + a.cap) (alloc_all a requests)
unfolding alloc_all
alloc_all-Ascending a [] v r = let h = v.room in omega arith
alloc_all-Ascending a ((size, align) ∷ rest) v ((k, e, r), more) =
    elim (Allocates-cases a size (2 ^ k) _ (alloc_lem a size k v r)) [
      | inl (no_block, same) ↦ rw (e, no_block, same) (alloc_all-Ascending a rest v more)
      | inr (ptr, block, moved, lo, hi) ↦
          let a' = record a { used = ptr - a.base + size } in
          let behind : a.base + (ptr - a.base + size) ≡ ptr + size = omega arith in
          rw (e, block, moved)
            (
              lo,
              subst (λ n. Ascending n (a.base + a.cap) (alloc_all a' rest)) behind
                  (alloc_all-Ascending a' rest (record { room = omega arith; small = v.small })
                    more),
            )
    ]
