-- ===== src/Kv/Ttl/Sift.antt =====
-- `sift_up` and `sift_down` of src/kv/ttl.cpp as sequences of swaps.
use fast_graph.Prelude.{
  ℕ, zero, suc, ◌+◌, ◌-◌, ◌*◌, ◌/◌, ◌<◌, inl, inr, List, arith, Bool-cases, length, leb_ℤ, ◌==◌,
  nat_eq, int_eq, text_eq,
}
use fast_graph.Kv.Ttl.{
  TtlEntry, TtlManager, entry_at, swap_entries, sift_up, earlier, sift_down, sift,
}
use fast_graph.Kv.Ttl.Index.{IsIndexed, Rearranges, itself, then_also, swap_entries-Rearranges}

-- A swap, and what follows it.
after_swap :
    (t t' : TtlManager) (a b : ℕ)
    → IsIndexed t
    → a < length t.heap
    → b < length t.heap
    → (Rearranges t (swap_entries t a b) → Rearranges (swap_entries t a b) t')
    → Rearranges t t'
after_swap t t' a b v p q rest =
    let r = swap_entries-Rearranges t a b v p q in then_also t (swap_entries t a b) t' r (rest r)

pub sift_up-Rearranges :
    (fuel i : ℕ) (t : TtlManager)
    → IsIndexed t
    → i < length t.heap
    → Rearranges t (sift_up fuel i t)
unfolding sift_up
sift_up-Rearranges zero i t v h = itself t v
sift_up-Rearranges (suc fuel) i t v h =
    let parent = (i - 1) / 2 in
    let rest =
      after_swap t (sift_up fuel parent (swap_entries t parent i)) parent i v (omega arith) h (λ r.
        sift_up-Rearranges fuel parent (swap_entries t parent i) r.indexed
          (omega (arith, r.size))) in
    elim (Bool-cases (i == 0)) [
      | inl e ↦ rw (e, sift_up) (itself t v)
      | inr e ↦
          elim (Bool-cases
            (leb_ℤ (entry_at t.heap parent).expires_at (entry_at t.heap i).expires_at)) [
              | inl e' ↦ rw (e, sift_up) (rw e' (itself t v))
              | inr e' ↦ rw (e, sift_up) (rw e' rest)
            ]
    ]

earlier-lt :
    (heap : List TtlEntry) (child smallest : ℕ)
    → smallest < length heap
    → earlier heap child smallest < length heap
unfolding earlier
earlier-lt heap child smallest h = ground arith

pub sift_down-Rearranges :
    (fuel i : ℕ) (t : TtlManager)
    → IsIndexed t
    → i < length t.heap
    → Rearranges t (sift_down fuel i t)
unfolding sift_down
sift_down-Rearranges zero i t v h = itself t v
sift_down-Rearranges (suc fuel) i t v h =
    let left = earlier t.heap (2 * i + 1) i in
    let smallest = earlier t.heap (2 * i + 2) left in
    let small = earlier-lt t.heap (2 * i + 2) left (earlier-lt t.heap (2 * i + 1) i h) in
    let rest =
      after_swap t (sift_down fuel smallest (swap_entries t i smallest)) i smallest v h small (λ r.
        sift_down-Rearranges fuel smallest (swap_entries t i smallest) r.indexed
          (omega (arith, r.size))) in
    elim (Bool-cases (smallest == i)) [
      | inl e ↦ rw (e, sift_down) (itself t v)
      | inr e ↦ rw (e, sift_down) rest
    ]

pub sift-Rearranges :
    (i : ℕ) (t : TtlManager) → IsIndexed t → i < length t.heap → Rearranges t (sift i t)
unfolding sift
sift-Rearranges i t v h =
    let up = sift_up-Rearranges i i t v h in
    let t' = sift_up i i t in
    then_also t t' (sift_down (length t'.heap) i t') up
      (sift_down-Rearranges (length t'.heap) i t' up.indexed (omega (arith, up.size)))
