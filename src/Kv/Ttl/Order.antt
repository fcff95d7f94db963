-- ===== src/Kv/Ttl/Order.antt =====
-- The heap order of `TTLManager` of src/kv/ttl.cpp under `sift_up` and `sift_down`.
use fast_graph.Prelude.{
  ℕ, zero, suc, ◌+◌, ◌-◌, ◌*◌, ◌/◌, ◌≤◌, ◌<◌, ◌≡◌, refl, ◌≢◌, ◌⊎◌, inl, inr, true, ◌&&◌, arith, ltb,
  if◌then◌else◌, Bool-cases, length, ℤ, ◌≤ℤ◌, ltb_ℤ, leb_ℤ, ◌==◌, nat_eq, int_eq, text_eq, eq_refl,
  eq_true, leb-true,
}
use fast_graph.Kv.Ttl.{TtlManager, entry_at, swap_entries, sift_up, earlier, sift_down, sift}
use fast_graph.Kv.Ttl.Sift.{sift_up-Rearranges}
use fast_graph.Kv.Ttl.Index.{IsIndexed, heap-swap, size-swap, swap_entries-Rearranges}

abbrev pub due : TtlManager → ℕ → ℤ
due t i = (entry_at t.heap i).expires_at

abbrev pub parent : ℕ → ℕ
parent i = (i - 1) / 2

-- No entry expires before its parent.
abbrev pub IsHeap : TtlManager → Type 0
IsHeap t = (c : ℕ) → 0 < c → c < length t.heap → due t (parent c) ≤ℤ due t c

-- The entries above and below `i` are in order.
abbrev pub IsBridged : TtlManager → ℕ → Type 0
IsBridged t i =
    (c : ℕ) → 0 < c → c < length t.heap → parent c ≡ i → 0 < i → due t (parent i) ≤ℤ due t c

-- Only the edge above `i` may be out of order.
pub record UpInv (t : TtlManager) (i : ℕ) : Type 0 where
  pub edges : (c : ℕ) → 0 < c → c < length t.heap → c ≢ i → due t (parent c) ≤ℤ due t c
  pub bridged : IsBridged t i

-- Only the edges below `i` may be out of order.
record DownInv (t : TtlManager) (i : ℕ) : Type 0 where
  edges : (c : ℕ) → 0 < c → c < length t.heap → parent c ≢ i → due t (parent c) ≤ℤ due t c
  bridged : IsBridged t i

-- Only the edges at `i` may be out of order.
pub record SiftInv (t : TtlManager) (i : ℕ) : Type 0 where
  pub edges :
      (c : ℕ) → 0 < c → c < length t.heap → c ≢ i → parent c ≢ i → due t (parent c) ≤ℤ due t c
  pub bridged : IsBridged t i

le_leb : (a b : ℤ) → a ≤ℤ b → leb_ℤ a b ≡ true
le_leb a b h = leb-true _ _ h

due-swap :
    (t : TtlManager) (a b : ℕ)
    → IsIndexed t
    → a < length t.heap
    → b < length t.heap
    → (j : ℕ)
    → due (swap_entries t a b) j ≡ (if b == j then due t a else if a == j then due t b else due t j)
due-swap t a b v p q j = ground (arith, heap-swap t a b v p q j)

swap-UpInv :
    (t : TtlManager) (i : ℕ)
    → IsIndexed t
    → i < length t.heap
    → UpInv t i
    → 0 < i
    → due t i ≤ℤ due t (parent i)
    → UpInv (swap_entries t (parent i) i) (parent i)
swap-UpInv t i v h inv above below =
    let q : parent i < length t.heap = omega arith in
    let size = size-swap t (parent i) i v q h in
    let at = due-swap t (parent i) i v q h in
    record {
      edges = λ c p l n. ground (arith, size, at c, at (parent c), inv.edges c, inv.bridged c);
      bridged = λ c p l n r.
          ground (arith, size, at c, at (parent (parent i)), inv.edges c, inv.edges (parent i));
    }

pub sift_up-IsHeap :
    (fuel i : ℕ) (t : TtlManager)
    → IsIndexed t
    → i < length t.heap
    → i ≤ fuel
    → UpInv t i
    → IsHeap (sift_up fuel i t)
unfolding sift_up
sift_up-IsHeap zero i t v h f inv = λ c p l. inv.edges c p l (omega arith)
sift_up-IsHeap (suc fuel) i t v h f inv = elim (Bool-cases (i == 0)) [
  | inl e ↦ rw (e, sift_up) (λ c p l. inv.edges c p l (ground (arith, e)))
  | inr e ↦ elim (Bool-cases (leb_ℤ (due t (parent i)) (due t i))) [
    | inl e' ↦ rw (e, sift_up) (rw e' (λ c p l. ground (arith, e', inv.edges c)))
    | inr e' ↦
        let r = swap_entries-Rearranges t (parent i) i v (omega arith) h in
        let inv' = swap-UpInv t i v h inv (ground (arith, e)) (ground (arith, e')) in
        rw (e, sift_up)
          (rw e' (
            sift_up-IsHeap fuel (parent i) (swap_entries t (parent i) i) r.indexed
              (omega (arith, r.size)) (ground (arith, e)) inv'))
  ]
]

-- `m` is `i`, or the child of `i` that expires before `i` and no later than the other child.
record IsEarliest (t : TtlManager) (i m : ℕ) : Type 0 where
  inside : m < length t.heap
  place : (m ≡ i) ⊎ (m ≡ 2 * i + 1) ⊎ (m ≡ 2 * i + 2)
  first : due t m ≤ℤ due t i
  least : (c : ℕ) → 0 < c → c < length t.heap → parent c ≡ i → due t m ≤ℤ due t c

child_cases : (c i : ℕ) → 0 < c → parent c ≡ i → (c ≡ 2 * i + 1) ⊎ (c ≡ 2 * i + 2)
child_cases c i p e = omega arith

earlier-IsEarliest :
    (t : TtlManager) (i : ℕ)
    → i < length t.heap
    → IsEarliest t i (earlier t.heap (2 * i + 2) (earlier t.heap (2 * i + 1) i))
unfolding earlier
earlier-IsEarliest t i h =
    let l = 2 * i + 1 in
    let r = 2 * i + 2 in
    record {
      inside = ground arith;
      place = ground arith;
      first = ground arith;
      least = λ c p q e. elim (child_cases c i p e) [
        | inl here ↦ rw here (ground arith)
        | inr here ↦ rw here (ground arith)
      ];
    }

swap-DownInv :
    (t : TtlManager) (i m : ℕ)
    → IsIndexed t
    → i < length t.heap
    → DownInv t i
    → IsEarliest t i m
    → m ≢ i
    → DownInv (swap_entries t i m) m
swap-DownInv t i m v h inv s other =
    let size = size-swap t i m v h s.inside in
    let at = due-swap t i m v h s.inside in
    record {
      edges = λ c p q r. ground (
        arith,
        size,
        at c,
        at (parent c),
        inv.edges c,
        inv.bridged m,
        s.least c,
        s.first,
        s.place,
      );
      bridged = λ c p q r u. ground (arith, size, at c, at (parent m), inv.edges c, s.place);
    }

sift_down-IsHeap :
    (fuel i : ℕ) (t : TtlManager)
    → IsIndexed t
    → i < length t.heap
    → length t.heap ≤ fuel + i
    → DownInv t i
    → IsHeap (sift_down fuel i t)
unfolding sift_down
sift_down-IsHeap zero i t v h f inv = absurd (omega arith)
sift_down-IsHeap (suc fuel) i t v h f inv =
    let m = earlier t.heap (2 * i + 2) (earlier t.heap (2 * i + 1) i) in
    let s = earlier-IsEarliest t i h in
    elim (Bool-cases (m == i)) [
      | inl e ↦ rw (e, sift_down) (λ c p q. ground (arith, inv.edges c, s.least c, eq_true m i e))
      | inr e ↦
          let r = swap_entries-Rearranges t i m v h s.inside in
          let inv' = swap-DownInv t i m v h inv s (λ same. ground (arith, e, same, eq_refl i)) in
          rw (e, sift_down)
            (sift_down-IsHeap fuel m (swap_entries t i m) r.indexed
              (omega (arith, r.size, s.inside)) (ground (arith, r.size, s.place, e)) inv')
    ]

-- Where no edge above `i` is out of order, `sift_up` does nothing.
sift_up_idle :
    (fuel i : ℕ) (t : TtlManager) → (0 < i → due t (parent i) ≤ℤ due t i) → sift_up fuel i t ≡ t
unfolding sift_up
sift_up_idle zero i t h = refl
sift_up_idle (suc fuel) i t h = elim (Bool-cases (i == 0)) [
  | inl e ↦ rw (e, sift_up) refl
  | inr e ↦ rw (e, sift_up) (rw (le_leb (due t (parent i)) (due t i) (h (ground (arith, e)))) refl)
]

IsHeap-DownInv : (t : TtlManager) (i : ℕ) → i < length t.heap → IsHeap t → DownInv t i
IsHeap-DownInv t i h ordered = record {
  edges = λ c p q r. ordered c p q;
  bridged = λ c p q r s. ground (arith, ordered c, ordered i);
}

SiftInv-cases :
    (t : TtlManager) (i : ℕ)
    → SiftInv t i
    → ((0 < i → due t (parent i) ≤ℤ due t i) × DownInv t i) ⊎ UpInv t i
SiftInv-cases t i inv = elim (Bool-cases (ltb 0 i && ltb_ℤ (due t i) (due t (parent i)))) [
  | inl e ↦ inr (record {
    edges = λ c p q r. ground (arith, e, inv.edges c, inv.bridged c);
    bridged = inv.bridged;
  })
  | inr e ↦ inl (
    λ p. ground (arith, e),
    record { edges = λ c p q r. ground (arith, e, inv.edges c); bridged = inv.bridged },
  )
]

-- `sift` restores the order around an entry whose deadline has changed either way.
pub sift-IsHeap :
    (i : ℕ) (t : TtlManager) → IsIndexed t → i < length t.heap → SiftInv t i → IsHeap (sift i t)
unfolding sift
sift-IsHeap i t v h inv = elim (SiftInv-cases t i inv) [
  | inl (idle, down) ↦
      rw (sift_up_idle i i t idle) (sift_down-IsHeap (length t.heap) i t v h (omega arith) down)
  | inr up ↦
      let t' = sift_up i i t in
      let r = sift_up-Rearranges i i t v h in
      let h' : i < length t'.heap = omega (arith, r.size) in
      sift_down-IsHeap (length t'.heap) i t' r.indexed h' (omega arith)
        (IsHeap-DownInv t' i h' (sift_up-IsHeap i i t v h (omega arith) up))
]
