-- ===== src/Memory/Pool/Fresh.antt =====
-- No slot of src/memory/pool_allocator.hpp is handed out twice.
use fast_graph.Prelude.{
  ℕ, zero, suc, ◌+◌, ◌≤◌, ◌<◌, ◌≡◌, refl, sym, ap, subst, ◌∙◌, inl, inr, true, false, some, List,
  ◌∷◌, append-nil, arith, Bool-cases, List-cases, ◌==◌, nat_eq, int_eq, text_eq, eq_refl, eq_true,
}
use fast_graph.Index.SkipList.Chain.{mem, distinct}
use fast_graph.Memory.Pool.{PoolAllocator, slots, grow, pop_slot, allocate}

-- The slots in use and the free ones are apart.
pub record IsPool (p : PoolAllocator) (live : List ℕ) : Type 0 where
  pub once : distinct p.free_list ≡ true
  pub apart : (x : ℕ) → mem x p.free_list ≡ true → mem x live ≡ false

-- A slot of the pool is not in use, and is no longer free when it is handed out.
pub record Gives (p p' : PoolAllocator) (live : List ℕ) (slot : ℕ) : Type 0 where
  pub not_live : mem slot live ≡ false
  pub valid : IsPool p' (slot ∷ live)

slots-ge : (count size block x : ℕ) → mem x (slots count size block) ≡ true → block ≤ x
unfolding slots
slots-ge zero size block x m = cc
slots-ge (suc count) size block x m = elim (Bool-cases (block == x)) [
  | inl e ↦ ground (arith, e)
  | inr e ↦ let r = slots-ge count size (block + size) x (ground (arith, m, e)) in omega arith
]

slots-distinct : (count size block : ℕ) → 0 < size → distinct (slots count size block) ≡ true
unfolding slots
slots-distinct zero size block h = refl
slots-distinct (suc count) size block h =
    let r = slots-distinct count size (block + size) h in
    elim (Bool-cases (mem block (slots count size (block + size)))) [
      | inl m ↦ absurd (let q = slots-ge count size (block + size) block m in omega arith)
      | inr m ↦ ground (arith, r, m)
    ]

pop_slot-Gives :
    (p : PoolAllocator) (live : List ℕ) (slot : ℕ) (rest : List ℕ)
    → p.free_list ≡ slot ∷ rest
    → IsPool p live
    → (p' : PoolAllocator) × (pop_slot p ≡ (some slot, p')) × Gives p p' live slot
pop_slot-Gives p live slot rest e v =
    let first : mem slot p.free_list ≡ true = rw (e, eq_refl slot) refl in
    let once = subst (λ l. distinct l ≡ true) e v.once in
    (
      record p { free_list = rest },
      rw e refl,
      record {
        not_live = v.apart slot first;
        valid = record {
          once = ground (arith, once);
          apart = λ x m.
              let old : mem x p.free_list ≡ true = rw e (ground (arith, m)) in
              let a = v.apart x old in
              elim (Bool-cases (slot == x)) [
                | inl same ↦
                    absurd (ground (arith, m, once, ap (λ y. mem y rest) (eq_true slot x same)))
                | inr other ↦ ground (arith, a, other)
              ];
        };
      },
    )

-- A pool whose blocks have slots hands out a slot that is not in use and is then no longer free, if the
-- block from `malloc`, where one is asked for, has none that is in use.
pub allocate-Gives :
    (p : PoolAllocator) (live : List ℕ) (count size block : ℕ)
    → IsPool p live
    → 0 < count
    → 0 < size
    → ((x : ℕ) → mem x (slots count size block) ≡ true → mem x live ≡ false)
    → (slot : ℕ) × (p' : PoolAllocator) × (allocate p count size block ≡ (some slot, p'))
      × Gives p p' live slot
unfolding allocate grow slots
allocate-Gives p live zero size block v hc hs fresh = absurd (omega arith)
allocate-Gives p live (suc count) size block v hc hs fresh = elim (List-cases p.free_list) [
  | inl e ↦
      let q = grow p (suc count) size block in
      let all_slots : q.free_list ≡ slots (suc count) size block =
        rw e (append-nil (slots (suc count) size block)) in
      let w : IsPool q live = record {
        once = ap distinct all_slots ∙ slots-distinct (suc count) size block hs;
        apart = λ x m. fresh x (sym (ap (mem x) all_slots) ∙ m);
      } in
      let (p', pops, g) =
        pop_slot-Gives q live block (slots count size (block + size)) all_slots w in
      (block, p', rw (e, allocate) pops, record { not_live = g.not_live; valid = g.valid })
  | inr (slot, rest, e) ↦
      let (p', pops, g) = pop_slot-Gives p live slot rest e v in
      (slot, p', rw (e, allocate) pops, g)
]
