-- ===== src/Kv/Engine/Overdue.antt =====
-- `evict_expired` of src/kv/ttl.cpp on a heap in order.
use fast_graph.Prelude.{
  ℕ, zero, suc, ◌-◌, ◌≤◌, ◌<◌, ◌≡◌, refl, subst, ◌↔◌, ◌⊎◌, inl, inr, true, not, ◌&&◌, Option, none,
  some, List, [], ◌∷◌, ◌++◌, arith, if◌then◌else◌, Bool-cases, Option-cases, length, set,
  length-set, length-take, ℤ, ◌≤ℤ◌, ◌<ℤ◌, leb_ℤ, ◌==◌, nat_eq, int_eq, text_eq, Text,
}
use fast_graph.Prelude.Dict.{find}
use fast_graph.Kv.Ttl.{
  TtlEntry, TtlManager, entry_at, replace_by_last, drop_last, remove_expiry, evict_loop,
  evict_expired,
}
use fast_graph.Kv.Ttl.Index.{IsIndexed, deadline}
use fast_graph.Kv.Ttl.Sift.{sift-Rearranges}
use fast_graph.Kv.Ttl.Order.{due, IsHeap}
use fast_graph.Kv.Ttl.Expiry.{remove_expiry-Updates, replace_by_last-Updates}
use fast_graph.Kv.Ttl.Schedule.{remove_expiry-IsHeap, first_least}
use fast_graph.Kv.Engine.Eviction.{has, Evicts, evict_loop_lem}

length-drop_last :
    (t : TtlManager) (key : Text)
    → 0 < length t.heap
    → length (drop_last key t).heap < length t.heap
unfolding drop_last
length-drop_last t key h = ground (arith, length-take (length t.heap - 1) t.heap)

length-replace_by_last :
    (t : TtlManager) (key : Text) (i : ℕ)
    → i < length t.heap
    → length (replace_by_last i key t).heap < length t.heap
unfolding replace_by_last
length-replace_by_last t key i h =
    let moved : TtlEntry = record (entry_at t.heap (length t.heap - 1)) { heap_idx = i } in
    let heap' = set t.heap i moved in
    ground (arith, length-set t.heap i moved, length-take (length heap' - 1) heap')

-- Removing a key that is there makes the heap smaller.
length-remove_expiry :
    (t : TtlManager) (key : Text) (i : ℕ)
    → IsIndexed t
    → find key t.index ≡ some i
    → length (remove_expiry t key).heap < length t.heap
unfolding remove_expiry
length-remove_expiry t key i v e =
    let (h, _) = v.placed key i e in
    elim (Bool-cases (i == length t.heap - 1)) [
      | inl last ↦ rw (e, remove_expiry) (rw last (length-drop_last t key (omega arith)))
      | inr other ↦
          let t' = replace_by_last i key t in
          let (u, h') = replace_by_last-Updates t key i v e other in
          let r = sift-Rearranges i t' u.indexed h' in
          let smaller = length-replace_by_last t key i h in
          rw (e, remove_expiry) (rw other (omega (arith, r.size)))
    ]

-- The manager is in heap order, and all its deadlines are later than `now`.
abbrev IsAhead : TtlManager → ℤ → Type 0
IsAhead t now = IsHeap t × ((i : ℕ) → i < length t.heap → now <ℤ due t i)

evict_loop-IsAhead :
    (fuel : ℕ) (now : ℤ) (t : TtlManager) (acc : List Text)
    → length t.heap ≤ fuel
    → IsIndexed t
    → IsHeap t
    → IsAhead (evict_loop fuel now t acc).1 now
unfolding evict_loop
evict_loop-IsAhead zero now t acc f v ordered = (ordered, λ i h. absurd (omega arith))
evict_loop-IsAhead (suc fuel) now t acc f v ordered =
    let first = entry_at t.heap 0 in
    elim (Bool-cases (not (length t.heap == 0) && leb_ℤ first.expires_at now)) [
      | inl over ↦
          let t' = remove_expiry t first.key in
          let at = v.listed 0 (ground (arith, over)) in
          let smaller = length-remove_expiry t first.key 0 v at in
          rw (over, evict_loop)
            (evict_loop-IsAhead fuel now t' (acc ++ first.key ∷ []) (omega arith)
              (remove_expiry-Updates t first.key v).indexed
              (remove_expiry-IsHeap t first.key v ordered))
      | inr rest ↦
          rw (rest, evict_loop) (ordered, λ i h. ground (arith, rest, first_least t i ordered h))
    ]

-- The deadline, if it is later than `now`.
abbrev pub if_ahead : ℤ → Option ℤ → Option ℤ
if_ahead now none = none
if_ahead now (some d) = if leb_ℤ d now then none else some d

deadline_cases :
    (t : TtlManager) (k : Text)
    → IsIndexed t
    → (deadline t k ≡ none) ⊎ ((i : ℕ) × (i < length t.heap) × (deadline t k ≡ some (due t i)))
unfolding deadline
deadline_cases t k v = elim (Option-cases (find k t.index)) [
  | inl e ↦ inl (rw (e, deadline) refl)
  | inr (i, e) ↦ inr (i, (v.placed k i e).0, rw (e, deadline) refl)
]

module _ (t t' : TtlManager) (now : ℤ) (keys : List Text) (r : Evicts t now keys t')
    (ahead : (i : ℕ) → i < length t'.heap → now <ℤ due t' i) where
  evicted_deadline : (k : Text) → deadline t' k ≡ if_ahead now (deadline t k)
  evicted_deadline k = elim (Bool-cases (has k keys)) [
    | inl gone ↦ let (d, f, h) = r.over k gone in ground (arith, r.deadlines k, gone, f, h)
    | inr stays ↦ elim (deadline_cases t' k r.indexed) [
      | inl e ↦ ground (arith, r.deadlines k, stays, e)
      | inr (i, h, e) ↦ ground (arith, r.deadlines k, stays, e, ahead i h)
    ]
  ]

  evicted_iff : (k : Text) → (has k keys ≡ true) ↔ ((d : ℤ) × (deadline t k ≡ some d) × (d ≤ℤ now))
  evicted_iff k = (
    r.over k,
    λ (d, e, h). elim (Bool-cases (has k keys)) [
      | inl gone ↦ gone
      | inr stays ↦ absurd (ground (arith, r.deadlines k, stays, e, evicted_deadline k, h))
    ],
  )

-- On a valid manager in heap order `evict_expired` keeps it valid and in heap order, takes away exactly
-- the deadlines that are not later than the time, and returns exactly the keys that had one of these.
pub evict_expired_lem :
    (t : TtlManager) (now : ℤ)
    → IsIndexed t
    → IsHeap t
    → IsIndexed (evict_expired t now).1
      × IsHeap (evict_expired t now).1
      × ((k : Text) → deadline (evict_expired t now).1 k ≡ if_ahead now (deadline t k))
      × ((k : Text)
          → (has k (evict_expired t now).0 ≡ true)
            ↔ ((d : ℤ) × (deadline t k ≡ some d) × (d ≤ℤ now)))
unfolding evict_expired
evict_expired_lem t now v ordered =
    let (keys, t', ends, r) = evict_loop_lem (length t.heap) now t [] v in
    let (heap, ahead) =
      subst (λ x. IsAhead x.1 now) ends
        (evict_loop-IsAhead (length t.heap) now t [] (omega arith) v ordered) in
    rw ends
      (r.indexed, heap, evicted_deadline t t' now keys r ahead, evicted_iff t t' now keys r ahead)
