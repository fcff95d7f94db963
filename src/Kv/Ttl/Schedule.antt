-- ===== src/Kv/Ttl/Schedule.antt =====
-- The heap order of `TTLManager` of src/kv/ttl.cpp under its operations.
use fast_graph.Prelude.{
  ℕ, zero, suc, ◌-◌, ◌<◌, inl, inr, some, [], ◌∷◌, arith, Bool-cases, Option-cases, length, set,
  length-append, length-set, length-take, ℤ, ◌+ℤ◌, ◌≤ℤ◌, ◌==◌, nat_eq, int_eq, text_eq, Text,
  eq_true, get_or-append, get_or-set, get_or-take,
}
use fast_graph.Prelude.Dict.{find}
use fast_graph.Kv.Ttl.{
  TtlEntry, TtlManager, entry_at, no_entry, set_deadline, push, set_expiry, replace_by_last,
  drop_last, remove_expiry,
}
use fast_graph.Kv.Ttl.Index.{IsIndexed}
use fast_graph.Kv.Ttl.Order.{due, parent, IsHeap, UpInv, SiftInv, sift_up-IsHeap, sift-IsHeap}
use fast_graph.Kv.Ttl.Expiry.{
  Updates, push-Updates, length-push, set_deadline-Updates, length-set_deadline, set_expiry-Updates,
  replace_by_last-Updates,
}

push-UpInv : (t : TtlManager) (key : Text) (d : ℤ) → IsHeap t → UpInv (push key d t) (length t.heap)
unfolding push
push-UpInv t key d ordered =
    let n = length t.heap in
    let e : TtlEntry = record { expires_at = d; key = key; heap_idx = n } in
    let size = length-append t.heap (e ∷ []) in
    let at = λ (j : ℕ). get_or-append t.heap e j no_entry in
    record {
      edges = λ c p q r. ground (arith, size, at c, at (parent c), ordered c);
      bridged = λ c p q r s. absurd (omega (arith, size));
    }

set_deadline-SiftInv :
    (t : TtlManager) (i : ℕ) (d : ℤ) → i < length t.heap → IsHeap t → SiftInv (set_deadline i d t) i
unfolding set_deadline
set_deadline-SiftInv t i d h ordered =
    let e = record (entry_at t.heap i) { expires_at = d } in
    let size = length-set t.heap i e in
    let at = λ (j : ℕ). get_or-set t.heap i j e no_entry h in
    record {
      edges = λ c p q r s. ground (arith, size, at c, at (parent c), ordered c);
      bridged = λ c p q r s. ground (arith, size, at c, at (parent i), ordered c, ordered i);
    }

set_expiry-IsHeap :
    (t : TtlManager) (now : ℤ) (key : Text) (ttl_ms : ℤ)
    → IsIndexed t
    → IsHeap t
    → IsHeap (set_expiry t now key ttl_ms)
unfolding set_expiry
set_expiry-IsHeap t now key ttl_ms v ordered =
    let d = now +ℤ ttl_ms in
    let n = length t.heap in
    elim (Option-cases (find key t.index)) [
      | inl e ↦
          rw (e, set_expiry)
            (sift_up-IsHeap n n (push key d t) (push-Updates t key d v e).indexed
              (length-push t key d) (omega arith) (push-UpInv t key d ordered))
      | inr (i, e) ↦
          let h = (v.placed key i e).0 in
          rw (e, set_expiry)
            (sift-IsHeap i (set_deadline i d t) (set_deadline-Updates t key i d v e).indexed
              (length-set_deadline t i d h) (set_deadline-SiftInv t i d h ordered))
    ]

-- Giving a key an expiry, whether or not it has one already, keeps the index and the heap order of a
-- valid manager in heap order, sets the deadline of the key to the sum, and leaves all other keys
-- theirs.
pub set_expiry_lem :
    (t : TtlManager) (now : ℤ) (key : Text) (ttl_ms : ℤ)
    → IsIndexed t
    → IsHeap t
    → Updates t (set_expiry t now key ttl_ms) key (some (now +ℤ ttl_ms))
      × IsHeap (set_expiry t now key ttl_ms)
set_expiry_lem t now key ttl_ms v ordered =
    (set_expiry-Updates t now key ttl_ms v, set_expiry-IsHeap t now key ttl_ms v ordered)

drop_last-IsHeap : (t : TtlManager) (key : Text) → IsHeap t → IsHeap (drop_last key t)
unfolding drop_last
drop_last-IsHeap t key ordered c p q =
    let n = length t.heap - 1 in
    let at = λ (j : ℕ). get_or-take n t.heap j no_entry in
    ground (arith, length-take n t.heap, at c, at (parent c), ordered c)

replace_by_last-SiftInv :
    (t : TtlManager) (i : ℕ) (key : Text)
    → i < length t.heap
    → IsHeap t
    → SiftInv (replace_by_last i key t) i
unfolding replace_by_last
replace_by_last-SiftInv t i key h ordered =
    let last = entry_at t.heap (length t.heap - 1) in
    let moved : TtlEntry = record last { heap_idx = i } in
    let heap' = set t.heap i moved in
    let same = length-set t.heap i moved in
    let size = length-take (length heap' - 1) heap' in
    let at = λ (j : ℕ). get_or-take (length heap' - 1) heap' j no_entry in
    let before = λ (j : ℕ). get_or-set t.heap i j moved no_entry h in
    record {
      edges = λ c p q r s.
          ground (arith, same, size, at c, at (parent c), before c, before (parent c), ordered c);
      bridged = λ c p q r s. ground (
        arith,
        same,
        size,
        at c,
        at (parent i),
        before c,
        before (parent i),
        ordered c,
        ordered i,
      );
    }

-- Removing an expiry keeps the heap order.
pub remove_expiry-IsHeap :
    (t : TtlManager) (key : Text) → IsIndexed t → IsHeap t → IsHeap (remove_expiry t key)
unfolding remove_expiry
remove_expiry-IsHeap t key v ordered = elim (Option-cases (find key t.index)) [
  | inl e ↦ rw (e, remove_expiry) ordered
  | inr (i, e) ↦ elim (Bool-cases (i == length t.heap - 1)) [
    | inl last ↦ rw (e, remove_expiry) (rw last (drop_last-IsHeap t key ordered))
    | inr other ↦
        let (u, h) = replace_by_last-Updates t key i v e other in
        rw (e, remove_expiry)
          (rw other (
            sift-IsHeap i (replace_by_last i key t) u.indexed h
              (replace_by_last-SiftInv t i key ((v.placed key i e).0) ordered)))
  ]
]

first_least_below :
    (k : ℕ) (t : TtlManager) (i : ℕ) → IsHeap t → i < k → i < length t.heap → due t 0 ≤ℤ due t i
first_least_below zero t i ordered f h = absurd (omega arith)
first_least_below (suc k) t i ordered f h = elim (Bool-cases (i == 0)) [
  | inl e ↦ ground (arith, eq_true i 0 e)
  | inr e ↦ ground (arith, e, ordered i, first_least_below k t (parent i) ordered)
]

-- No entry of a manager in heap order expires before the first.
pub first_least : (t : TtlManager) (i : ℕ) → IsHeap t → i < length t.heap → due t 0 ≤ℤ due t i
first_least t i ordered h = first_least_below (suc i) t i ordered (omega arith) h
