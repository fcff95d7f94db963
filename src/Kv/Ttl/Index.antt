-- ===== src/Kv/Ttl/Index.antt =====
-- The index of `TTLManager` of src/kv/ttl.hpp against its heap, under `swap_entries`.
use fast_graph.Prelude.{
  get_or-set, ℕ, ◌<◌, ◌≡◌, refl, ◌∙◌, inl, inr, Option, none, some, arith, if◌then◌else◌,
  Option-cases, length, set, length-set, ℤ, ◌==◌, nat_eq, int_eq, text_eq, Text, eq_refl,
}
use fast_graph.Prelude.Dict.{find, put, find-put}
use fast_graph.Kv.Ttl.{TtlEntry, TtlManager, no_entry, entry_at, swap_entries}

-- The index and the heap agree.
pub record IsIndexed (t : TtlManager) : Type 0 where
  pub placed :
      (k : Text) (i : ℕ)
      → find k t.index ≡ some i
      → (i < length t.heap) × ((entry_at t.heap i).key ≡ k)
  pub listed : (i : ℕ) → i < length t.heap → find (entry_at t.heap i).key t.index ≡ some i

-- The deadline that a key has, if any.
unfoldable pub deadline : TtlManager → Text → Option ℤ
deadline t k = elim (find k t.index) [ none ↦ none | some i ↦ some (entry_at t.heap i).expires_at ]

-- `t'` is a valid rearrangement of `t`.
pub record Rearranges (t t' : TtlManager) : Type 0 where
  pub indexed : IsIndexed t'
  pub size : length t'.heap ≡ length t.heap
  pub same : (k : Text) → deadline t' k ≡ deadline t k

pub itself : (t : TtlManager) → IsIndexed t → Rearranges t t
itself t v = record { indexed = v; size = refl; same = λ k. refl }

pub then_also : (t t' t'' : TtlManager) → Rearranges t t' → Rearranges t' t'' → Rearranges t t''
then_also t t' t'' r r' = record {
  indexed = r'.indexed;
  size = r'.size ∙ r.size;
  same = λ k. r'.same k ∙ r.same k;
}

module _ (t : TtlManager) (a b : ℕ) (v : IsIndexed t) (p : a < length t.heap)
    (q : b < length t.heap) where
  abbrev x : TtlEntry
  x = entry_at t.heap a

  abbrev y : TtlEntry
  y = entry_at t.heap b

  find-swap :
      (k : Text)
      → find k (swap_entries t a b).index
        ≡ (if x.key == k then some b else if y.key == k then some a else find k t.index)
  unfolding swap_entries
  find-swap k = rw (find-put x.key k b (put y.key a t.index), find-put y.key k a t.index)

  pub heap-swap :
      (j : ℕ)
      → entry_at (swap_entries t a b).heap j ≡ (
          if b == j
          then record x { heap_idx = b }
          else if a == j
          then record y { heap_idx = a }
          else entry_at t.heap j)
  unfolding swap_entries
  heap-swap j =
      let first = set t.heap a (record y { heap_idx = a }) in
      let size = length-set t.heap a (record y { heap_idx = a }) in
      get_or-set first b j (record x { heap_idx = b }) no_entry (omega (arith, size))
      ∙ rw (get_or-set t.heap a j (record y { heap_idx = a }) no_entry p)

  pub size-swap : length (swap_entries t a b).heap ≡ length t.heap
  unfolding swap_entries
  size-swap =
      length-set (set t.heap a (record y { heap_idx = a })) b (record x { heap_idx = b })
      ∙ length-set t.heap a (record y { heap_idx = a })

  placed-swap :
      (k : Text) (i : ℕ)
      → find k (swap_entries t a b).index ≡ some i
      → (i < length (swap_entries t a b).heap) × ((entry_at (swap_entries t a b).heap i).key ≡ k)
  placed-swap k i f = ground (
    arith,
    find-swap k,
    heap-swap i,
    size-swap,
    v.placed k i,
    v.listed a p,
    v.listed b q,
    text_eq.beq_iff x.key k,
    text_eq.beq_iff y.key k,
  )

  listed-swap :
      (i : ℕ)
      → i < length (swap_entries t a b).heap
      → find (entry_at (swap_entries t a b).heap i).key (swap_entries t a b).index ≡ some i
  listed-swap i h =
      let k = (entry_at (swap_entries t a b).heap i).key in
      ground (
        arith,
        find-swap k,
        heap-swap i,
        size-swap,
        v.listed i,
        v.listed a p,
        v.listed b q,
        text_eq.beq_iff x.key k,
        text_eq.beq_iff y.key k,
        text_eq.beq_iff x.key y.key,
        text_eq.beq_iff x.key (entry_at t.heap i).key,
        text_eq.beq_iff y.key (entry_at t.heap i).key,
        eq_refl x.key,
        eq_refl y.key,
      )

  deadline-swap : (k : Text) → deadline (swap_entries t a b) k ≡ deadline t k
  unfolding deadline
  deadline-swap k = elim (Option-cases (find k t.index)) [
    | inl e ↦ ground (
      arith,
      e,
      find-swap k,
      v.listed a p,
      v.listed b q,
      text_eq.beq_iff x.key k,
      text_eq.beq_iff y.key k,
    )
    | inr (i, e) ↦ ground (
      arith,
      e,
      find-swap k,
      heap-swap a,
      heap-swap b,
      heap-swap i,
      v.placed k i,
      v.listed a p,
      v.listed b q,
      text_eq.beq_iff x.key k,
      text_eq.beq_iff y.key k,
    )
  ]

  pub swap_entries-Rearranges : Rearranges t (swap_entries t a b)
  swap_entries-Rearranges = record {
    indexed = record { placed = placed-swap; listed = listed-swap };
    size = size-swap;
    same = deadline-swap;
  }
