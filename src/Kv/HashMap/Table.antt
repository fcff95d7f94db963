-- ===== src/Kv/HashMap/Table.antt =====
-- The invariant of the slots of src/kv/hashmap.cpp, and a write that keeps it.
use fast_graph.Prelude.{
  ℕ, ◌+◌, ◌≤◌, ◌<◌, ◌≡◌, refl, sym, ap, subst, ◌∙◌, inl, inr, false, List, arith, if◌then◌else◌,
  Bool-cases, length, set, length-set, ◌==◌, nat_eq, int_eq, text_eq, eq_true,
}
use Prim.Native.Nat.{bit_and}
use fast_graph.Prelude.{get_or-set}
use fast_graph.Kv.HashMap.{Entry, no_entry, is_empty, slot_at, hash, next_idx}
use fast_graph.Kv.HashMap.Cycle.{IsMask, walk}

-- Where the entry `e` belongs: `dib` steps from its home, with its own hash.
pub record BelongsAt (mask : ℕ) (e : Entry) (i : ℕ) : Type 0 where
  pub there : is_empty e ≡ false
  pub distance : walk mask (bit_and e.hash mask) e.dib ≡ i
  pub hashed : e.hash ≡ hash e.key

-- Each entry stands where it belongs, and behind an entry that is away from home stands no gap, nor
-- an entry nearer to its home by two steps or more.
pub record IsTable (n mask : ℕ) (es : List Entry) : Type 0 where
  pub slots : length es ≡ n
  pub home : (i : ℕ) → i < n → is_empty (slot_at es i) ≡ false → BelongsAt mask (slot_at es i) i
  pub order :
      (i : ℕ)
      → i < n
      → is_empty (slot_at es (next_idx mask i)) ≡ false
      → 0 < (slot_at es (next_idx mask i)).dib
      → (is_empty (slot_at es i) ≡ false)
        × ((slot_at es (next_idx mask i)).dib ≤ (slot_at es i).dib + 1)

-- The entry that stands before `idx` lets `e` stand at `idx`.
pub record MayFollow (n mask : ℕ) (es : List Entry) (e : Entry) (idx : ℕ) : Type 0 where
  pub before :
      (j : ℕ)
      → j < n
      → next_idx mask j ≡ idx
      → 0 < e.dib
      → (is_empty (slot_at es j) ≡ false) × (e.dib ≤ (slot_at es j).dib + 1)

module _ (n mask : ℕ) (m : IsMask n mask) (es : List Entry) (v : IsTable n mask es) where
  pub slot_at-set :
      (idx j : ℕ) (e : Entry)
      → idx < n
      → slot_at (set es idx e) j ≡ (if idx == j then e else slot_at es j)
  slot_at-set idx j e h = get_or-set es idx j e no_entry (let s = v.slots in omega arith)

  -- A write of an entry where it belongs, if neither neighbour objects.
  pub set-IsTable :
      (idx : ℕ) (e : Entry)
      → idx < n
      → BelongsAt mask e idx
      → MayFollow n mask es e idx
      → (is_empty (slot_at es (next_idx mask idx)) ≡ false
          → 0 < (slot_at es (next_idx mask idx)).dib
          → (slot_at es (next_idx mask idx)).dib ≤ e.dib + 1)
      → IsTable n mask (set es idx e)
  set-IsTable idx e h b f after = record {
    slots = length-set es idx e ∙ v.slots;
    home = λ i p q. elim (Bool-cases (idx == i)) [
      | inl same ↦ rw (slot_at-set idx i e h, same, sym (eq_true idx i same)) b
      | inr other ↦
          let at : slot_at (set es idx e) i ≡ slot_at es i =
            rw (slot_at-set idx i e h, other) refl in
          subst (λ x. BelongsAt mask x i) (sym at) (v.home i p (ap (λ x. is_empty x) (sym at) ∙ q))
    ];
    order = λ i p. ground (
      arith,
      slot_at-set idx i e h,
      slot_at-set idx (next_idx mask i) e h,
      f.before i p,
      b.there,
      after,
      v.order i p,
    );
  }

  -- The write of `no_entry` where the next entry, if any, is at home.
  pub clear-IsTable :
      (idx : ℕ)
      → idx < n
      → (is_empty (slot_at es (next_idx mask idx)) ≡ false
          → (slot_at es (next_idx mask idx)).dib ≡ 0)
      → IsTable n mask (set es idx no_entry)
  clear-IsTable idx h free = record {
    slots = length-set es idx no_entry ∙ v.slots;
    home = λ i p q. elim (Bool-cases (idx == i)) [
      | inl same ↦ absurd (ground (arith, slot_at-set idx i no_entry h, q, same))
      | inr other ↦
          let at : slot_at (set es idx no_entry) i ≡ slot_at es i =
            rw (slot_at-set idx i no_entry h, other) refl in
          subst (λ x. BelongsAt mask x i) (sym at) (v.home i p (ap (λ x. is_empty x) (sym at) ∙ q))
    ];
    order = λ i p. ground (
      arith,
      slot_at-set idx i no_entry h,
      slot_at-set idx (next_idx mask i) no_entry h,
      free,
      v.order i p,
    );
  }
