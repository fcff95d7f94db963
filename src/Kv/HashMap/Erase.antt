-- ===== src/Kv/HashMap/Erase.antt =====
-- `erase_at` of src/kv/hashmap.cpp: the entries behind the slot move back by one.
use fast_graph.Prelude.{
  ℕ, zero, suc, ◌+◌, ◌-◌, ◌≤◌, ◌<◌, ◌≡◌, refl, sym, ap, subst, ◌∙◌, ◌≢◌, inl, inr, true, false,
  some, List, arith, Bool-cases, set, ◌==◌, nat_eq, int_eq, text_eq, Text, eq_true, eq_false,
  eq_symm,
}
use Prim.Native.Nat.{bit_and}
use fast_graph.Kv.HashMap.{Entry, no_entry, is_empty, slot_at, next_idx, erase_at}
use fast_graph.Kv.HashMap.Cycle.{
  IsMask, walk, walk-lt, home-lt, next_idx-lt, next_idx_inj, walk-next_idx,
}
use fast_graph.Kv.HashMap.Table.{BelongsAt, IsTable, MayFollow, set-IsTable, clear-IsTable}
use fast_graph.Kv.HashMap.Probe.{Holds, IsUnique}
use fast_graph.Kv.HashMap.Contents.{
  Has, used, used-set, Has-set, slot-set, slot-set_ne, Holds-congr, Holds-set_self,
}
use fast_graph.Kv.HashMap.Insert.{stays_free}

-- What the slots other than `idx` hold.
abbrev pub HasBut : ℕ → List Entry → ℕ → Text → Text → Type 0
HasBut n es idx k w = (i : ℕ) × ((idx == i) ≡ false) × Holds n es k w i

-- No key stands twice in the slots other than `idx`.
pub record IsUniqueBut (n : ℕ) (es : List Entry) (idx : ℕ) : Type 0 where
  pub once :
      (i j : ℕ)
      → i < n
      → j < n
      → (idx == i) ≡ false
      → (idx == j) ≡ false
      → is_empty (slot_at es i) ≡ false
      → is_empty (slot_at es j) ≡ false
      → (slot_at es i).key ≡ (slot_at es j).key
      → i ≡ j

-- `es'` is a valid table with what the slots of `es` other than `idx` hold.
pub record Erased (n mask : ℕ) (es : List Entry) (idx : ℕ) (es' : List Entry) : Type 0 where
  pub table : IsTable n mask es'
  pub unique : IsUnique n es'
  pub kept : (k w : Text) → HasBut n es idx k w → Has n es' k w
  pub only : (k w : Text) → Has n es' k w → HasBut n es idx k w
  pub one_less : used es' + 1 ≡ used es

module _ (n mask : ℕ) (m : IsMask n mask) where
  walk_stuck : (d i : ℕ) → next_idx mask i ≡ i → walk mask i d ≡ i
  unfolding walk
  walk_stuck zero i e = refl
  walk_stuck (suc d) i e = ap (next_idx mask) (walk_stuck d i e) ∙ e

  module _ (es : List Entry) (v : IsTable n mask es) (idx : ℕ) (u : IsUniqueBut n es idx)
      (h : idx < n) (taken : is_empty (slot_at es idx) ≡ false) where
    -- The next entry is at home, or there is none.
    last-Erased :
        (is_empty (slot_at es (next_idx mask idx)) ≡ false
          → (slot_at es (next_idx mask idx)).dib ≡ 0)
        → Erased n mask es idx (set es idx no_entry)
    last-Erased free = record {
      table = clear-IsTable n mask m es v idx h free;
      unique = record {
        once = λ i j hi hj. ground (
          arith,
          slot-set n es idx no_entry v.slots h i,
          slot-set n es idx no_entry v.slots h j,
          u.once i j hi hj,
        );
      };
      kept = λ k w (i, other, p). (
        i,
        Holds-congr n es (set es idx no_entry) k w i
            (slot-set_ne n es idx no_entry v.slots h i other) p,
      );
      only = λ k w (i, p). elim (Bool-cases (idx == i)) [
        | inl same ↦
            let there = p.there in
            absurd (ground (arith, slot-set n es idx no_entry v.slots h i, same, there))
        | inr other ↦ (
          i,
          other,
          Holds-congr n (set es idx no_entry) es k w i
              (sym (slot-set_ne n es idx no_entry v.slots h i other)) p,
        )
      ];
      one_less = ground (arith, used-set es idx no_entry, v.slots, taken);
    }

    module _ (there : is_empty (slot_at es (next_idx mask idx)) ≡ false)
        (away : 0 < (slot_at es (next_idx mask idx)).dib) (moves : next_idx mask idx ≢ idx) where
      abbrev next : ℕ
      next = next_idx mask idx

      abbrev back : Entry
      back = record (slot_at es (next_idx mask idx)) {
        dib = (slot_at es (next_idx mask idx)).dib - 1;
      }

      next-lt : next_idx mask idx < n
      next-lt = next_idx-lt n mask m idx h

      next-differs : (idx == next_idx mask idx) ≡ false
      next-differs = eq_false idx (next_idx mask idx) (λ e. moves (sym e))

      back-BelongsAt : BelongsAt mask back idx
      unfolding walk
      back-BelongsAt =
          let b = v.home next next-lt there in
          let home = bit_and (slot_at es next).hash mask in
          let d = (slot_at es next).dib - 1 in
          let one : (slot_at es next).dib ≡ suc d = omega arith in
          let step : next_idx mask (walk mask home d) ≡ next =
            ap (walk mask home) (sym one) ∙ b.distance in
          record {
            there = b.there;
            distance =
                next_idx_inj n mask m (walk mask home d) idx
                  (walk-lt n mask m d home (home-lt n mask m (slot_at es next).hash)) h step;
            hashed = b.hashed;
          }

      back-MayFollow : MayFollow n mask es back idx
      back-MayFollow = record {
        before = λ j hj same far.
            let (_, le) = v.order idx h there away in
            let (t, le') =
              v.order j hj (ap (λ x. is_empty (slot_at es x)) same ∙ taken)
                (subst (λ x. 0 < (slot_at es x).dib) (sym same) (omega arith)) in
            let le'' = subst (λ x. (slot_at es x).dib ≤ (slot_at es j).dib + 1) same le' in
            (t, omega arith);
      }

      back-IsTable : IsTable n mask (set es idx back)
      back-IsTable =
          set-IsTable n mask m es v idx back h back-BelongsAt back-MayFollow (λ t far. omega arith)

      back-IsUniqueBut : IsUniqueBut n (set es idx back) next
      back-IsUniqueBut = record {
        once = λ i j hi hj oi oj. ground (
          arith,
          slot-set n es idx back v.slots h i,
          slot-set n es idx back v.slots h j,
          u.once i j hi hj,
          u.once next j next-lt hj next-differs,
          u.once i next hi next-lt,
          next-differs,
          there,
          oi,
          oj,
        );
      }

      back-used : used (set es idx back) ≡ used es
      back-used = ground (arith, used-set es idx back, v.slots, taken, there)

      next-taken : is_empty (slot_at (set es idx back) (next_idx mask idx)) ≡ false
      next-taken =
          ap (λ x. is_empty x)
            (slot-set_ne n es idx back v.slots h (next_idx mask idx) next-differs)
          ∙ there

      moved-Erased :
          (es' : List Entry) → Erased n mask (set es idx back) next es' → Erased n mask es idx es'
      moved-Erased es' r = record {
        table = r.table;
        unique = r.unique;
        kept = λ k w (i, other, p). r.kept k w (elim (Bool-cases (next == i)) [
          | inl same ↦
              let a = Holds-set_self n es idx back v.slots h there in
              let q = subst (λ x. Holds n es k w x) (sym (eq_true next i same)) p in
              (
                idx,
                eq_symm next idx ∙ next-differs,
                record {
                  inside = a.inside;
                  there = a.there;
                  key = a.key ∙ q.key;
                  val = a.val ∙ q.val;
                },
              )
          | inr differs ↦ (
            i,
            differs,
            Holds-congr n es (set es idx back) k w i (slot-set_ne n es idx back v.slots h i other)
                p,
          )
        ]);
        only = λ k w p.
            let (i, _, q) = r.only k w p in
            elim (Has-set n es idx back v.slots h k w (i, q)) [
              | inl old ↦ old
              | inr (ek, ew) ↦ (
                next,
                next-differs,
                record { inside = next-lt; there = there; key = sym ek; val = sym ew },
              )
            ];
        one_less = r.one_less ∙ back-used;
      }

  pub erase_lem :
      (fuel ahead : ℕ) (es : List Entry) (idx : ℕ)
      → IsTable n mask es
      → IsUniqueBut n es idx
      → idx < n
      → is_empty (slot_at es idx) ≡ false
      → is_empty (slot_at es (walk mask idx ahead)) ≡ true
      → ahead ≤ fuel
      → (es' : List Entry) × (erase_at fuel es mask idx ≡ some es') × Erased n mask es idx es'
  unfolding erase_at walk
  erase_lem fuel zero es idx v u h taken free le = absurd (ground (arith, taken, free))
  erase_lem zero (suc ahead) es idx v u h taken free le = absurd (omega arith)
  erase_lem (suc fuel) (suc ahead) es idx v u h taken free le =
      let next = next_idx mask idx in
      let free' = ap (λ x. is_empty (slot_at es x)) (walk-next_idx n mask m ahead idx) ∙ free in
      elim (Bool-cases (is_empty (slot_at es next))) [
        | inl gone ↦ (
          set es idx no_entry,
          rw (gone, erase_at) refl,
          last-Erased es v idx u h taken (λ t. absurd (ground (arith, t, gone))),
        )
        | inr there ↦ elim (Bool-cases ((slot_at es next).dib == 0)) [
          | inl home ↦ (
            set es idx no_entry,
            rw (there, erase_at) (rw home refl),
            last-Erased es v idx u h taken (λ t. eq_true _ _ home),
          )
          | inr far ↦
              let away : 0 < (slot_at es next).dib = ground arith in
              let moves : next ≢ idx = λ e. ground (
                arith,
                ap (λ x. is_empty (slot_at es x)) (walk_stuck (suc ahead) idx e),
                free,
                taken,
              ) in
              let (es', ends, r) =
                erase_lem fuel ahead
                  (set es idx (record (slot_at es next) { dib = (slot_at es next).dib - 1 })) next
                  (back-IsTable es v idx u h taken there away moves)
                  (back-IsUniqueBut es v idx u h taken there away moves)
                  (next-lt es v idx u h taken there away moves)
                  (next-taken es v idx u h taken there away moves)
                  (stays_free n mask m es idx
                    (record (slot_at es next) { dib = (slot_at es next).dib - 1 })
                    (walk mask next ahead) v h taken free')
                  (omega arith) in
              (
                es',
                rw (there, erase_at) (rw far ends),
                moved-Erased es v idx u h taken there away moves es' r,
              )
        ]
      ]
