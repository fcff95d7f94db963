-- ===== src/Kv/HashMap/Insert.antt =====
-- The loop of `set` and `grow` of src/kv/hashmap.cpp, for a key that is not in the table.
use fast_graph.Prelude.{
  ℕ, zero, suc, ◌+◌, ◌≤◌, ◌<◌, ◌≡◌, refl, sym, ap, subst, ◌∙◌, inl, inr, Bool, true, false, ◌&&◌,
  some, List, arith, ltb, Bool-cases, set, nat_eq, int_eq, text_eq, Text,
}
use Prim.Native.Nat.{bit_and}
use fast_graph.Kv.HashMap.{Entry, is_empty, slot_at, next_idx, same_key, bump, insert_loop}
use fast_graph.Kv.HashMap.Cycle.{IsMask, walk, next_idx-lt, next_idx_inj, walk-next_idx}
use fast_graph.Kv.HashMap.Table.{BelongsAt, IsTable, MayFollow, set-IsTable}
use fast_graph.Kv.HashMap.Probe.{IsUnique, same_key_eq}
use fast_graph.Kv.HashMap.Contents.{
  Absent, Adds, used, used-set, Has-set, set-Has, set-IsUnique, slot-set, slot-set_self,
  Holds-set_self,
}

-- `es'` is a valid table, with the pair of `e` added to those of `es`.
pub record Inserted (n mask : ℕ) (es : List Entry) (e : Entry) (es' : List Entry) : Type 0 where
  pub table : IsTable n mask es'
  pub unique : IsUnique n es'
  pub adds : Adds n es es' e
  pub one_more : used es' ≡ used es + 1

module _ (n mask : ℕ) (m : IsMask n mask) where
  -- One step further from home.
  bump-BelongsAt :
      (e : Entry) (idx : ℕ) → BelongsAt mask e idx → BelongsAt mask (bump e) (next_idx mask idx)
  unfolding walk
  bump-BelongsAt e idx b =
      let one : e.dib + 1 ≡ suc e.dib = omega arith in
      record {
        there = b.there;
        distance = ap (walk mask (bit_and e.hash mask)) one ∙ ap (next_idx mask) b.distance;
        hashed = b.hashed;
      }

  -- An entry may follow another that is no nearer to its home.
  bump-MayFollow :
      (es : List Entry) (e : Entry) (idx : ℕ)
      → idx < n
      → is_empty (slot_at es idx) ≡ false
      → e.dib ≤ (slot_at es idx).dib
      → MayFollow n mask es (bump e) (next_idx mask idx)
  bump-MayFollow es e idx h there le = record {
    before = λ j hj same far.
        let q = next_idx_inj n mask m j idx hj h same in
        subst (λ x. (is_empty (slot_at es x) ≡ false) × (e.dib + 1 ≤ (slot_at es x).dib + 1))
          (sym q) (there, omega arith);
  }

  module _ (es : List Entry) (v : IsTable n mask es) (u : IsUnique n es) (e : Entry) (idx : ℕ)
      (h : idx < n) (b : BelongsAt mask e idx) (f : MayFollow n mask es e idx)
      (new : Absent n es e.key) where
    -- The entry takes a free slot.
    free-Inserted : is_empty (slot_at es idx) ≡ true → Inserted n mask es e (set es idx e)
    free-Inserted free = record {
      table =
          set-IsTable n mask m es v idx e h b f
            (λ there far. absurd (ground (arith, v.order idx h there far, free)));
      unique = set-IsUnique n es idx e v.slots h u new;
      adds = record {
        kept = λ k w p. elim (set-Has n es idx e v.slots h k w p) [
          | inl q ↦ q
          | inr q ↦ absurd (ground (arith, q.there, free))
        ];
        added = (idx, Holds-set_self n es idx e v.slots h b.there);
        only = λ k w p. elim (Has-set n es idx e v.slots h k w p) [
          | inl (i, _, q) ↦ inl (i, q)
          | inr q ↦ inr q
        ];
      };
      one_more = ground (arith, used-set es idx e, v.slots, b.there, free);
    }

    -- The entry takes the slot of one that is nearer to its home, which is inserted further on.
    module _ (there : is_empty (slot_at es idx) ≡ false) (near : (slot_at es idx).dib < e.dib) where
      abbrev es₁ : List Entry
      es₁ = set es idx e

      abbrev out : Entry
      out = bump (slot_at es idx)

      swap-IsTable : IsTable n mask (set es idx e)
      swap-IsTable =
          set-IsTable n mask m es v idx e h b f
            (λ t far. let (_, le) = v.order idx h t far in omega arith)

      swap-Absent : Absent n (set es idx e) (slot_at es idx).key
      swap-Absent i hi =
          ground (arith, slot-set n es idx e v.slots h i, u.once i idx hi h, new idx h there, there)

      swap-used : used (set es idx e) ≡ used es
      swap-used = ground (arith, used-set es idx e, v.slots, b.there, there)

      swap-MayFollow : MayFollow n mask (set es idx e) (bump (slot_at es idx)) (next_idx mask idx)
      swap-MayFollow =
          let self = slot-set_self n es idx e v.slots h in
          bump-MayFollow (set es idx e) (slot_at es idx) idx h (ap (λ x. is_empty x) self ∙ b.there)
            (rw self (omega arith))

      swapped-Inserted :
          (es' : List Entry)
          → Inserted n mask (set es idx e) (bump (slot_at es idx)) es'
          → Inserted n mask es e es'
      swapped-Inserted es' r = record {
        table = r.table;
        unique = r.unique;
        adds = record {
          kept = λ k w p. elim (set-Has n es idx e v.slots h k w p) [
            | inl q ↦ r.adds.kept k w q
            | inr q ↦
                let (i, a) = r.adds.added in
                (
                  i,
                  record {
                    inside = a.inside;
                    there = a.there;
                    key = a.key ∙ q.key;
                    val = a.val ∙ q.val;
                  },
                )
          ];
          added = r.adds.kept e.key e.val (idx, Holds-set_self n es idx e v.slots h b.there);
          only = λ k w p. elim (r.adds.only k w p) [
            | inl q ↦ elim (Has-set n es idx e v.slots h k w q) [
              | inl (i, _, old) ↦ inl (i, old)
              | inr own ↦ inr own
            ]
            | inr (ek, ew) ↦
                inl (idx, record { inside = h; there = there; key = sym ek; val = sym ew })
          ];
        };
        one_more = r.one_more ∙ ap (λ x. x + 1) swap-used;
      }

  no_match :
      (check : Bool) (es : List Entry) (h : ℕ) (key : Text) (idx : ℕ)
      → idx < n
      → is_empty (slot_at es idx) ≡ false
      → Absent n es key
      → (check && same_key (slot_at es idx) h key) ≡ false
  no_match check es h key idx hi there new = elim (Bool-cases (same_key (slot_at es idx) h key)) [
    | inl same ↦ absurd (new idx hi there (same_key_eq (slot_at es idx) h key same))
    | inr other ↦ ground (arith, other)
  ]

  pub stays_free :
      (es : List Entry) (idx : ℕ) (e : Entry) (t : ℕ)
      → IsTable n mask es
      → idx < n
      → is_empty (slot_at es idx) ≡ false
      → is_empty (slot_at es t) ≡ true
      → is_empty (slot_at (set es idx e) t) ≡ true
  stays_free es idx e t v hi there free =
      ground (arith, slot-set n es idx e v.slots hi t, there, free)

  -- A key that is not in the table is inserted, whether the loop tests the keys or not.
  pub insert-Absent :
      (fuel ahead : ℕ) (check : Bool) (es : List Entry) (h : ℕ) (e : Entry) (idx : ℕ)
      → IsTable n mask es
      → IsUnique n es
      → idx < n
      → BelongsAt mask e idx
      → MayFollow n mask es e idx
      → Absent n es e.key
      → is_empty (slot_at es (walk mask idx ahead)) ≡ true
      → ahead < fuel
      → (es' : List Entry) × (insert_loop fuel check es mask h e idx ≡ some (true, es'))
        × Inserted n mask es e es'
  unfolding insert_loop walk
  insert-Absent zero ahead check es h e idx v u hi b f new free less = absurd (omega arith)
  insert-Absent (suc fuel) zero check es h e idx v u hi b f new free less =
      (set es idx e, rw (free, insert_loop) refl, free-Inserted es v u e idx hi b f new free)
  insert-Absent (suc fuel) (suc ahead) check es h e idx v u hi b f new free less =
      elim (Bool-cases (is_empty (slot_at es idx))) [
        | inl now ↦
            (set es idx e, rw (now, insert_loop) refl, free-Inserted es v u e idx hi b f new now)
        | inr there ↦
            let differs = no_match check es h e.key idx hi there new in
            let free' =
              ap (λ x. is_empty (slot_at es x)) (walk-next_idx n mask m ahead idx) ∙ free in
            let on = next_idx-lt n mask m idx hi in
            let slot = slot_at es idx in
            elim (Bool-cases (ltb slot.dib e.dib)) [
              | inl near ↦
                  let lt : slot.dib < e.dib = ground arith in
                  let (es', ends, r) =
                    insert-Absent fuel ahead check (set es idx e) h (bump slot) (next_idx mask idx)
                      (swap-IsTable es v u e idx hi b f new there lt)
                      (set-IsUnique n es idx e v.slots hi u new) on
                      (bump-BelongsAt slot idx (v.home idx hi there))
                      (swap-MayFollow es v u e idx hi b f new there lt)
                      (swap-Absent es v u e idx hi b f new there lt)
                      (stays_free es idx e (walk mask (next_idx mask idx) ahead) v hi there free')
                      (omega arith) in
                  (
                    es',
                    rw (there, insert_loop) (rw (differs, near) ends),
                    swapped-Inserted es v u e idx hi b f new there lt es' r,
                  )
              | inr far ↦
                  let (es', ends, r) =
                    insert-Absent fuel ahead check es h (bump e) (next_idx mask idx) v u on
                      (bump-BelongsAt e idx b) (bump-MayFollow es e idx hi there (ground arith)) new
                      free' (omega arith) in
                  (
                    es',
                    rw (there, insert_loop) (rw (differs, far) ends),
                    record {
                      table = r.table;
                      unique = r.unique;
                      adds = record {
                        kept = r.adds.kept;
                        added = r.adds.added;
                        only = r.adds.only;
                      };
                      one_more = r.one_more;
                    },
                  )
            ]
      ]
