-- ===== src/Kv/HashMap/Delete.antt =====
-- `del` of src/kv/hashmap.cpp on a valid map.
use fast_graph.Prelude.{
  ℕ, ◌+◌, ◌-◌, ◌≡◌, refl, sym, ap, ◌∙◌, ◌≢◌, ◌⊎◌, inl, inr, Bool, true, false, none, some, List,
  arith, nat_eq, int_eq, text_eq, Text, eq_false,
}
use fast_graph.Kv.HashMap.{Entry, RobinHoodMap, slot_at, new, erase_at, del}
use fast_graph.Kv.HashMap.Contents.{Absent}
use fast_graph.Kv.HashMap.Erase.{erase_lem}
use fast_graph.Kv.HashMap.Grow.{IsMap}
use fast_graph.Kv.HashMap.Reinsert.{free_ahead}
use fast_graph.Kv.HashMap.Search.{In, search_for, search_cases}

del-none :
    (m : RobinHoodMap) (key : Text) → search_for m key ≡ some none → del m key ≡ some (false, m)
unfolding del
del-none m key e = rw (e, del) refl

del-some :
    (m : RobinHoodMap) (key : Text) (i : ℕ) (es : List Entry)
    → search_for m key ≡ some (some i)
    → erase_at m.capacity m.entries m.mask i ≡ some es
    → del m key ≡ some (true, record m { entries = es; size = m.size - 1 })
unfolding del
del-some m key i es e f = rw (e, del) (rw f refl)

-- The pairs of `m'` are those of `m`, but none has the key.
pub record Removes (m m' : RobinHoodMap) (key : Text) : Type 0 where
  pub kept : (k w : Text) → k ≢ key → In m k w → In m' k w
  pub only : (k w : Text) → In m' k w → (k ≢ key) × In m k w

module _ (m : RobinHoodMap) (v : IsMap m) where
  -- On a valid map `del` ends, keeps the map valid, its number of slots and the pairs of the other
  -- keys, and takes the key out, with one off the size; if the key was not in, nothing changes.
  pub del_lem :
      (key : Text)
      → (b : Bool) × (m' : RobinHoodMap) × (del m key ≡ some (b, m'))
        × IsMap m'
        × Removes m m' key
        × (m'.capacity ≡ m.capacity)
        × (((b ≡ true) × ((w : Text) × In m key w) × (m'.size + 1 ≡ m.size))
            ⊎ ((b ≡ false) × Absent m.capacity m.entries key × (m' ≡ m)))
  del_lem key = elim (search_cases m v key) [
    | inl (i, found, p) ↦
        let hi = p.inside in
        let slots = v.table.slots in
        let c = v.counted in
        let r = v.room in
        let (d, hd, free) =
          free_ahead m.capacity m.mask v.masked m.entries i v.table (omega arith) hi in
        let (es, ends, x) =
          erase_lem m.capacity m.mask v.masked m.capacity d m.entries i v.table
            (record { once = λ a b ha hb oa ob. v.unique.once a b ha hb }) hi p.there free
            (omega arith) in
        let less = x.one_less in
        (
          true,
          record m { entries = es; size = m.size - 1 },
          del-some m key i es found ends,
          record {
            masked = v.masked;
            table = x.table;
            unique = x.unique;
            counted = omega arith;
            room = omega arith;
          },
          record {
            kept = λ k w other (j, q). x.kept k w (
              j,
              eq_false i j (λ same.
                  other (sym q.key ∙ sym (ap (λ y. (slot_at m.entries y).key) same) ∙ p.key)),
              q,
            );
            only = λ k w q.
                let (j, differs, old) = x.only k w q in
                (
                  λ same.
                      let here =
                        v.unique.once i j hi old.inside p.there old.there
                          (p.key ∙ sym same ∙ sym old.key) in
                      ground (arith, here, differs),
                  (j, old),
                );
          },
          refl,
          inl (refl, ((slot_at m.entries i).val, (i, p)), omega arith),
        )
    | inr (gone, new) ↦ (
      false,
      m,
      del-none m key gone,
      v,
      record {
        kept = λ k w other q. q;
        only = λ k w (j, q). (λ same. new j q.inside q.there (q.key ∙ same), (j, q));
      },
      refl,
      inr (refl, new, refl),
    )
  ]
