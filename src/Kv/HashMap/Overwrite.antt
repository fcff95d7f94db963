-- ===== src/Kv/HashMap/Overwrite.antt =====
-- The loop of `set` of src/kv/hashmap.cpp for a key that is in the table.
use fast_graph.Prelude.{
  ℕ, zero, suc, ◌+◌, ◌≤◌, ◌<◌, ◌≡◌, refl, sym, ap, subst, ◌∙◌, ◌≢◌, ◌⊎◌, inl, inr, true, false,
  some, List, arith, ltb, Bool-cases, set, nat_eq, int_eq, text_eq, Text, eq_refl, ltb-false,
}
use Prim.Native.Nat.{bit_and}
use fast_graph.Kv.HashMap.{Entry, is_empty, slot_at, hash, same_key, bump, insert_loop}
use fast_graph.Kv.HashMap.Cycle.{IsMask, walk, walk-lt, home-lt}
use fast_graph.Kv.HashMap.Table.{IsTable, set-IsTable}
use fast_graph.Kv.HashMap.Probe.{Holds, IsUnique, same_key_eq, behind, Nat-cases, true-ne-false}
use fast_graph.Kv.HashMap.Contents.{
  Has, Absent, Adds, used, used-set, Has-set, set-Has, slot-set, Holds-set_self,
}

-- The pairs of `es'` are those of `es`, but under `key` stands `val`.
pub record Sets (n : ℕ) (es es' : List Entry) (key val : Text) : Type 0 where
  pub kept : (k w : Text) → k ≢ key → Has n es k w → Has n es' k w
  pub added : Has n es' key val
  pub only : (k w : Text) → Has n es' k w → ((k ≢ key) × Has n es k w) ⊎ ((k ≡ key) × (w ≡ val))

pub Sets-of_Adds :
    (n : ℕ) (es es' : List Entry) (e : Entry)
    → Absent n es e.key
    → Adds n es es' e
    → Sets n es es' e.key e.val
Sets-of_Adds n es es' e new a = record {
  kept = λ k w other. a.kept k w;
  added = a.added;
  only = λ k w p. elim (a.only k w p) [
    | inl (i, q) ↦ inl (λ same. new i q.inside q.there (q.key ∙ same), (i, q))
    | inr q ↦ inr q
  ];
}

module _ (n mask : ℕ) (m : IsMask n mask) (es : List Entry) (v : IsTable n mask es)
    (u : IsUnique n es) where
  -- The loop passes the entries before the key and writes the value.
  pub insert_present :
      (fuel d k i : ℕ) (e : Entry) (w : Text)
      → Holds n es e.key w i
      → e.hash ≡ hash e.key
      → e.dib ≡ d
      → (slot_at es i).dib ≡ d + k
      → k < fuel
      → insert_loop fuel true es mask e.hash e (walk mask (bit_and e.hash mask) d)
        ≡ some (false, set es i (record (slot_at es i) { val = e.val }))
  unfolding insert_loop walk
  insert_present zero d k i e w p eh ed far less = absurd (omega arith)
  insert_present (suc fuel) d k i e w p eh ed far less =
      let b = v.home i p.inside p.there in
      let own : (slot_at es i).hash ≡ e.hash = b.hashed ∙ ap hash p.key ∙ sym eh in
      let h = bit_and e.hash mask in
      let hn = home-lt n mask m e.hash in
      let at : walk mask h (slot_at es i).dib ≡ i =
        ap (λ x. walk mask (bit_and x mask) (slot_at es i).dib) (sym own) ∙ b.distance in
      let idx = walk mask h d in
      let (there, near) =
        behind n mask m es v h d k (slot_at es i).dib hn far (rw at (p.there))
          (rw at (omega arith)) in
      let close : ltb (slot_at es idx).dib e.dib ≡ false = ltb-false _ _ (omega arith) in
      elim (Bool-cases (same_key (slot_at es idx) e.hash e.key)) [
        | inl same ↦
            let hi = walk-lt n mask m d h hn in
            let found =
              u.once idx i hi p.inside there p.there
                (same_key_eq (slot_at es idx) e.hash e.key same ∙ sym p.key) in
            rw (there, insert_loop)
              (rw same
                (ap (λ x. some (false, set es x (record (slot_at es x) { val = e.val }))) found))
        | inr other ↦ elim (Nat-cases k) [
          | inl z ↦
              let here : idx ≡ i = let q : (slot_at es i).dib ≡ d = omega arith in rw q at at in
              absurd (
                true-ne-false
                  (sym (rw (here, own, p.key) (rw (eq_refl e.hash, eq_refl e.key) refl)) ∙ other))
          | inr (k', q) ↦
              let ih =
                insert_present fuel (suc d) k' i (bump e) w
                  (record { inside = p.inside; there = p.there; key = p.key; val = p.val }) eh
                  (omega arith) (omega arith) (omega arith) in
              rw (there, insert_loop) (rw (other, close) ih)
        ]
      ]

  -- A new value under a key.
  pub overwrite_lem :
      (i : ℕ) (key w val : Text)
      → Holds n es key w i
      → IsTable n mask (set es i (record (slot_at es i) { val = val }))
        × IsUnique n (set es i (record (slot_at es i) { val = val }))
        × Sets n es (set es i (record (slot_at es i) { val = val })) key val
        × (used (set es i (record (slot_at es i) { val = val })) ≡ used es)
  overwrite_lem i key w val p =
      let e : Entry = record (slot_at es i) { val = val } in
      let b = v.home i p.inside p.there in
      (
        set-IsTable n mask m es v i e p.inside
            (record { there = b.there; distance = b.distance; hashed = b.hashed })
            (record {
              before = λ j hj same far.
                  let (t, le) =
                    v.order j hj (ap (λ x. is_empty (slot_at es x)) same ∙ p.there)
                      (subst (λ x. 0 < (slot_at es x).dib) (sym same) far) in
                  (t, subst (λ x. (slot_at es x).dib ≤ (slot_at es j).dib + 1) same le);
            })
            (λ t far. (v.order i p.inside t far).1),
        record {
          once = λ a c ha hc. ground (
            arith,
            slot-set n es i e v.slots p.inside a,
            slot-set n es i e v.slots p.inside c,
            u.once a c ha hc,
            u.once i c p.inside hc,
            u.once a i ha p.inside,
            p.there,
          );
        },
        record {
          kept = λ k x other q. elim (set-Has n es i e v.slots p.inside k x q) [
            | inl r ↦ r
            | inr r ↦ absurd (other (sym r.key ∙ p.key))
          ];
          added =
              let a = Holds-set_self n es i e v.slots p.inside p.there in
              (i, record { inside = a.inside; there = a.there; key = a.key ∙ p.key; val = a.val });
          only = λ k x q. elim (Has-set n es i e v.slots p.inside k x q) [
            | inl (j, other, r) ↦ inl (
              λ same.
                  let here =
                    u.once i j p.inside r.inside p.there r.there (p.key ∙ sym same ∙ sym r.key) in
                  ground (arith, here, other),
              (j, r),
            )
            | inr (ek, ew) ↦ inr (ek ∙ p.key, ew)
          ];
        },
        ground (arith, used-set es i e, v.slots, p.inside, p.there),
      )
