-- ===== src/Kv/HashMap/Reinsert.antt =====
-- The loop of `grow` of src/kv/hashmap.cpp: the entries of the old slots go into a cleared table.
use fast_graph.Prelude.{
  ℕ, zero, suc, ◌+◌, ◌<◌, ◌≡◌, refl, sym, ap, ◌∙◌, ◌⊎◌, inl, inr, Bool, true, false, some, List, [],
  ◌∷◌, arith, Bool-cases, length, nat_eq, int_eq, text_eq, Text,
}
use Prim.Native.Nat.{bit_and}
use fast_graph.Prelude.{length-replicate, get_or-replicate}
use fast_graph.Kv.HashMap.{
  Entry, no_entry, is_empty, slot_at, cleared, hash, insert_loop, reinsert, next_idx,
}
use fast_graph.Kv.HashMap.Cycle.{IsMask, walk, home-lt, walk_reaches}
use fast_graph.Kv.HashMap.Table.{IsTable}
use fast_graph.Kv.HashMap.Probe.{IsUnique}
use fast_graph.Kv.HashMap.Contents.{Has, Absent, Adds, used, used-Gap}
use fast_graph.Kv.HashMap.Insert.{Inserted, insert-Absent}

-- The free slot ahead of a home.
pub free_ahead :
    (n mask : ℕ) (m : IsMask n mask) (es : List Entry) (h : ℕ)
    → IsTable n mask es
    → used es < n
    → h < n
    → (d : ℕ) × (d < n) × (is_empty (slot_at es (walk mask h d)) ≡ true)
free_ahead n mask m es h v less hn =
    let (t, ht, free) = used-Gap es (let s = v.slots in omega arith) in
    let (d, hd, at) = walk_reaches n mask m h t hn (let s = v.slots in omega arith) in
    (d, hd, ap (λ x. is_empty (slot_at es x)) at ∙ free)

-- An entry that starts at its home, where a slot is free.
pub insert_home :
    (n mask : ℕ) (m : IsMask n mask) (check : Bool) (es : List Entry) (e : Entry)
    → IsTable n mask es
    → IsUnique n es
    → used es < n
    → is_empty e ≡ false
    → e.hash ≡ hash e.key
    → e.dib ≡ 0
    → Absent n es e.key
    → (es' : List Entry) × (insert_loop n check es mask e.hash e (bit_and e.hash mask)
        ≡ some (true, es'))
      × Inserted n mask es e es'
unfolding walk
insert_home n mask m check es e v u less there own start new =
    let h = bit_and e.hash mask in
    let hn = home-lt n mask m e.hash in
    let (d, hd, free) = free_ahead n mask m es h v less hn in
    insert-Absent n mask m n d check es e.hash e h v u hn
      (record { there = there; distance = ap (walk mask h) start; hashed = own })
      (record { before = λ j hj same far. absurd (omega arith) }) new free hd

-- The slots that are still to be moved.
pub record IsSource (olds : List Entry) : Type 0 where
  pub own :
      (i : ℕ)
      → i < length olds
      → is_empty (slot_at olds i) ≡ false
      → (slot_at olds i).hash ≡ hash (slot_at olds i).key
  pub once : IsUnique (length olds) olds

tail-IsSource : (o : Entry) (olds : List Entry) → IsSource (o ∷ olds) → IsSource olds
tail-IsSource o olds s = record {
  own = λ i h t. s.own (suc i) (omega arith) t;
  once = record {
    once = λ i j hi hj ti tj e.
        let q = s.once.once (suc i) (suc j) (omega arith) (omega arith) ti tj e in omega arith;
  };
}

pub Has-cons :
    (o : Entry) (olds : List Entry) (k w : Text)
    → Has (length (o ∷ olds)) (o ∷ olds) k w
    → Has (length olds) olds k w ⊎ ((is_empty o ≡ false) × (k ≡ o.key) × (w ≡ o.val))
Has-cons o olds k w (zero, p) = inr (p.there, sym p.key, sym p.val)
Has-cons o olds k w (suc i, p) = inl (
  i,
  record { inside = let h = p.inside in omega arith; there = p.there; key = p.key; val = p.val },
)

pub Has-tail :
    (o : Entry) (olds : List Entry) (k w : Text)
    → Has (length olds) olds k w
    → Has (length (o ∷ olds)) (o ∷ olds) k w
Has-tail o olds k w (i, p) = (
  suc i,
  record { inside = let h = p.inside in omega arith; there = p.there; key = p.key; val = p.val },
)

-- The pairs of two tables together.
pub record Joins (n : ℕ) (es olds es' : List Entry) : Type 0 where
  pub kept : (k w : Text) → Has n es k w → Has n es' k w
  pub moved : (k w : Text) → Has (length olds) olds k w → Has n es' k w
  pub only : (k w : Text) → Has n es' k w → Has n es k w ⊎ Has (length olds) olds k w

Joins-cons :
    (n : ℕ) (es es₁ es' : List Entry) (o : Entry) (olds : List Entry) (dib : ℕ)
    → is_empty o ≡ false
    → Adds n es es₁ (record o { dib = dib })
    → Joins n es₁ olds es'
    → Joins n es (o ∷ olds) es'
Joins-cons n es es₁ es' o olds dib there a j = record {
  kept = λ k w p. j.kept k w (a.kept k w p);
  moved = λ k w p. elim (Has-cons o olds k w p) [
    | inl q ↦ j.moved k w q
    | inr (_, ek, ew) ↦
        let (i, q) = j.kept o.key o.val a.added in
        (
          i,
          record { inside = q.inside; there = q.there; key = q.key ∙ sym ek; val = q.val ∙ sym ew },
        )
  ];
  only = λ k w p. elim (j.only k w p) [
    | inl q ↦ elim (a.only k w q) [
      | inl r ↦ inl r
      | inr (ek, ew) ↦
          inr (0, record { inside = omega arith; there = there; key = sym ek; val = sym ew })
    ]
    | inr q ↦ inr (Has-tail o olds k w q)
  ];
}

-- The keys that are still to be moved are not among those that were.
later-Absent :
    (n : ℕ) (es es₁ : List Entry) (o : Entry) (olds : List Entry) (dib : ℕ)
    → IsSource (o ∷ olds)
    → is_empty o ≡ false
    → ((k w : Text) → Has (length (o ∷ olds)) (o ∷ olds) k w → Absent n es k)
    → Adds n es es₁ (record o { dib = dib })
    → (k w : Text) → Has (length olds) olds k w
    → Absent n es₁ k
later-Absent n es es₁ o olds dib s there new a k w (j, q) i hi ti e =
    elim (a.only k (slot_at es₁ i).val
      (i, record { inside = hi; there = ti; key = e; val = refl })) [
        | inl (l, r) ↦ new k w (Has-tail o olds k w (j, q)) l r.inside r.there r.key
        | inr (ek, _) ↦
            let inside = q.inside in
            let same =
              s.once.once 0 (suc j) (omega arith) (omega arith) there q.there
                (sym ek ∙ sym q.key) in
            absurd (omega arith)
      ]

-- What `reinsert` returns.
pub record Moved (n mask : ℕ) (es olds es' : List Entry) (size size' : ℕ) : Type 0 where
  pub table : IsTable n mask es'
  pub unique : IsUnique n es'
  pub joins : Joins n es olds es'
  pub count : used es' ≡ used es + used olds
  pub sized : size' ≡ size + used olds

reinsert-free :
    (o : Entry) (olds : List Entry) (fuel : ℕ) (es : List Entry) (mask size : ℕ)
    → is_empty o ≡ true
    → reinsert (o ∷ olds) fuel es mask size ≡ reinsert olds fuel es mask size
unfolding reinsert
reinsert-free o olds fuel es mask size free = rw (free, reinsert) refl

reinsert-taken :
    (o : Entry) (olds : List Entry) (fuel : ℕ) (es : List Entry) (mask size : ℕ) (es₁ : List Entry)
    → is_empty o ≡ false
    → insert_loop fuel false es mask o.hash (record o { dib = 0 }) (bit_and o.hash mask)
      ≡ some (true, es₁)
    → reinsert (o ∷ olds) fuel es mask size ≡ reinsert olds fuel es₁ mask (size + 1)
unfolding reinsert
reinsert-taken o olds fuel es mask size es₁ there put = rw (there, reinsert) (rw put refl)

module _ (n mask : ℕ) (m : IsMask n mask) where
  pub reinsert_lem :
      (olds es : List Entry) (size : ℕ)
      → IsTable n mask es
      → IsUnique n es
      → IsSource olds
      → ((k w : Text) → Has (length olds) olds k w → Absent n es k)
      → used es + used olds < n
      → (es' : List Entry) × (size' : ℕ) × (reinsert olds n es mask size ≡ some (es', size'))
        × Moved n mask es olds es' size size'
  unfolding reinsert used
  reinsert_lem [] es size v u s new less = (
    es,
    size,
    refl,
    record {
      table = v;
      unique = u;
      joins = record {
        kept = λ k w p. p;
        moved = λ k w (i, p). absurd (let h = p.inside in omega arith);
        only = λ k w p. inl p;
      };
      count = omega arith;
      sized = omega arith;
    },
  )
  reinsert_lem (o ∷ olds) es size v u s new less = elim (Bool-cases (is_empty o)) [
    | inl free ↦
        let (es', size', ends, r) =
          reinsert_lem olds es size v u (tail-IsSource o olds s)
            (λ k w p. new k w (Has-tail o olds k w p)) (ground arith) in
        (
          es',
          size',
          reinsert-free o olds n es mask size free ∙ ends,
          record {
            table = r.table;
            unique = r.unique;
            joins = record {
              kept = r.joins.kept;
              moved = λ k w p. elim (Has-cons o olds k w p) [
                | inl q ↦ r.joins.moved k w q
                | inr (t, _, _) ↦ absurd (ground (arith, t, free))
              ];
              only = λ k w p. elim (r.joins.only k w p) [
                | inl q ↦ inl q
                | inr q ↦ inr (Has-tail o olds k w q)
              ];
            };
            count = let c = r.count in ground (arith, free);
            sized = let c = r.sized in ground (arith, free);
          },
        )
    | inr there ↦
        let first = s.own 0 (omega arith) there in
        let (es₁, put, i) =
          insert_home n mask m false es (record o { dib = 0 }) v u (omega arith) there first refl
            (new o.key o.val
              (0, record { inside = omega arith; there = there; key = refl; val = refl })) in
        let (es', size', ends, r) =
          reinsert_lem olds es₁ (size + 1) i.table i.unique (tail-IsSource o olds s)
            (later-Absent n es es₁ o olds 0 s there new i.adds)
            (let c = i.one_more in ground (arith, there)) in
        (
          es',
          size',
          reinsert-taken o olds n es mask size es₁ there put ∙ ends,
          record {
            table = r.table;
            unique = r.unique;
            joins = Joins-cons n es es₁ es' o olds 0 there i.adds r.joins;
            count = let c = r.count in let c' = i.one_more in ground (arith, there);
            sized = let c = r.sized in ground (arith, there);
          },
        )
  ]

pub cleared-IsTable : (n mask : ℕ) → IsTable n mask (cleared n)
cleared-IsTable n mask = record {
  slots = length-replicate n no_entry;
  home = λ i h t. absurd (ground (arith, get_or-replicate n i no_entry, t));
  order = λ i h t far. absurd (ground (arith, get_or-replicate n (next_idx mask i) no_entry, t));
}

pub cleared-IsUnique : (n : ℕ) → IsUnique n (cleared n)
cleared-IsUnique n = record {
  once = λ i j hi hj ti. absurd (ground (arith, get_or-replicate n i no_entry, ti));
}
