-- ===== src/Kv/HashMap/Grow.antt =====
-- `grow` of src/kv/hashmap.cpp: the entries of the old slots are inserted into a table twice as large.
use fast_graph.Prelude.{
  ℕ, suc, ◌+◌, ◌-◌, ◌*◌, ◌%◌, ◌^◌, ◌≤◌, ◌<◌, ◌≡◌, refl, sym, subst, inl, inr, some, List, arith,
  ltb, Bool-cases, nat_eq, int_eq, text_eq, Text,
}
use native.Mathlib.Nat.{pow-suc}
use fast_graph.Prelude.{get_or-replicate}
use fast_graph.Kv.HashMap.{Entry, RobinHoodMap, no_entry, cleared, reinsert, grow, make_room}
use fast_graph.Kv.HashMap.Reinsert.{reinsert_lem, cleared-IsTable, cleared-IsUnique, IsSource}
use fast_graph.Kv.HashMap.Cycle.{IsMask}
use fast_graph.Kv.HashMap.Table.{IsTable}
use fast_graph.Kv.HashMap.Probe.{IsUnique}
use fast_graph.Kv.HashMap.Contents.{Has, used, used-replicate}

pub record IsMap (m : RobinHoodMap) : Type 0 where
  pub masked : IsMask m.capacity m.mask
  pub table : IsTable m.capacity m.mask m.entries
  pub unique : IsUnique m.capacity m.entries
  pub counted : used m.entries ≡ m.size
  pub room : m.size < m.capacity

grow_ends :
    (m : RobinHoodMap) (es : List Entry) (size : ℕ)
    → reinsert m.entries
        (m.capacity * 2)
        (cleared (m.capacity * 2))
        ((m.capacity * 2 + 2 ^ 32 - 1) % 2 ^ 32)
        0
      ≡ some (es, size)
    → grow m
      ≡ some (record {
        entries = es;
        size = size;
        capacity = m.capacity * 2;
        mask = (m.capacity * 2 + 2 ^ 32 - 1) % 2 ^ 32;
      })
unfolding grow
grow_ends m es size ends = rw (ends, grow) refl

-- A valid map with the pairs of `m`.
pub record SameMap (m m' : RobinHoodMap) : Type 0 where
  pub valid : IsMap m'
  pub size : m'.size ≡ m.size
  pub kept : (k w : Text) → Has m.capacity m.entries k w → Has m'.capacity m'.entries k w
  pub only : (k w : Text) → Has m'.capacity m'.entries k w → Has m.capacity m.entries k w

-- The float test of the load is exact up to this size.
abbrev pub HasRoom : RobinHoodMap → Type 0
HasRoom m = m.capacity ≤ 2 ^ 24

entries-IsSource : (m : RobinHoodMap) → IsMap m → IsSource m.entries
entries-IsSource m v = record {
  own = λ i h t. (v.table.home i (let s = v.table.slots in omega arith) t).hashed;
  once = rw v.table.slots (v.unique);
}

pub grow_lem :
    (m : RobinHoodMap)
    → IsMap m
    → HasRoom m
    → (m' : RobinHoodMap) × (grow m ≡ some m') × SameMap m m' × (m'.capacity ≡ m.capacity * 2)
grow_lem m v small =
    let n = m.capacity * 2 in
    let mask = (n + 2 ^ 32 - 1) % 2 ^ 32 in
    let room = v.room in
    let masked : IsMask n mask = record {
      width = suc v.masked.width;
      power = let p = v.masked.power in omega (arith, pow-suc 2 v.masked.width);
      low = omega arith;
      small = omega arith;
    } in
    let (es, size, ends, r) =
      reinsert_lem n mask masked m.entries (cleared n) 0 (cleared-IsTable n mask)
        (cleared-IsUnique n) (entries-IsSource m v)
        (λ k w p i hi t. absurd (ground (arith, get_or-replicate n i no_entry, t)))
        (let c = v.counted in omega (arith, used-replicate n)) in
    let slots = v.table.slots in
    (
      record { entries = es; size = size; capacity = n; mask = mask },
      grow_ends m es size ends,
      record {
        valid = record {
          masked = masked;
          table = r.table;
          unique = r.unique;
          counted = let c = r.count in let s = r.sized in omega (arith, used-replicate n);
          room = let s = r.sized in let c = v.counted in omega arith;
        };
        size = let s = r.sized in let c = v.counted in omega arith;
        kept = λ k w p. r.joins.moved k w (subst (λ x. Has x m.entries k w) (sym slots) p);
        only = λ k w p. elim (r.joins.only k w p) [
          | inl (i, q) ↦
              let t = q.there in absurd (ground (arith, get_or-replicate n i no_entry, t))
          | inr q ↦ subst (λ x. Has x m.entries k w) slots q
        ];
      },
      refl,
    )

-- Behind the test of the load there is a free slot for one more entry.
pub make_room_lem :
    (m : RobinHoodMap)
    → IsMap m
    → HasRoom m
    → (m' : RobinHoodMap) × (make_room m ≡ some m') × SameMap m m' × (m'.size + 1 < m'.capacity)
unfolding make_room
make_room_lem m v small =
    let room = v.room in
    elim (Bool-cases (ltb (3 * m.capacity) (4 * (m.size + 1)))) [
      | inl full ↦
          let (m', ends, s, twice) = grow_lem m v small in
          (m', rw (full, make_room) ends, s, let e = s.size in omega arith)
      | inr fits ↦ (
        m,
        rw (fits, make_room) refl,
        record { valid = v; size = refl; kept = λ k w p. p; only = λ k w p. p },
        ground arith,
      )
    ]
