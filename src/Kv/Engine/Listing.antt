-- ===== src/Kv/Engine/Listing.antt =====
-- `all_entries` of src/kv/kv_engine.cpp, which reads the slots of the hash map for a snapshot.
use fast_graph.Prelude.{
  ◌≡◌, refl, sym, ap, subst, ◌↔◌, ◌⊎◌, inl, inr, true, false, ◌&&◌, ◌||◌, Option, some, List, [],
  ◌∷◌, arith, if◌then◌else◌, Bool-cases, length, take, ℤ, pos, leb_ℤ, nat_eq, int_eq, text_eq, Text,
  take_all,
}
use mathlib.Core.List.Memᴰ
use mathlib.Core.List.{Memᴰ}
use fast_graph.Kv.Ttl.{TtlManager, get_expiry}
use fast_graph.Kv.Ttl.Index.{deadline}
use fast_graph.Kv.HashMap.{Entry, RobinHoodMap, is_empty}
use fast_graph.Kv.HashMap.Contents.{Has}
use fast_graph.Kv.HashMap.Reinsert.{Has-cons, Has-tail}
use fast_graph.Kv.HashMap.Grow.{IsMap}
use fast_graph.Kv.HashMap.Laws.{robin_hood, map_get-In}
use fast_graph.Kv.Engine.{KvEngine}
use fast_graph.Kv.Engine.Visible.{IsEngine, visible, expired, unless_expired, get_expiry-expired}

-- The loop over the slots.
unfoldable pub unexpired : TtlManager → ℤ → List Entry → List (Text × Text × ℤ)
unexpired ttl now [] = []
unexpired ttl now (entry ∷ es) =
    let exp = get_expiry ttl entry.key in
    let rest = unexpired ttl now es in
    if is_empty entry
    then rest
    else if leb_ℤ (pos 0) exp && leb_ℤ exp now
    then rest
    else (entry.key, entry.val, exp) ∷ rest

unfoldable pub all_entries : KvEngine RobinHoodMap → ℤ → List (Text × Text × ℤ)
unfolding unexpired
all_entries e now = unexpired e.ttl now (take e.map.capacity e.map.entries)

-- An entry that is listed.
abbrev pub Lists : List (Text × Text × ℤ) → Text → Text → ℤ → Type 0
Lists l k w x = Memᴰ (k, w, x) l

unexpired_step :
    (ttl : TtlManager) (now : ℤ) (o : Entry) (es : List Entry)
    → ((is_empty o || expired (deadline ttl o.key) now ≡ true)
        × (unexpired ttl now (o ∷ es) ≡ unexpired ttl now es))
      ⊎ ((is_empty o ≡ false)
          × (expired (deadline ttl o.key) now ≡ false)
          × (unexpired ttl now (o ∷ es)
              ≡ (o.key, o.val, get_expiry ttl o.key) ∷ unexpired ttl now es))
unfolding unexpired
unexpired_step ttl now o es =
    let same = get_expiry-expired ttl o.key now in
    elim (Bool-cases (is_empty o)) [
      | inl free ↦ inl (ground (arith, free), ground (arith, free))
      | inr there ↦ elim (Bool-cases (expired (deadline ttl o.key) now)) [
        | inl over ↦ inl (ground (arith, over), rw (there, unexpired) (rw (same, over) refl))
        | inr kept ↦ inr (there, kept, rw (there, unexpired) (rw (same, kept) refl))
      ]
    ]

-- What is listed of some slots.
abbrev Shown : TtlManager → ℤ → List Entry → Text → Text → ℤ → Type 0
Shown ttl now es k w x =
    Has (length es) es k w × (expired (deadline ttl k) now ≡ false) × (x ≡ get_expiry ttl k)

unexpired-Shown :
    (ttl : TtlManager) (now : ℤ) (es : List Entry) (k w : Text) (x : ℤ)
    → Lists (unexpired ttl now es) k w x
    → Shown ttl now es k w x
unfolding unexpired
unexpired-Shown ttl now [] k w x l = absurd (Memᴰ.not-nil l)
unexpired-Shown ttl now (o ∷ es) k w x l = elim (unexpired_step ttl now o es) [
  | inl (_, e) ↦
      let (h, r, r2) = unexpired-Shown ttl now es k w x (subst (Memᴰ (k, w, x)) e l) in
      (Has-tail o es k w h, r, r2)
  | inr (there, kept, e) ↦ elim (Memᴰ.cases_cons (subst (Memᴰ (k, w, x)) e l)) [
    | inl same ↦
        let key : k ≡ o.key = ap (λ y. y.0) same in
        (
          (
            0,
            record {
              inside = omega arith;
              there = there;
              key = sym key;
              val = ap (λ y. y.1) (sym same);
            },
          ),
          rw key kept,
          rw key (ap (λ y. y.2) same),
        )
    | inr m ↦ let (h, r, r2) = unexpired-Shown ttl now es k w x m in (Has-tail o es k w h, r, r2)
  ]
]

Shown-unexpired :
    (ttl : TtlManager) (now : ℤ) (es : List Entry) (k w : Text) (x : ℤ)
    → Shown ttl now es k w x
    → Lists (unexpired ttl now es) k w x
unfolding unexpired
Shown-unexpired ttl now [] k w x ((i, p), _, _) = absurd (let h = p.inside in omega arith)
Shown-unexpired ttl now (o ∷ es) k w x (h, kept, same) =
    let rest : Has (length es) es k w → Lists (unexpired ttl now es) k w x =
      λ q. Shown-unexpired ttl now es k w x (q, kept, same) in
    elim (unexpired_step ttl now o es) [
      | inl (skip, e) ↦ subst (Memᴰ (k, w, x)) (sym e) (elim (Has-cons o es k w h) [
        | inl q ↦ rest q
        | inr (there, key, _) ↦ absurd (ground (arith, skip, there, ap (deadline ttl) key, kept))
      ])
      | inr (_, _, e) ↦ subst (Memᴰ (k, w, x)) (sym e) (elim (Has-cons o es k w h) [
        | inl q ↦ Memᴰ.tail (rest q)
        | inr (_, key, val) ↦ Memᴰ.head (rw same (rw (key, val) refl))
      ])
    ]

unless_expired-some :
    (d : Option ℤ) (now : ℤ) (stored : Option Text) (w : Text)
    → unless_expired d now stored ≡ some w
    → (expired d now ≡ false) × (stored ≡ some w)
unless_expired-some d now stored w e = elim (Bool-cases (expired d now)) [
  | inl over ↦ absurd (ground (arith, e, over))
  | inr kept ↦ (kept, ground (arith, e, kept))
]

-- On a valid engine over the hash map, `all_entries` lists a key with a value and a time exactly if
-- the value is seen under the key and the time is what `get_expiry` returns for it.
pub all_entries-visible :
    (e : KvEngine RobinHoodMap) (now : ℤ)
    → IsEngine IsMap e
    → (k w : Text) (x : ℤ)
    → Lists (all_entries e now) k w x
      ↔ ((visible robin_hood e now k ≡ some w) × (x ≡ get_expiry e.ttl k))
unfolding all_entries
all_entries-visible e now v k w x =
    let slots = v.values.table.slots in
    let all = take_all e.map.capacity e.map.entries (omega arith) in
    let read = map_get-In e.map v.values k w in
    (
      λ l.
          let (h, kept, same) =
            unexpired-Shown e.ttl now e.map.entries k w x
              (subst (λ es. Lists (unexpired e.ttl now es) k w x) all l) in
          (rw kept (read.1 (subst (λ n. Has n e.map.entries k w) slots h)), same),
      λ (seen, same).
          let (kept, stored) =
            unless_expired-some (deadline e.ttl k) now (robin_hood.map_get e.map k) w seen in
          subst (λ es. Lists (unexpired e.ttl now es) k w x) (sym all)
            (Shown-unexpired e.ttl now e.map.entries k w x
              (subst (λ n. Has n e.map.entries k w) (sym slots) (read.0 stored), kept, same)),
    )
