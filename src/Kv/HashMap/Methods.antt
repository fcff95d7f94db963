-- ===== src/Kv/HashMap/Methods.antt =====
-- `set` of src/kv/hashmap.cpp on a valid map, and the new map.
use fast_graph.Prelude.{
  ℕ, ◌+◌, ◌-◌, ◌%◌, ◌^◌, ◌≤◌, ◌<◌, ◌≡◌, refl, sym, ap, subst, ◌∙◌, ◌≢◌, ◌↔◌, ◌⊎◌, inl, inr, Bool,
  true, false, some, List, arith, set, nat_eq, int_eq, text_eq, Text,
}
use Prim.Native.Nat.{bit_and}
use fast_graph.Prelude.{get_or-replicate}
use native.Mathlib.Nat.{one-le-pow, pow-le-pow_right}
use fast_graph.Kv.HashMap.{
  Entry, RobinHoodMap, no_entry, slot_at, hash, new, next_pow2, insert_loop, insert, make_room,
  set_key,
}
use fast_graph.Kv.HashMap.Cycle.{walk}
use fast_graph.Kv.HashMap.Probe.{dib-lt}
use fast_graph.Kv.HashMap.Contents.{Has, Absent, used-replicate}
use fast_graph.Kv.HashMap.Overwrite.{Sets, Sets-of_Adds, insert_present, overwrite_lem}
use fast_graph.Kv.HashMap.Grow.{IsMap, HasRoom, make_room_lem}
use fast_graph.Kv.HashMap.Reinsert.{insert_home, cleared-IsTable, cleared-IsUnique}
use fast_graph.Kv.HashMap.Search.{In, hash-ne, search_cases, map-Gap}

abbrev incoming : Text → Text → Entry
incoming key val = record { hash = hash key; dib = 0; key = key; val = val }

insert_new :
    (m : RobinHoodMap) (key val : Text) (es : List Entry)
    → insert_loop m.capacity true m.entries m.mask
        (hash key)
        (incoming key val)
        (bit_and (hash key) m.mask)
      ≡ some (true, es)
    → insert m key val ≡ some (true, record m { entries = es; size = m.size + 1 })
unfolding insert
insert_new m key val es e = rw (e, insert) refl

insert_old :
    (m : RobinHoodMap) (key val : Text) (es : List Entry)
    → insert_loop m.capacity true m.entries m.mask
        (hash key)
        (incoming key val)
        (bit_and (hash key) m.mask)
      ≡ some (false, es)
    → insert m key val ≡ some (false, record m { entries = es })
unfolding insert
insert_old m key val es e = rw (e, insert) refl

set_key_ends :
    (m m' : RobinHoodMap) (key val : Text) (r : Bool × RobinHoodMap)
    → make_room m ≡ some m'
    → insert m' key val ≡ some r
    → set_key m key val ≡ some r
unfolding set_key
set_key_ends m m' key val r e f = rw (e, set_key) f

-- `m'` has as many slots as `m`, and the value under the key.
pub record SetsIn (m m' : RobinHoodMap) (key val : Text) : Type 0 where
  pub sets : Sets m.capacity m.entries m'.entries key val
  pub same : m'.capacity ≡ m.capacity

module _ (m m' : RobinHoodMap) (key val : Text) (s : SetsIn m m' key val) where
  abbrev into : (k w : Text) → Has m.capacity m'.entries k w → In m' k w
  into k w p = subst (λ n. Has n m'.entries k w) (sym s.same) p

  sets_only : (k w : Text) → In m' k w → ((k ≢ key) × In m k w) ⊎ ((k ≡ key) × (w ≡ val))
  sets_only k w p = s.sets.only k w (subst (λ n. Has n m'.entries k w) s.same p)

  sets_kept : (k w : Text) → k ≢ key → In m k w → In m' k w
  sets_kept k w other p = into k w (s.sets.kept k w other p)

  sets_added : (k w : Text) → k ≡ key → w ≡ val → In m' k w
  sets_added k w ek ew =
      let (i, p) = into key val s.sets.added in
      (i, record { inside = p.inside; there = p.there; key = p.key ∙ sym ek; val = p.val ∙ sym ew })

-- How `set` answers: the key was new, or it was not.
abbrev pub Answers : RobinHoodMap → RobinHoodMap → Text → Bool → Type 0
Answers m m' key b =
    ((b ≡ true) × Absent m.capacity m.entries key × (m'.size ≡ m.size + 1))
    ⊎ ((b ≡ false) × ((w : Text) × In m key w) × (m'.size ≡ m.size))

module _ (m : RobinHoodMap) (v : IsMap m) where
  -- With a free slot, `insert` ends and puts the value under the key.
  insert_lem :
      (key val : Text)
      → m.size + 1 < m.capacity
      → (b : Bool) × (m' : RobinHoodMap) × (insert m key val ≡ some (b, m'))
        × IsMap m'
        × SetsIn m m' key val
        × Answers m m' key b
  unfolding walk
  insert_lem key val room = elim (search_cases m v key) [
    | inl (i, found, p) ↦
        let far =
          dib-lt m.capacity m.mask v.masked m.entries v.table i (map-Gap m v) p.inside p.there in
        let e = incoming key val in
        let ends =
          insert_present m.capacity m.mask v.masked m.entries v.table v.unique m.capacity 0
            (slot_at m.entries i).dib i e (slot_at m.entries i).val p refl refl (omega arith) far in
        let (t, u, sets, same) =
          overwrite_lem m.capacity m.mask v.masked m.entries v.table v.unique i key
            (slot_at m.entries i).val val p in
        let es = set m.entries i (record (slot_at m.entries i) { val = val }) in
        (
          false,
          record m { entries = es },
          insert_old m key val es ends,
          record {
            masked = v.masked;
            table = t;
            unique = u;
            counted = same ∙ v.counted;
            room = v.room;
          },
          record { sets = sets; same = refl },
          inr (refl, ((slot_at m.entries i).val, (i, p)), refl),
        )
    | inr (gone, new) ↦
        let e = incoming key val in
        let (es, ends, r) =
          insert_home m.capacity m.mask v.masked true m.entries e v.table v.unique
            (let c = v.counted in omega arith) (hash-ne key) refl refl new in
        (
          true,
          record m { entries = es; size = m.size + 1 },
          insert_new m key val es ends,
          record {
            masked = v.masked;
            table = r.table;
            unique = r.unique;
            counted = r.one_more ∙ ap (λ x. x + 1) v.counted;
            room = room;
          },
          record { sets = Sets-of_Adds m.capacity m.entries es e new r.adds; same = refl },
          inl (refl, new, refl),
        )
  ]

-- On a valid map of at most 2 ^ 24 slots `set` ends, growing the table first if need be, and the new
-- map is valid. Its pairs are the old ones, but for those of the key, and the key with the value. The
-- answer says whether the key was new, and the size counts the new key.
pub set_key_lem :
    (m : RobinHoodMap) (key val : Text)
    → IsMap m
    → HasRoom m
    → (b : Bool) × (m' : RobinHoodMap) × (set_key m key val ≡ some (b, m'))
      × IsMap m'
      × ((k w : Text) → In m' k w ↔ (((k ≢ key) × In m k w) ⊎ ((k ≡ key) × (w ≡ val))))
      × (((b ≡ true) × ((w : Text) → ¬ (In m key w)) × (m'.size ≡ m.size + 1))
          ⊎ ((b ≡ false) × ((w : Text) × In m key w) × (m'.size ≡ m.size)))
set_key_lem m key val v small =
    let (m', roomy, s, free) = make_room_lem m v small in
    let (b, m'', ends, valid, sets, answer) = insert_lem m' s.valid key val free in
    let size = s.size in
    (
      b,
      m'',
      set_key_ends m m' key val (b, m'') roomy ends,
      valid,
      λ k w. (
        λ p. elim (sets_only m' m'' key val sets k w p) [
          | inl (other, q) ↦ inl (other, s.only k w q)
          | inr q ↦ inr q
        ],
        λ p. elim p [
          | inl (other, q) ↦ sets_kept m' m'' key val sets k w other (s.kept k w q)
          | inr (ek, ew) ↦ sets_added m' m'' key val sets k w ek ew
        ],
      ),
      elim answer [
        | inl (e, new, n) ↦ inl (
          e,
          λ w p. let (i, q) = s.kept key w p in new i q.inside q.there q.key,
          n ∙ ap (λ x. x + 1) size,
        )
        | inr (e, (w, p), n) ↦ inr (e, (w, s.only key w p), n ∙ size)
      ],
    )

-- A new map is valid where `next_pow2` gives a power of two.
pub new-IsMap :
    (initial width : ℕ)
    → next_pow2 initial ≡ 2 ^ width
    → width < 32
    → IsMap (new initial) × ((k w : Text) → ¬ (In (new initial) k w))
unfolding new
new-IsMap initial width e small =
    let n = next_pow2 initial in
    let mask = (n + 2 ^ 32 - 1) % 2 ^ 32 in
    let lo = one-le-pow width 2 (omega arith) in
    let hi : 2 ^ width ≤ 2 ^ 31 = pow-le-pow_right {n = 2} (omega arith) {j = 31} (omega arith) in
    (
      record {
        masked = record { width = width; power = e; low = omega arith; small = omega arith };
        table = cleared-IsTable n mask;
        unique = cleared-IsUnique n;
        counted = used-replicate n;
        room = omega arith;
      },
      λ k w (i, p). let t = p.there in absurd (ground (arith, get_or-replicate n i no_entry, t)),
    )
