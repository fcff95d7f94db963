-- ===== src/Kv/HashMap/Search.antt =====
-- The search of `get` and `del` of src/kv/hashmap.cpp on a valid map.
use fast_graph.Prelude.{
  ℕ, ◌≡◌, refl, sym, ap, ◌∙◌, ◌↔◌, ◌⊎◌, inl, inr, false, Option, none, some, arith, Option-cases,
  ◌==◌, nat_eq, int_eq, text_eq, Text,
}
use Prim.Native.Nat.{bit_and}
use fast_graph.Kv.HashMap.{RobinHoodMap, slot_at, hash, empty_hash, new, probe, get, val_at}
use fast_graph.Kv.HashMap.Cycle.{walk, home-lt}
use fast_graph.Kv.HashMap.Probe.{Holds, Gap, dib-lt, probe_finds, probe_sound, probe_ends}
use fast_graph.Kv.HashMap.Contents.{Has, Absent, used-Gap}
use fast_graph.Kv.HashMap.Grow.{IsMap}
use fast_graph.Kv.HashMap.Reinsert.{free_ahead}

pub hash-ne : (key : Text) → (hash key == empty_hash) ≡ false
unfolding hash
hash-ne key = ground arith

-- The pairs of a map.
abbrev pub In : RobinHoodMap → Text → Text → Type 0
In m k w = Has m.capacity m.entries k w

-- The search that `get` and `del` start.
abbrev pub search_for : RobinHoodMap → Text → Option (Option ℕ)
search_for m key = probe m.capacity m.entries m.mask (hash key) key (bit_and (hash key) m.mask) 0

get_ends :
    (m : RobinHoodMap) (key : Text) (r : Option ℕ)
    → search_for m key ≡ some r
    → get m key ≡ some (val_at m.entries r)
unfolding get
get_ends m key r e = rw (e, get) refl

module _ (m : RobinHoodMap) (v : IsMap m) where
  pub map-Gap : Gap m.capacity m.entries
  map-Gap =
      let slots = v.table.slots in
      let (t, ht, free) = used-Gap m.entries (let c = v.counted in let r = v.room in omega arith) in
      (t, omega arith, free)

  pub search_finds :
      (key w : Text) (i : ℕ) → Holds m.capacity m.entries key w i → search_for m key ≡ some (some i)
  unfolding walk
  search_finds key w i p =
      probe_finds m.capacity m.mask v.masked m.entries v.table m.capacity 0
        (slot_at m.entries i).dib i key w v.unique p (omega arith)
        (dib-lt m.capacity m.mask v.masked m.entries v.table i map-Gap p.inside p.there)

  -- Whether a key is in the map is decided by the search.
  pub search_cases :
      (key : Text)
      → ((i : ℕ) × (search_for m key ≡ some (some i))
          × Holds m.capacity m.entries key (slot_at m.entries i).val i)
        ⊎ ((search_for m key ≡ some none) × Absent m.capacity m.entries key)
  search_cases key =
      let h = bit_and (hash key) m.mask in
      let hn = home-lt m.capacity m.mask v.masked (hash key) in
      let (d, hd, free) =
        free_ahead m.capacity m.mask v.masked m.entries h v.table
          (let c = v.counted in let r = v.room in omega arith) hn in
      let (r, ends) =
        probe_ends m.capacity m.mask v.masked m.entries v.table m.capacity h 0 d (hash key) key free
          hd in
      elim (Option-cases r) [
        | inl e ↦
            let gone = ends ∙ ap some e in
            inr (
              gone,
              λ i hi t same.
                  let found =
                    search_finds key (slot_at m.entries i).val i
                      (record { inside = hi; there = t; key = same; val = refl }) in
                  cc,
            )
        | inr (i, e) ↦
            let found = ends ∙ ap some e in
            inl (
              i,
              found,
              probe_sound m.capacity m.mask v.masked m.entries v.table m.capacity h 0 i (hash key)
                  key hn found,
            )
      ]

  -- On a valid map `get` ends, and returns the value of the key, if it is in the map.
  pub get_lem :
      (key : Text)
      → (r : Option Text) × (get m key ≡ some r) × ((w : Text) → (r ≡ some w) ↔ In m key w)
  get_lem key = elim (search_cases key) [
    | inl (i, found, p) ↦ (
      some (slot_at m.entries i).val,
      get_ends m key (some i) found,
      λ w. (
        λ e. (
          i,
          record { inside = p.inside; there = p.there; key = p.key; val = ground (arith, e) },
        ),
        λ (j, q).
            let same = v.unique.once i j p.inside q.inside p.there q.there (p.key ∙ sym q.key) in
            ap some (ap (λ x. (slot_at m.entries x).val) same ∙ q.val),
      ),
    )
    | inr (gone, new) ↦ (
      none,
      get_ends m key none gone,
      λ w. (λ e. cc, λ (j, q). absurd (new j q.inside q.there q.key)),
    )
  ]
