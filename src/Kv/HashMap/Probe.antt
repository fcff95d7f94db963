-- ===== src/Kv/HashMap/Probe.antt =====
-- The search loop of `get` and `del` of src/kv/hashmap.cpp on a valid table.
use fast_graph.Prelude.{
  ℕ, zero, suc, ◌+◌, ◌-◌, ◌≤◌, ◌<◌, ◌≡◌, refl, sym, ap, subst, ◌∙◌, ◌≢◌, ◌⊎◌, inl, inr, true, false,
  Option, none, some, List, arith, ltb, leb, Bool-cases, nat_eq, int_eq, text_eq, Text, eq_refl,
  ltb-false,
}
use Prim.Native.Nat.{bit_and}
use fast_graph.Kv.HashMap.{Entry, is_empty, slot_at, hash, next_idx, same_key, probe}
use fast_graph.Kv.HashMap.Cycle.{
  IsMask, walk, home-lt, walk-lt, next_idx-lt, walk-next_idx, walk_reaches,
}
use fast_graph.Kv.HashMap.Table.{IsTable}

-- The pair stands at a position.
pub record Holds (n : ℕ) (es : List Entry) (k w : Text) (i : ℕ) : Type 0 where
  pub inside : i < n
  pub there : is_empty (slot_at es i) ≡ false
  pub key : (slot_at es i).key ≡ k
  pub val : (slot_at es i).val ≡ w

-- No key stands twice.
pub record IsUnique (n : ℕ) (es : List Entry) : Type 0 where
  pub once :
      (i j : ℕ)
      → i < n
      → j < n
      → is_empty (slot_at es i) ≡ false
      → is_empty (slot_at es j) ≡ false
      → (slot_at es i).key ≡ (slot_at es j).key
      → i ≡ j

-- A free slot.
abbrev pub Gap : ℕ → List Entry → Type 0
Gap n es = (t : ℕ) × (t < n) × (is_empty (slot_at es t) ≡ true)

pub same_key_eq : (slot : Entry) (h : ℕ) (key : Text) → same_key slot h key ≡ true → slot.key ≡ key
same_key_eq slot h key e = ground (arith, text_eq.beq_iff slot.key key)

pub Nat-cases : (k : ℕ) → (k ≡ 0) ⊎ ((k' : ℕ) × (k ≡ suc k'))
Nat-cases zero = inl refl
Nat-cases (suc k) = inr (k, refl)

pub true-ne-false : true ≢ false
true-ne-false e = cc

module _ (n mask : ℕ) (m : IsMask n mask) (es : List Entry) (v : IsTable n mask es) where
  -- Between an entry's home and the entry stand only entries that are at least as far from home.
  pub behind :
      (h d k far : ℕ)
      → h < n
      → far ≡ d + k
      → is_empty (slot_at es (walk mask h far)) ≡ false
      → far ≤ (slot_at es (walk mask h far)).dib
      → (is_empty (slot_at es (walk mask h d)) ≡ false) × (d ≤ (slot_at es (walk mask h d)).dib)
  unfolding walk
  behind h d zero far hn s e le =
      let same : far ≡ d = omega arith in
      subst
        (λ x.
          (is_empty (slot_at es (walk mask h x)) ≡ false) × (x ≤ (slot_at es (walk mask h x)).dib))
        same (e, le)
  behind h d (suc k) zero hn s e le = absurd (omega arith)
  behind h d (suc k) (suc far) hn s e le =
      let (there, near) = v.order (walk mask h far) (walk-lt n mask m far h hn) e (omega arith) in
      behind h d k far hn (omega arith) there (omega arith)

  -- With a free slot no entry is as far from home as the table is long.
  pub dib-lt : (i : ℕ) → Gap n es → i < n → is_empty (slot_at es i) ≡ false → (slot_at es i).dib < n
  dib-lt i (t, ht, free) hi e =
      let b = v.home i hi e in
      let h = bit_and (slot_at es i).hash mask in
      let (d, hd, at) = walk_reaches n mask m h t (home-lt n mask m (slot_at es i).hash) ht in
      let far = (slot_at es i).dib in
      elim (Bool-cases (leb d far)) [
        | inl le ↦
            let (there, _) =
              behind h d (far - d) far (home-lt n mask m (slot_at es i).hash) (ground arith)
                (rw b.distance e) (rw b.distance (omega arith)) in
            absurd (ground (arith, ap (λ x. is_empty (slot_at es x)) at))
        | inr gt ↦ ground arith
      ]

  -- A key that stands at `i` is found there.
  pub probe_finds :
      (fuel d k i : ℕ) (key w : Text)
      → IsUnique n es
      → Holds n es key w i
      → (slot_at es i).dib ≡ d + k
      → k < fuel
      → probe fuel es mask (hash key) key (walk mask (bit_and (hash key) mask) d) d ≡ some (some i)
  unfolding probe walk
  probe_finds zero d k i key w u p e less = absurd (omega arith)
  probe_finds (suc fuel) d k i key w u p e less =
      let b = v.home i p.inside p.there in
      let own : (slot_at es i).hash ≡ hash key = b.hashed ∙ ap hash p.key in
      let h = bit_and (hash key) mask in
      let hn = home-lt n mask m (hash key) in
      let at : walk mask h (slot_at es i).dib ≡ i =
        ap (λ x. walk mask (bit_and x mask) (slot_at es i).dib) (sym own) ∙ b.distance in
      let idx = walk mask h d in
      let (there, near) =
        behind h d k (slot_at es i).dib hn e (rw at (p.there)) (rw at (omega arith)) in
      let close : ltb (slot_at es idx).dib d ≡ false = ltb-false _ _ near in
      let next : d + 1 ≡ suc d = omega arith in
      elim (Bool-cases (same_key (slot_at es idx) (hash key) key)) [
        | inl same ↦
            let hi = walk-lt n mask m d h hn in
            let found =
              u.once idx i hi p.inside there p.there
                (same_key_eq (slot_at es idx) (hash key) key same ∙ sym p.key) in
            rw (there, probe) (rw (close, same) (ap (λ x. some (some x)) found))
        | inr other ↦ elim (Nat-cases k) [
          | inl z ↦
              let here : idx ≡ i = let q : (slot_at es i).dib ≡ d = omega arith in rw q at at in
              absurd (
                true-ne-false
                  (sym (rw (here, own, p.key) (rw (eq_refl (hash key), eq_refl key) refl)) ∙ other))
          | inr (k', q) ↦
              rw (there, probe)
                (rw (close, other)
                  (rw next (probe_finds fuel (suc d) k' i key w u p (omega arith) (omega arith))))
        ]
      ]

  -- What is found stands there.
  pub probe_sound :
      (fuel idx d i : ℕ) (h : ℕ) (key : Text)
      → idx < n
      → probe fuel es mask h key idx d ≡ some (some i)
      → Holds n es key (slot_at es i).val i
  unfolding probe
  probe_sound zero idx d i h key hi e = absurd (cc)
  probe_sound (suc fuel) idx d i h key hi e = elim (Bool-cases (is_empty (slot_at es idx))) [
    | inl free ↦ absurd (ground (arith, e, free))
    | inr there ↦ elim (Bool-cases (ltb (slot_at es idx).dib d)) [
      | inl far ↦ absurd (ground (arith, e, there, far))
      | inr near ↦ elim (Bool-cases (same_key (slot_at es idx) h key)) [
        | inl same ↦
            let here : idx ≡ i = ground (arith, e, there, near, same) in
            subst (λ x. Holds n es key (slot_at es x).val x) here
              (record {
                inside = hi;
                there = there;
                key = same_key_eq (slot_at es idx) h key same;
                val = refl;
              })
        | inr other ↦
            probe_sound fuel (next_idx mask idx) (d + 1) i h key (next_idx-lt n mask m idx hi)
              (ground (arith, e, there, near, other))
      ]
    ]
  ]

  -- With a free slot `e` steps ahead the search ends.
  pub probe_ends :
      (fuel idx d e : ℕ) (h : ℕ) (key : Text)
      → is_empty (slot_at es (walk mask idx e)) ≡ true
      → e < fuel
      → (r : Option ℕ) × (probe fuel es mask h key idx d ≡ some r)
  unfolding probe walk
  probe_ends zero idx d e h key free less = absurd (omega arith)
  probe_ends (suc fuel) idx d zero h key free less = (none, ground (arith, free))
  probe_ends (suc fuel) idx d (suc e) h key free less =
      let free' = ap (λ x. is_empty (slot_at es x)) (walk-next_idx n mask m e idx) ∙ free in
      let (r, ends) = probe_ends fuel (next_idx mask idx) (d + 1) e h key free' (omega arith) in
      elim (Bool-cases (is_empty (slot_at es idx))) [
        | inl now ↦ (none, ground (arith, now))
        | inr there ↦ elim (Bool-cases (ltb (slot_at es idx).dib d)) [
          | inl far ↦ (none, ground (arith, there, far))
          | inr near ↦ elim (Bool-cases (same_key (slot_at es idx) h key)) [
            | inl same ↦ (some idx, ground (arith, there, near, same))
            | inr other ↦ (r, rw (there, probe) (rw (near, other) ends))
          ]
        ]
      ]
