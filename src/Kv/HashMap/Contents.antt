-- ===== src/Kv/HashMap/Contents.antt =====
-- Which pairs stand in the slots of src/kv/hashmap.cpp, and how many, as slots are written.
use fast_graph.Prelude.{
  ℕ, zero, suc, ◌+◌, ◌≤◌, ◌<◌, ◌≡◌, refl, sym, ap, subst, ◌∙◌, ◌≢◌, ◌⊎◌, inl, inr, false, List, [],
  ◌∷◌, arith, if◌then◌else◌, Bool-cases, length, set, replicate, length-set, ◌==◌, nat_eq, int_eq,
  text_eq, Text, eq_refl, eq_true,
}
use fast_graph.Prelude.{get_or-set}
use fast_graph.Kv.HashMap.{Entry, no_entry, is_empty, slot_at}
use fast_graph.Kv.HashMap.Probe.{Holds, IsUnique, Gap}

abbrev pub Has : ℕ → List Entry → Text → Text → Type 0
Has n es k w = (i : ℕ) × Holds n es k w i

abbrev pub Absent : ℕ → List Entry → Text → Type 0
Absent n es k = (i : ℕ) → i < n → is_empty (slot_at es i) ≡ false → (slot_at es i).key ≢ k

-- The pairs of `es'` are those of `es`, and the one of `e`.
pub record Adds (n : ℕ) (es es' : List Entry) (e : Entry) : Type 0 where
  pub kept : (k w : Text) → Has n es k w → Has n es' k w
  pub added : Has n es' e.key e.val
  pub only : (k w : Text) → Has n es' k w → Has n es k w ⊎ ((k ≡ e.key) × (w ≡ e.val))

-- The slots that are taken.
unfoldable pub used : List Entry → ℕ
used [] = 0
used (e ∷ es) = (if is_empty e then 0 else 1) + used es

pub used-set :
    (es : List Entry) (i : ℕ) (e : Entry)
    → i < length es
    → used (set es i e) + (if is_empty (slot_at es i) then 0 else 1)
      ≡ used es + (if is_empty e then 0 else 1)
unfolding used
used-set [] i e h = absurd (omega arith)
used-set (x ∷ es) zero e h = ground arith
used-set (x ∷ es) (suc i) e h = ground (arith, used-set es i e)

pub used-le : (es : List Entry) → used es ≤ length es
unfolding used
used-le [] = omega arith
used-le (e ∷ es) = ground (arith, used-le es)

-- Where not all slots are taken, one is free.
pub used-Gap : (es : List Entry) → used es < length es → Gap (length es) es
unfolding used
used-Gap [] h = absurd (omega arith)
used-Gap (e ∷ es) h = elim (Bool-cases (is_empty e)) [
  | inl free ↦ (0, omega arith, free)
  | inr taken ↦ let (t, ht, free) = used-Gap es (ground arith) in (suc t, omega arith, free)
]

pub used-replicate : (n : ℕ) → used (replicate n no_entry) ≡ 0
unfolding used
used-replicate zero = refl
used-replicate (suc n) = ground (arith, used-replicate n)

pub Holds-congr :
    (n : ℕ) (es es' : List Entry) (k w : Text) (i : ℕ)
    → slot_at es' i ≡ slot_at es i
    → Holds n es k w i
    → Holds n es' k w i
Holds-congr n es es' k w i e p = record {
  inside = p.inside;
  there = ap (λ x. is_empty x) e ∙ p.there;
  key = ap (λ (x : Entry). x.key) e ∙ p.key;
  val = ap (λ (x : Entry). x.val) e ∙ p.val;
}

module _ (n : ℕ) (es : List Entry) (idx : ℕ) (e : Entry) (len : length es ≡ n) (h : idx < n) where
  pub slot-set : (j : ℕ) → slot_at (set es idx e) j ≡ (if idx == j then e else slot_at es j)
  slot-set j = get_or-set es idx j e no_entry (omega arith)

  pub slot-set_ne : (j : ℕ) → (idx == j) ≡ false → slot_at (set es idx e) j ≡ slot_at es j
  slot-set_ne j other = rw (slot-set j, other) refl

  pub slot-set_self : slot_at (set es idx e) idx ≡ e
  slot-set_self = rw (slot-set idx, eq_refl idx) refl

  pub Holds-set_self : is_empty e ≡ false → Holds n (set es idx e) e.key e.val idx
  Holds-set_self there = record {
    inside = h;
    there = ap (λ x. is_empty x) slot-set_self ∙ there;
    key = ap (λ (x : Entry). x.key) slot-set_self;
    val = ap (λ (x : Entry). x.val) slot-set_self;
  }

  -- What the slots hold after the write.
  pub Has-set :
      (k w : Text)
      → Has n (set es idx e) k w
      → ((i : ℕ) × ((idx == i) ≡ false) × Holds n es k w i) ⊎ ((k ≡ e.key) × (w ≡ e.val))
  Has-set k w (i, p) = elim (Bool-cases (idx == i)) [
    | inl same ↦
        let at : slot_at (set es idx e) i ≡ e = rw (slot-set i, same) refl in
        inr (sym p.key ∙ ap (λ (x : Entry). x.key) at, sym p.val ∙ ap (λ (x : Entry). x.val) at)
    | inr other ↦
        inl (i, other, Holds-congr n (set es idx e) es k w i (sym (slot-set_ne i other)) p)
  ]

  -- What they held before.
  pub set-Has : (k w : Text) → Has n es k w → Has n (set es idx e) k w ⊎ Holds n es k w idx
  set-Has k w (i, p) = elim (Bool-cases (idx == i)) [
    | inl same ↦ inr (subst (λ x. Holds n es k w x) (sym (eq_true idx i same)) p)
    | inr other ↦ inl (i, Holds-congr n es (set es idx e) k w i (slot-set_ne i other) p)
  ]

  -- A write of a new key keeps the keys apart.
  pub set-IsUnique : IsUnique n es → Absent n es e.key → IsUnique n (set es idx e)
  set-IsUnique u new = record {
    once =
        λ i j hi hj. ground (arith, slot-set i, slot-set j, u.once i j hi hj, new i hi, new j hj);
  }

  pub length-set_keeps : length (set es idx e) ≡ n
  length-set_keeps = length-set es idx e ∙ len
