-- ===== src/Memory/StringPool/Pointers.antt =====
-- The pointers and bytes of `StringPool::intern` of src/memory/string_pool.hpp.
use fast_graph.Prelude.{
  ℕ, ◌+◌, ◌≤◌, ◌<◌, ◌^◌, ◌≡◌, ◌↔◌, ◌⊎◌, inl, inr, refl, sym, ap, ◌∙◌, Option, none, some, [], ◌∷◌,
  Text, ◌==◌, length, length-append, if◌then◌else◌, arith, Option-cases, text_eq, nat_eq, subst,
  ◌-◌,
}
use fast_graph.Prelude.Dict.{find, put, find-put_cases, find-put_self, find-put_ne}
use fast_graph.Memory.Arena.Bounds
use fast_graph.Memory.Arena.Bounds.{Allocates, alloc_lem}
use fast_graph.Memory.Arena
use fast_graph.Memory.Arena.{Arena, alloc}
use fast_graph.Memory.StringPool.{StringPool, new, memcpy, c_str, max_align, place, intern}

-- The bytes at `p`.
abbrev pub Holds : (ℕ → ℕ) → ℕ → Text → Type 0
Holds mem p [] = Unit
Holds mem p (b ∷ bs) = (mem p ≡ b) × Holds mem (p + 1) bs

memcpy_outside :
    (mem : ℕ → ℕ) (p : ℕ) (bs : Text) (i : ℕ)
    → (i < p) ⊎ (p + length bs ≤ i)
    → memcpy mem p bs i ≡ mem i
unfolding memcpy
memcpy_outside mem p [] i h = refl
memcpy_outside mem p (b ∷ bs) i h =
    ground (arith, memcpy_outside (λ i. if i == p then b else mem i) (p + 1) bs i)

memcpy-Holds : (mem : ℕ → ℕ) (p : ℕ) (bs : Text) → Holds (memcpy mem p bs) p bs
unfolding memcpy
memcpy-Holds mem p [] = tt
memcpy-Holds mem p (b ∷ bs) =
    let mem' = λ (i : ℕ). if i == p then b else mem i in
    (ground (arith, memcpy_outside mem' (p + 1) bs p), memcpy-Holds mem' (p + 1) bs)

Holds-congr :
    (m m' : ℕ → ℕ) (p : ℕ) (bs : Text)
    → ((i : ℕ) → p ≤ i → i < p + length bs → m' i ≡ m i)
    → Holds m p bs
    → Holds m' p bs
Holds-congr m m' p [] same h = tt
Holds-congr m m' p (b ∷ bs) same h = (
  same p (omega arith) (omega arith) ∙ h.0,
  Holds-congr m m' (p + 1) bs (λ i lo hi. same i (omega arith) (omega arith)) h.1,
)

pub record IsValid (p : StringPool) : Type 0 where
  pub arena : Bounds.IsValid p.arena
  pub placed :
      (s : Text) (q : ℕ)
      → find s p.table ≡ some q
      → (q + length s + 1 ≤ p.arena.base + p.arena.used) × Holds p.mem q (c_str s)
  pub apart :
      (s t : Text) (q r : ℕ)
      → find s p.table ≡ some q
      → find t p.table ≡ some r
      → (s ≡ t) ⊎ (q + length s < r) ⊎ (r + length t < q)

pub new-IsValid : (base n : ℕ) → n < 2 ^ 62 → IsValid (new base n)
unfolding new Arena.new find
new-IsValid base n h = record {
  arena = record { room = omega arith; small = h };
  placed = λ s q f. cc;
  apart = λ s t q r f g. cc;
}

-- A call of `intern` for `s`: no pointer for want of room, or one under which the table has `s`; the
-- pool stays valid, and all other entries are as before.
abbrev pub Interns : StringPool → Text → Option ℕ × StringPool → Type 0
Interns p s (none, p') = (p' ≡ p) × (find s p.table ≡ none)
Interns p s (some q, p') =
    IsValid p'
    × (find s p'.table ≡ some q)
    × ((t : Text) (r : ℕ) → find t p.table ≡ some r → find t p'.table ≡ some r)

-- The new entry, put behind all the others.
module _ (p : StringPool) (s : Text) (q : ℕ) (v : IsValid p)
    (lo : p.arena.base + p.arena.used ≤ q) where
  abbrev mem' : ℕ → ℕ
  mem' = memcpy p.mem q (c_str s)

  placed-put :
      (t : Text) (r : ℕ)
      → find t (put s q p.table) ≡ some r
      → (r + length t + 1 ≤ p.arena.base + (q - p.arena.base + (length s + 1)))
        × Holds mem' r (c_str t)
  placed-put t r f = elim (find-put_cases s t q r p.table f) [
    | inl (same, e) ↦ rw (same, e) (omega arith, memcpy-Holds p.mem q (c_str s))
    | inr old ↦
        let (fits, holds) = v.placed t r old in
        (
          omega arith,
          Holds-congr p.mem mem' r (c_str t)
              (λ i _ hi.
                memcpy_outside p.mem q (c_str s) i (inl (omega (arith, length-append t (0 ∷ [])))))
              holds,
        )
  ]

  apart-put :
      (t u : Text) (r w : ℕ)
      → find t (put s q p.table) ≡ some r
      → find u (put s q p.table) ≡ some w
      → (t ≡ u) ⊎ (r + length t < w) ⊎ (w + length u < r)
  apart-put t u r w f g = elim (find-put_cases s t q r p.table f) [
    | inl (same, e) ↦ elim (find-put_cases s u q w p.table g) [
      | inl (same', e') ↦ inl (same ∙ sym same')
      | inr old' ↦ let h = (v.placed u w old').0 in inr (inr (omega arith))
    ]
    | inr old ↦ elim (find-put_cases s u q w p.table g) [
      | inl (same', e') ↦ let h = (v.placed t r old).0 in inr (inl (omega arith))
      | inr old' ↦ v.apart t u r w old old'
    ]
  ]

place-Interns :
    (p : StringPool) (s : Text) (r : Option ℕ × Arena)
    → IsValid p
    → find s p.table ≡ none
    → length s < 2 ^ 61
    → Allocates p.arena (length s + 1) max_align r
    → Interns p s (place p s r)
unfolding place
place-Interns p s (none, a) v new h (e, full) = (rw e, new)
place-Interns p s (some q, a) v new h (lo, aligned, hi, e) = (
  record {
    arena = rw e (record { room = omega arith; small = v.arena.small });
    placed = rw e (placed-put p s q v lo);
    apart = apart-put p s q v lo;
  },
  find-put_self s q p.table,
  λ t r f. find-put_ne s t q p.table (λ same. cc (ap (λ (x : Text). find x p.table) same)) ∙ f,
)

-- On a valid pool, `intern` of a string shorter than 2 ^ 61 returns the pointer under which the new
-- pool has the string; the new pool is valid and keeps all other entries. Or it returns none, if the
-- string is new, and the pool stays as it was.
pub intern-Interns :
    (p : StringPool) (s : Text) → IsValid p → length s < 2 ^ 61 → Interns p s (intern p s)
unfolding intern
intern-Interns p s v h = elim (Option-cases (find s p.table)) [
  | inl e ↦
      rw (e, intern)
        (place-Interns p s _ v e h (alloc_lem p.arena (length s + 1) 4 v.arena (omega arith)))
  | inr (q, e) ↦ rw (e, intern) (v, e, λ t r f. f)
]

-- After two successful calls the pointers are equal exactly if the strings are, and the bytes of
-- the first string still stand at its pointer.
pub intern-intern_iff :
    (p p₁ p₂ : StringPool) (s t : Text) (q r : ℕ)
    → IsValid p
    → length s < 2 ^ 61
    → length t < 2 ^ 61
    → intern p s ≡ (some q, p₁)
    → intern p₁ t ≡ (some r, p₂)
    → ((q ≡ r) ↔ (s ≡ t)) × Holds p₂.mem q (c_str s)
intern-intern_iff p p₁ p₂ s t q r v hs ht e f =
    let (v₁, found, _) = subst (Interns p s) e (intern-Interns p s v hs) in
    let (v₂, found', keeps) = subst (Interns p₁ t) f (intern-Interns p₁ t v₁ ht) in
    let found₂ = keeps s q found in
    (
      (
        λ same. elim (v₂.apart s t q r found₂ found') [
          | inl same ↦ same
          | inr (inl lt) ↦ absurd (omega arith)
          | inr (inr lt) ↦ absurd (omega arith)
        ],
        λ same. ground (arith, ap (λ (x : Text). find x p₂.table) same),
      ),
      (v₂.placed s q found₂).1,
    )
