-- ===== src/Memory/Slab/Reuse.antt =====
-- The classes and the free lists of src/memory/slab.hpp.
use fast_graph.Prelude.{
  ℕ, zero, suc, ◌+◌, ◌-◌, ◌≤◌, ◌<◌, ◌≡◌, refl, ap, subst, ◌∙◌, inl, inr, some, List, [], ◌∷◌, arith,
  leb, Bool-cases, length, get_or, set, get_or-set_self, nat_eq, int_eq, text_eq,
}
use fast_graph.Memory.Slab.{k_classes, SlabAllocator, first_class, size_class, allocate, deallocate}

first_class_lem :
    (size i : ℕ) (cs : List ℕ) (k : ℕ)
    → first_class size i cs ≡ some k
    → (i ≤ k)
      × (k < i + length cs)
      × (size ≤ get_or cs (k - i) 0)
      × ((j : ℕ) → j < k - i → get_or cs j 0 < size)
unfolding first_class
first_class_lem size i [] k e = cc
first_class_lem size i (c ∷ cs) k e = elim (Bool-cases (leb size c)) [
  | inl fits ↦
      let same : i ≡ k = ground (arith, e, fits) in
      let start : k - i ≡ 0 = omega arith in
      (omega arith, omega arith, rw start (ground arith), λ j h. absurd (omega arith))
  | inr small ↦
      let (lo, hi, fits, least) = first_class_lem size (suc i) cs k (ground (arith, e, small)) in
      let next : k - i ≡ suc (k - suc i) = omega arith in
      (
        omega arith,
        omega arith,
        rw next fits,
        λ j h. least_of size c cs (k - suc i) least (ground arith) j (omega arith),
      )
]
  where
    least_of :
        (size c : ℕ) (cs : List ℕ) (n : ℕ)
        → ((j : ℕ) → j < n → get_or cs j 0 < size)
        → c < size
        → (j : ℕ) → j < suc n
        → get_or (c ∷ cs) j 0 < size
    least_of size c cs n least first zero h = first
    least_of size c cs n least first (suc j) h = least j (omega arith)

-- The class of a request is the smallest that is large enough.
pub size_class_lem :
    (size cls : ℕ)
    → size_class size ≡ some cls
    → (cls < 9)
      × (size ≤ get_or k_classes cls 0)
      × ((smaller : ℕ) → smaller < cls → get_or k_classes smaller 0 < size)
unfolding size_class
size_class_lem size cls e =
    let (lo, hi, fits, least) = first_class_lem size 0 k_classes cls e in
    let same : cls - 0 ≡ cls = omega arith in
    (omega arith, subst (λ n. size ≤ get_or k_classes n 0) same fits, λ j h. least j (omega arith))

set-set {ℓ} : {A : Type ℓ} (xs : List A) (i : ℕ) (v w : A) → set (set xs i v) i w ≡ set xs i w
set-set [] i v w = refl
set-set (x ∷ xs) zero v w = refl
set-set (x ∷ xs) (suc i) v w = ap (λ ys. x ∷ ys) (set-set xs i v w)

set-get_or {ℓ} : {A : Type ℓ} (xs : List A) (i : ℕ) (d : A) → set xs i (get_or xs i d) ≡ xs
set-get_or [] i d = refl
set-get_or (x ∷ xs) zero d = refl
set-get_or (x ∷ xs) (suc i) d = ap (λ ys. x ∷ ys) (set-get_or xs i d)

-- A block that is given back is the next that a request of the same class gets, without `malloc`, and
-- the free lists are then as they were.
pub allocate-deallocate :
    (s : SlabAllocator) (p size size' cls fresh : ℕ)
    → length s.pools ≡ 9
    → size_class size ≡ some cls
    → size_class size' ≡ some cls
    → allocate (deallocate s p size) size' fresh ≡ (p, s)
unfolding allocate deallocate
allocate-deallocate s p size size' cls fresh nine e e' =
    let (small, _, _) = size_class_lem size cls e in
    let free = get_or s.pools cls [] in
    let head = get_or-set_self s.pools cls (p ∷ free) [] (omega arith) in
    let back = set-set s.pools cls (p ∷ free) free ∙ set-get_or s.pools cls [] in
    rw (e, deallocate)
      (rw (e', allocate) (rw head (ap (λ pools. (p, record { pools = pools })) back)))
