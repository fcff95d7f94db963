-- ===== src/Index/SkipList/Placed.antt =====
-- A pair, or a node, that is put in the middle of a list of src/index/skiplist.cpp.
use fast_graph.Prelude.{
  ℕ, zero, suc, ◌-◌, ◌≤◌, ◌<◌, ◌≡◌, refl, ap, ◌∙◌, inl, inr, Bool, true, false, not, some, List, [],
  ◌∷◌, ◌++◌, arith, if◌then◌else◌, Bool-cases, length, get_or, ◌==◌, nat_eq, int_eq, text_eq, Text,
  eq_refl, eq_true, eq_symm,
}
use fast_graph.Index.SkipList.{ScoreOps, SkipNode, node_at}
use fast_graph.Index.SkipList.Chain.{all, all-append, mem, mem-append, distinct, keep}
use fast_graph.Index.SkipList.Order.{ScoreLaws, before, before_total}
use fast_graph.Index.SkipList.Sorted.{sorted, others, members_once, lookup}
use fast_graph.Index.SkipList.Valid.{pair_at, pairs}

pub distinct_put :
    (xs ys : List ℕ) (n : ℕ)
    → distinct (xs ++ ys) ≡ true
    → mem n (xs ++ ys) ≡ false
    → distinct (xs ++ n ∷ ys) ≡ true
distinct_put [] ys n d m = ground (arith, d, m)
distinct_put (x ∷ xs) ys n d m =
    let r = distinct_put xs ys n (ground (arith, d)) (ground (arith, m)) in
    ground (arith, r, d, m, mem-append x xs (n ∷ ys), mem-append x xs ys, eq_symm n x)

pub keep_same :
    (a b : ℕ → Bool) (xs : List ℕ) → ((p : ℕ) → mem p xs ≡ true → a p ≡ b p) → keep a xs ≡ keep b xs
keep_same a b [] f = refl
keep_same a b (x ∷ xs) f =
    let e = f x (rw (eq_refl x) refl) in
    let r = keep_same a b xs (λ p h. f p (ground (arith, h))) in
    elim (Bool-cases (b x)) [ inl h ↦ rw (e, h) (ap (λ l. x ∷ l) r) | inr h ↦ rw (e, h) r ]

pub get_or-append_low {ℓ} :
    {A : Type ℓ} (xs ys : List A) (j : ℕ) (d : A)
    → j < length xs
    → get_or (xs ++ ys) j d ≡ get_or xs j d
get_or-append_low [] ys j d h = absurd (omega arith)
get_or-append_low (x ∷ xs) ys zero d h = refl
get_or-append_low (x ∷ xs) ys (suc j) d h = get_or-append_low xs ys j d (omega arith)

pub get_or-append_high {ℓ} :
    {A : Type ℓ} (xs ys : List A) (j : ℕ) (d : A)
    → length xs ≤ j
    → get_or (xs ++ ys) j d ≡ get_or ys (j - length xs) d
get_or-append_high [] ys j d h = let e : j ≡ j - 0 = omega arith in ap (λ k. get_or ys k d) e
get_or-append_high (x ∷ xs) ys zero d h = absurd (omega arith)
get_or-append_high (x ∷ xs) ys (suc j) d h =
    let e : j - length xs ≡ suc j - suc (length xs) = omega arith in
    get_or-append_high xs ys j d (omega arith) ∙ ap (λ k. get_or ys k d) e

module _ {Dbl : Type 0} (o : ScoreOps Dbl) where
  pub pairs_same :
      (a b : List (SkipNode Dbl)) (xs : List ℕ)
      → ((p : ℕ) → mem p xs ≡ true → node_at o a p ≡ node_at o b p)
      → pairs o a xs ≡ pairs o b xs
  pairs_same a b [] f = refl
  pairs_same a b (x ∷ xs) f =
      let e = f x (rw (eq_refl x) refl) in
      rw e (ap (λ l. pair_at o b x ∷ l) (pairs_same a b xs (λ p h. f p (ground (arith, h)))))

  pub members_once_put :
      (l r : List (Dbl × Text)) (q : Dbl × Text)
      → members_once o (l ++ r) ≡ true
      → all (others o q.1) l ≡ true
      → all (others o q.1) r ≡ true
      → members_once o (l ++ q ∷ r) ≡ true
  members_once_put [] r q h a b = ground (arith, h, b)
  members_once_put (x ∷ l) r q h a b =
      let i = members_once_put l r q (ground (arith, h)) (ground (arith, a)) b in
      ground (
        arith,
        i,
        h,
        a,
        eq_symm q.1 x.1,
        all-append (others o x.1) l r,
        all-append (others o x.1) l (q ∷ r),
      )

  pub lookup_put :
      (l r : List (Dbl × Text)) (q : Dbl × Text) (m : Text)
      → all (others o q.1) l ≡ true
      → lookup o m (l ++ q ∷ r) ≡ (if q.1 == m then some q.0 else lookup o m (l ++ r))
  lookup_put [] r q m a = refl
  lookup_put (x ∷ l) r q m a =
      let i = lookup_put l r q m (ground (arith, a)) in
      elim (Bool-cases (x.1 == m)) [
        | inl e ↦
            let s = ap (λ y. y == q.1) (eq_true x.1 m e) in ground (arith, e, s, a, eq_symm q.1 m)
        | inr e ↦ ground (arith, i, e)
      ]

  pub sorted_put :
      (l r : List (Dbl × Text)) (q : Dbl × Text)
      → sorted o (l ++ r) ≡ true
      → all (λ x. before o x q) l ≡ true
      → all (before o q) r ≡ true
      → sorted o (l ++ q ∷ r) ≡ true
  sorted_put [] r q h a b = ground (arith, h, b)
  sorted_put (x ∷ l) r q h a b =
      let i = sorted_put l r q (ground (arith, h)) (ground (arith, a)) b in
      ground (arith, i, h, a, all-append (before o x) l r, all-append (before o x) l (q ∷ r))

module _ {Dbl : Type 0} (o : ScoreOps Dbl) (laws : ScoreLaws o) where
  -- What does not come before a pair comes behind it, if its members are others.
  pub all_behind :
      (l : List (Dbl × Text)) (q : Dbl × Text)
      → all (λ x. not (before o x q)) l ≡ true
      → all (others o q.1) l ≡ true
      → all (before o q) l ≡ true
  all_behind [] q h a = refl
  all_behind (x ∷ l) q h a =
      let i = all_behind l q (ground (arith, h)) (ground (arith, a)) in
      elim (Bool-cases (before o q x)) [
        | inl e ↦ ground (arith, i, e)
        | inr e ↦
            let same = before_total o laws q x e (ground (arith, h)) in
            let m = ap (λ y. y == q.1) (ap (λ y. y.1) same) in
            absurd (ground (arith, a, m, eq_refl q.1))
      ]
