-- ===== src/Index/SkipList/Lookup.antt =====
-- Lookups in the pairs of a skip list of src/index/skiplist.cpp, and what is left without a member.
use fast_graph.Prelude.{
  ℕ, ◌≡◌, refl, sym, ap, subst, ◌∙◌, inl, inr, Bool, true, false, not, none, some, List, [], ◌∷◌,
  ◌++◌, arith, if◌then◌else◌, Bool-cases, ◌==◌, nat_eq, int_eq, text_eq, Text, eq_refl, eq_true,
  eq_symm,
}
use fast_graph.Index.SkipList.{ScoreOps, SkipNode, node_at}
use fast_graph.Index.SkipList.Chain.{all, all-append, mem, mem-append, distinct}
use fast_graph.Index.SkipList.Order.{ScoreLaws, before, before_irrefl, before_trans}
use fast_graph.Index.SkipList.Sorted.{
  sorted, others, members_once, lookup, select, drop_member, select-all, select-append,
}
use fast_graph.Index.SkipList.Valid.{Split, pair_at, pairs, all-pairs, pairs-append}

pub all_of :
    (test : ℕ → Bool) (xs : List ℕ)
    → ((p : ℕ) → mem p xs ≡ true → test p ≡ true)
    → all test xs ≡ true
all_of test [] f = refl
all_of test (x ∷ xs) f =
    let e = f x (rw (eq_refl x) refl) in
    let r = all_of test xs (λ p h. f p (ground (arith, h))) in ground (arith, e, r)

pub distinct_cut :
    (xs ys : List ℕ) (t : ℕ) → distinct (xs ++ t ∷ ys) ≡ true → distinct (xs ++ ys) ≡ true
distinct_cut [] ys t h = ground (arith, h)
distinct_cut (x ∷ xs) ys t h =
    let r = distinct_cut xs ys t (ground (arith, h)) in
    ground (arith, r, h, mem-append x xs (t ∷ ys), mem-append x xs ys)

-- The middle of a distinct list stands nowhere else in it.
pub distinct_middle :
    (xs ys : List ℕ) (t : ℕ)
    → distinct (xs ++ t ∷ ys) ≡ true
    → (mem t xs ≡ false) × (mem t ys ≡ false)
distinct_middle [] ys t h = (refl, ground (arith, h))
distinct_middle (x ∷ xs) ys t h =
    let (l, r) = distinct_middle xs ys t (ground (arith, h)) in
    let m = mem-append x xs (t ∷ ys) in (ground (arith, l, h, m, eq_symm x t), r)

module _ {Dbl : Type 0} (o : ScoreOps Dbl) where
  pub all-select :
      (a test : Dbl × Text → Bool) (l : List (Dbl × Text))
      → all a l ≡ true
      → all a (select o test l) ≡ true
  all-select a test [] h = h
  all-select a test (x ∷ l) h =
      let r = all-select a test l (ground (arith, h)) in ground (arith, r, h)

  pub sorted-select :
      (test : Dbl × Text → Bool) (l : List (Dbl × Text))
      → sorted o l ≡ true
      → sorted o (select o test l) ≡ true
  sorted-select test [] h = h
  sorted-select test (x ∷ l) h =
      let r = sorted-select test l (ground (arith, h)) in
      let a = all-select (before o x) test l (ground (arith, h)) in ground (arith, r, a)

  pub members_once-select :
      (test : Dbl × Text → Bool) (l : List (Dbl × Text))
      → members_once o l ≡ true
      → members_once o (select o test l) ≡ true
  members_once-select test [] h = h
  members_once-select test (x ∷ l) h =
      let r = members_once-select test l (ground (arith, h)) in
      let a = all-select (others o x.1) test l (ground (arith, h)) in ground (arith, r, a)

  pub lookup-drop_member :
      (member m : Text) (l : List (Dbl × Text))
      → lookup o m (drop_member o member l) ≡ (if member == m then none else lookup o m l)
  lookup-drop_member member m [] = ground arith
  lookup-drop_member member m (x ∷ l) = elim (Bool-cases (x.1 == member)) [
    | inl e ↦
        let s = eq_true x.1 member e in
        ground (arith, lookup-drop_member member m l, e, ap (λ y. y == m) s)
    | inr e ↦ elim (Bool-cases (x.1 == m)) [
      | inl e' ↦
          let s = eq_true x.1 m e' in
          let apart : (member == m) ≡ false =
            eq_symm member m ∙ ap (λ y. y == member) (sym s) ∙ e in
          rw (e, e', apart) refl
      | inr e' ↦ rw (e, e') (lookup-drop_member member m l)
    ]
  ]

  -- No pair has a member that is not found.
  pub lookup-none :
      (m : Text) (l : List (Dbl × Text)) → lookup o m l ≡ none → all (others o m) l ≡ true
  lookup-none m [] e = refl
  lookup-none m (x ∷ l) e = elim (Bool-cases (x.1 == m)) [
    | inl h ↦ absurd (ground (arith, e, h))
    | inr h ↦ let r = lookup-none m l (ground (arith, e, h)) in ground (arith, r, h)
  ]

  pub members_once_parts :
      (l r : List (Dbl × Text)) (x : Dbl × Text)
      → members_once o (l ++ x ∷ r) ≡ true
      → (all (others o x.1) l ≡ true) × (all (others o x.1) r ≡ true)
  members_once_parts [] r x h = (refl, ground (arith, h))
  members_once_parts (y ∷ l) r x h =
      let (a, b) = members_once_parts l r x (ground (arith, h)) in
      let c = all-append (others o y.1) l (x ∷ r) in (ground (arith, a, c, h, eq_symm x.1 y.1), b)

  -- Where a pair is in the middle.
  pub lookup_middle :
      (l r : List (Dbl × Text)) (x : Dbl × Text)
      → all (others o x.1) l ≡ true
      → lookup o x.1 (l ++ x ∷ r) ≡ some x.0
  lookup_middle [] r x h = rw (eq_refl x.1) refl
  lookup_middle (y ∷ l) r x h =
      let e : (y.1 == x.1) ≡ false = ground (arith, h) in
      rw e (lookup_middle l r x (ground (arith, h)))

  pub drop_middle :
      (l r : List (Dbl × Text)) (x : Dbl × Text)
      → members_once o (l ++ x ∷ r) ≡ true
      → drop_member o x.1 (l ++ x ∷ r) ≡ l ++ r
  drop_middle l r x h =
      let (a, b) = members_once_parts l r x h in
      select-append o (others o x.1) l (x ∷ r)
      ∙ ap (λ k. k ++ select o (others o x.1) (x ∷ r)) (select-all o (others o x.1) l a)
      ∙ ap (λ k. l ++ k) (rw (eq_refl x.1) (select-all o (others o x.1) r b))

  -- The node of a member that is found.
  pub lookup_split :
      (nodes : List (SkipNode Dbl)) (m : Text) (score : Dbl) (xs : List ℕ)
      → lookup o m (pairs o nodes xs) ≡ some score
      → (front : List ℕ) × (t : ℕ) × (back : List ℕ) × (xs ≡ front ++ t ∷ back)
        × (pair_at o nodes t ≡ (score, m))
  lookup_split nodes m score [] e = absurd (ground (arith, e))
  lookup_split nodes m score (x ∷ xs) e = elim (Bool-cases ((node_at o nodes x).member == m)) [
    | inl h ↦
        let s = eq_true (node_at o nodes x).member m h in
        let t : (node_at o nodes x).score ≡ score = ground (arith, e, h) in
        ([], x, xs, refl, rw (s, t) refl)
    | inr h ↦
        let (front, t, back, w, q) = lookup_split nodes m score xs (ground (arith, e, h)) in
        (x ∷ front, t, back, ap (λ l. x ∷ l) w, q)
  ]

module _ {Dbl : Type 0} (o : ScoreOps Dbl) (laws : ScoreLaws o) where
  pub sorted_front :
      (l r : List (Dbl × Text)) (x : Dbl × Text)
      → sorted o (l ++ x ∷ r) ≡ true
      → (all (λ y. before o y x) l ≡ true) × (all (before o x) r ≡ true)
  sorted_front [] r x h = (refl, ground (arith, h))
  sorted_front (y ∷ l) r x h =
      let (a, b) = sorted_front l r x (ground (arith, h)) in
      let c = all-append (before o y) l (x ∷ r) in (ground (arith, a, c, h), b)

  pub not_before :
      (x : Dbl × Text) (l : List (Dbl × Text))
      → all (before o x) l ≡ true
      → all (λ y. not (before o y x)) l ≡ true
  not_before x [] h = refl
  not_before x (y ∷ l) h =
      let r = not_before x l (ground (arith, h)) in
      elim (Bool-cases (before o y x)) [
        | inl e ↦
            let c = before_trans o laws x y x (ground (arith, h)) e in
            absurd (ground (arith, c, before_irrefl o laws x))
        | inr e ↦ ground (arith, r, e)
      ]

  -- A node in the middle splits the list at its pair.
  pub middle-Split :
      (nodes : List (SkipNode Dbl)) (q : Dbl × Text) (xs front : List ℕ) (t : ℕ) (back : List ℕ)
      → xs ≡ front ++ t ∷ back
      → pair_at o nodes t ≡ q
      → sorted o (pairs o nodes xs) ≡ true
      → Split o nodes (λ y. before o y q) xs front (t ∷ back)
  middle-Split nodes q xs front t back e at h =
      let whole = ap (pairs o nodes) e ∙ pairs-append o nodes front (t ∷ back) in
      let (a, b) =
        sorted_front (pairs o nodes front) (pairs o nodes back) (pair_at o nodes t)
          (subst (λ l. sorted o l ≡ true) whole h) in
      let c = not_before (pair_at o nodes t) (pairs o nodes back) b in
      let i = before_irrefl o laws (pair_at o nodes t) in
      subst (λ x. Split o nodes (λ y. before o y x) xs front (t ∷ back)) at
        (record {
          whole = e;
          passing = sym (all-pairs o nodes (λ y. before o y (pair_at o nodes t)) front) ∙ a;
          failing =
              let f = all-pairs o nodes (λ y. not (before o y (pair_at o nodes t))) back in
              ground (arith, f, c, i);
        })
