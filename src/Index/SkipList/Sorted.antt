-- ===== src/Index/SkipList/Sorted.antt =====
-- What src/index/skiplist.hpp promises: pairs of a score and a member in their order, each member once.
use fast_graph.Prelude.{
  ◌≡◌, refl, ap, inl, inr, Bool, true, false, not, ◌&&◌, Option, none, some, List, [], ◌∷◌, ◌++◌,
  arith, if◌then◌else◌, Bool-cases, ◌==◌, nat_eq, int_eq, text_eq, Text,
}
use fast_graph.Index.SkipList.{ScoreOps}
use fast_graph.Index.SkipList.Chain.{all}
use fast_graph.Index.SkipList.Order.{ScoreLaws, before, before_trans}

module _ {Dbl : Type 0} (o : ScoreOps Dbl) where
  abbrev pub Pair : Type 0
  Pair = Dbl × Text

  abbrev pub sorted : List Pair → Bool
  sorted [] = true
  sorted (x ∷ l) = all (before o x) l && sorted l

  abbrev pub others : Text → Pair → Bool
  others m x = not (x.1 == m)

  abbrev pub members_once : List Pair → Bool
  members_once [] = true
  members_once (x ∷ l) = all (others x.1) l && members_once l

  abbrev pub lookup : Text → List Pair → Option Dbl
  lookup m [] = none
  lookup m (x ∷ l) = if x.1 == m then some x.0 else lookup m l

  -- The pairs that pass.
  abbrev pub select : (Pair → Bool) → List Pair → List Pair
  select test [] = []
  select test (x ∷ l) = if test x then x ∷ select test l else select test l

  -- A pair at its place, and no other pair with its member.
  abbrev pub insert_pair : Pair → List Pair → List Pair
  insert_pair q [] = q ∷ []
  insert_pair q (x ∷ l) = if before o x q then x ∷ insert_pair q l else q ∷ x ∷ l

  abbrev pub drop_member : Text → List Pair → List Pair
  drop_member m l = select (others m) l

  -- What stands before a pair passes a test, if the pair does.
  pub record IsDown (test : Pair → Bool) : Type 0 where
    pub down : (a b : Pair) → before o a b ≡ true → test b ≡ true → test a ≡ true

  -- Behind a pair that fails, all fail.
  pub all_fail :
      (test : Pair → Bool)
      → IsDown test
      → (x : Pair) (l : List Pair) → all (before o x) l ≡ true
      → test x ≡ false
      → all (λ y. not (test y)) l ≡ true
  all_fail test d x [] h f = refl
  all_fail test d x (y ∷ l) h f =
      let r = all_fail test d x l (ground (arith, h)) f in
      elim (Bool-cases (test y)) [
        | inl t ↦ absurd (ground (arith, d.down x y (ground (arith, h)) t, f))
        | inr t ↦ ground (arith, t, r)
      ]

  pub select-all : (test : Pair → Bool) (l : List Pair) → all test l ≡ true → select test l ≡ l
  select-all test [] h = refl
  select-all test (x ∷ l) h =
      let e : test x ≡ true = ground (arith, h) in
      rw e (ap (λ r. x ∷ r) (select-all test l (ground (arith, h))))

  pub select_none :
      (test : Pair → Bool) (l : List Pair) → all (λ y. not (test y)) l ≡ true → select test l ≡ []
  select_none test [] h = refl
  select_none test (x ∷ l) h =
      let e : test x ≡ false = ground (arith, h) in rw e (select_none test l (ground (arith, h)))

  pub select-append :
      (test : Pair → Bool) (xs ys : List Pair)
      → select test (xs ++ ys) ≡ select test xs ++ select test ys
  select-append test [] ys = refl
  select-append test (x ∷ xs) ys = elim (Bool-cases (test x)) [
    | inl e ↦ rw e (ap (λ l. x ∷ l) (select-append test xs ys))
    | inr e ↦ rw e (select-append test xs ys)
  ]

  pub insert_pair_split :
      (q : Pair) (xs ys : List Pair)
      → all (λ x. before o x q) xs ≡ true
      → all (λ x. not (before o x q)) ys ≡ true
      → insert_pair q (xs ++ ys) ≡ xs ++ q ∷ ys
  insert_pair_split q [] [] h f = refl
  insert_pair_split q [] (y ∷ ys) h f =
      let e : before o y q ≡ false = ground (arith, f) in rw e refl
  insert_pair_split q (x ∷ xs) ys h f =
      let e : before o x q ≡ true = ground (arith, h) in
      rw e (ap (λ l. x ∷ l) (insert_pair_split q xs ys (ground (arith, h)) f))

module _ {Dbl : Type 0} (o : ScoreOps Dbl) (laws : ScoreLaws o) where
  pub all_before :
      (a b : Dbl × Text) (l : List (Dbl × Text))
      → before o a b ≡ true
      → all (before o b) l ≡ true
      → all (before o a) l ≡ true
  all_before a b [] h f = refl
  all_before a b (x ∷ l) h f =
      let r = all_before a b l h (ground (arith, f)) in
      let t = before_trans o laws a b x h (ground (arith, f)) in ground (arith, r, t)

  pub before-IsDown : (q : Dbl × Text) → IsDown o (λ x. before o x q)
  before-IsDown q = record { down = λ a b h t. before_trans o laws a b q h t }

  pub less-IsDown : (lo : Dbl) → IsDown o (λ x. o.less x.0 lo)
  less-IsDown lo = record {
    down = λ (a, k) (b, l) h t. elim (Bool-cases (o.equal a b)) [
      | inl e ↦ ground (arith, ap (λ x. o.less x lo) ((laws.equal_iff a b).0 e), t)
      | inr e ↦ laws.less_trans a b lo (ground (arith, h, e)) t
    ];
  }

  pub leq-IsDown : (hi : Dbl) → IsDown o (λ x. o.leq x.0 hi)
  leq-IsDown hi = record {
    down = λ (a, k) (b, l) h t. elim (Bool-cases (o.less hi a)) [
      | inl e ↦ elim (Bool-cases (o.equal a b)) [
        | inl same ↦
            ground
              (arith, ap (λ x. o.less hi x) ((laws.equal_iff a b).0 same), e, laws.leq_iff b hi, t)
        | inr other ↦
            let r = laws.less_trans hi a b e (ground (arith, h, other)) in
            ground (arith, r, laws.leq_iff b hi, t)
      ]
      | inr e ↦ ground (arith, laws.leq_iff a hi, e)
    ];
  }
