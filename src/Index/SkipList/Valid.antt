-- ===== src/Index/SkipList/Valid.antt =====
-- Valid skip lists of src/index/skiplist.cpp, and what their searches find.
use fast_graph.Prelude.{
  ℕ, ◌≤◌, ◌<◌, ◌≡◌, refl, sym, ap, subst, ◌∙◌, inl, inr, Bool, true, false, not, Option, none, some,
  List, [], ◌∷◌, ◌++◌, arith, ltb, leb, Bool-cases, length, length-append, nat_eq, int_eq, text_eq,
  Text,
}
use fast_graph.Prelude.Dict.{find}
use fast_graph.Index.SkipList.{ScoreOps, SkipNode, SkipList, max_level, node_at, search_list, found}
use fast_graph.Index.SkipList.Chain.{all, all-append, keep, last, distinct, Chain, Chain-last}
use fast_graph.Index.SkipList.Descent.{tall, nx, updates, get_or-updates, descend_lem}
use fast_graph.Index.SkipList.Sorted.{sorted, members_once, lookup, IsDown, all_fail}

module _ {Dbl : Type 0} (o : ScoreOps Dbl) where
  abbrev pub pair_at : List (SkipNode Dbl) → ℕ → Dbl × Text
  pair_at nodes p = ((node_at o nodes p).score, (node_at o nodes p).member)

  -- The pairs of some nodes.
  abbrev pub pairs : List (SkipNode Dbl) → List ℕ → List (Dbl × Text)
  pairs nodes [] = []
  pairs nodes (p ∷ ps) = pair_at nodes p ∷ pairs nodes ps

  -- The nodes `xs` stand on the bottom level, each on all levels below its own.
  pub record IsSkipList (s : SkipList Dbl) (xs : List ℕ) : Type 0 where
    pub room : length xs < length s.nodes
    pub head_level : (node_at o s.nodes 0).level ≡ max_level
    pub widths : (p : ℕ) → length (node_at o s.nodes p).forward ≡ (node_at o s.nodes p).level
    pub chains : (i : ℕ) → i < max_level → Chain (nx o s.nodes i) 0 (keep (tall o s.nodes i) xs)
    pub inside : all (λ p. ltb p (length s.nodes)) xs ≡ true
    pub apart : distinct (0 ∷ xs) ≡ true
    pub low : 1 ≤ s.level
    pub high : s.level ≤ max_level
    pub lowest : all (tall o s.nodes 0) xs ≡ true
    pub highest : all (λ p. leb (node_at o s.nodes p).level s.level) xs ≡ true
    pub ordered : sorted o (pairs s.nodes xs) ≡ true
    pub once : members_once o (pairs s.nodes xs) ≡ true
    pub scores : (m : Text) → find m s.member_scores ≡ lookup o m (pairs s.nodes xs)
    pub counted : s.size ≡ length xs

  pub all-pairs :
      (nodes : List (SkipNode Dbl)) (test : Dbl × Text → Bool) (xs : List ℕ)
      → all test (pairs nodes xs) ≡ all (λ p. test (pair_at nodes p)) xs
  all-pairs nodes test [] = refl
  all-pairs nodes test (x ∷ xs) = ground (arith, all-pairs nodes test xs)

  pub pairs-append :
      (nodes : List (SkipNode Dbl)) (xs ys : List ℕ)
      → pairs nodes (xs ++ ys) ≡ pairs nodes xs ++ pairs nodes ys
  pairs-append nodes [] ys = refl
  pairs-append nodes (x ∷ xs) ys = ap (λ l. pair_at nodes x ∷ l) (pairs-append nodes xs ys)

  pub keep-all : (test : ℕ → Bool) (xs : List ℕ) → all test xs ≡ true → keep test xs ≡ xs
  keep-all test [] h = refl
  keep-all test (x ∷ xs) h =
      let e : test x ≡ true = ground (arith, h) in
      rw e (ap (λ l. x ∷ l) (keep-all test xs (ground (arith, h))))

  pub keep_none :
      (test : ℕ → Bool) (xs : List ℕ) → all (λ p. not (test p)) xs ≡ true → keep test xs ≡ []
  keep_none test [] h = refl
  keep_none test (x ∷ xs) h =
      let e : test x ≡ false = ground (arith, h) in rw e (keep_none test xs (ground (arith, h)))

  pub all_weaken :
      (test test' : ℕ → Bool) (xs : List ℕ)
      → ((p : ℕ) → test p ≡ true → test' p ≡ true)
      → all test xs ≡ true
      → all test' xs ≡ true
  all_weaken test test' [] up h = refl
  all_weaken test test' (x ∷ xs) up h =
      let r = all_weaken test test' xs up (ground (arith, h)) in
      let e = up x (ground (arith, h)) in ground (arith, r, e)

  pub all_both :
      (a b c : ℕ → Bool) (xs : List ℕ)
      → ((p : ℕ) → a p ≡ true → b p ≡ true → c p ≡ true)
      → all a xs ≡ true
      → all b xs ≡ true
      → all c xs ≡ true
  all_both a b c [] f h h' = refl
  all_both a b c (x ∷ xs) f h h' =
      let r = all_both a b c xs f (ground (arith, h)) (ground (arith, h')) in
      let e = f x (ground (arith, h)) (ground (arith, h')) in ground (arith, r, e)

  -- A list of nodes in two, at the first that fails.
  pub record Split (nodes : List (SkipNode Dbl)) (test : Dbl × Text → Bool) (xs front back : List ℕ)
      : Type 0 where
    pub whole : xs ≡ front ++ back
    pub passing : all (λ p. test (pair_at nodes p)) front ≡ true
    pub failing : all (λ p. not (test (pair_at nodes p))) back ≡ true

  pub split_lem :
      (nodes : List (SkipNode Dbl)) (test : Dbl × Text → Bool) (xs : List ℕ)
      → IsDown o test
      → sorted o (pairs nodes xs) ≡ true
      → (front : List ℕ) × (back : List ℕ) × Split nodes test xs front back
  split_lem nodes test [] d h = ([], [], record { whole = refl; passing = refl; failing = refl })
  split_lem nodes test (x ∷ xs) d h = elim (Bool-cases (test (pair_at nodes x))) [
    | inl e ↦
        let (front, back, s) = split_lem nodes test xs d (ground (arith, h)) in
        (
          x ∷ front,
          back,
          record {
            whole = ap (λ l. x ∷ l) s.whole;
            passing = let p = s.passing in ground (arith, p, e);
            failing = s.failing;
          },
        )
    | inr e ↦
        let f = all_fail o test d (pair_at nodes x) (pairs nodes xs) (ground (arith, h)) e in
        (
          [],
          x ∷ xs,
          record {
            whole = refl;
            passing = refl;
            failing = ground (arith, all-pairs nodes (λ y. not (test y)) xs, f, e);
          },
        )
  ]

  abbrev pub head_of : List ℕ → Option ℕ
  head_of [] = none
  head_of (x ∷ xs) = some x

  pub Chain-head : (nx' : ℕ → Option ℕ) (c : ℕ) (xs : List ℕ) → Chain nx' c xs → nx' c ≡ head_of xs
  Chain-head nx' c [] h = h
  Chain-head nx' c (x ∷ xs) (e, h) = e

  pub all_parts :
      (test : ℕ → Bool) (xs front back : List ℕ)
      → xs ≡ front ++ back
      → all test xs ≡ true
      → (all test front ≡ true) × (all test back ≡ true)
  all_parts test xs front back e h =
      let f = all-append test front back in
      let g = ap (all test) e in (ground (arith, f, g, h), ground (arith, f, g, h))

  pub sorted_back :
      (nodes : List (SkipNode Dbl)) (front back : List ℕ)
      → sorted o (pairs nodes (front ++ back)) ≡ true
      → sorted o (pairs nodes back) ≡ true
  sorted_back nodes [] back h = h
  sorted_back nodes (x ∷ front) back h = sorted_back nodes front back (ground (arith, h))

  module _ (s : SkipList Dbl) (xs : List ℕ) (v : IsSkipList s xs) where
    pub bottom : Chain (nx o s.nodes 0) 0 xs
    bottom =
        subst (λ l. Chain (nx o s.nodes 0) 0 l) (keep-all (tall o s.nodes 0) xs v.lowest)
          (v.chains 0 (omega arith))

    -- No part of the list reaches above the level of the skip list.
    pub no_higher :
        (front back : List ℕ) → xs ≡ front ++ back → keep (tall o s.nodes s.level) front ≡ []
    no_higher front back e = keep_none (tall o s.nodes s.level) front (
        all_weaken (λ p. leb (node_at o s.nodes p).level s.level)
          (λ p. not (tall o s.nodes s.level p)) front (λ p h. ground (arith, h))
          (all_parts (λ p. leb (node_at o s.nodes p).level s.level) xs front back e v.highest).0)

    -- A search ends, in front of the first pair that fails.
    pub search_lem :
        (test : Dbl × Text → Bool) (front back : List ℕ)
        → Split s.nodes test xs front back
        → (search_list o (λ n. test (n.score, n.member)) s ≡ some (updates o s.nodes front s.level))
          × (found o s.nodes (updates o s.nodes front s.level) ≡ head_of back)
    unfolding search_list
    search_lem test front back p =
        let room = v.room in
        let e = p.whole in
        let n = length-append front back in
        let all_low =
          keep-all (tall o s.nodes 0) front
            (all_parts (tall o s.nodes 0) xs front back e v.lowest).0 in
        let first = get_or-updates o s.nodes front s.level 0 v.low ∙ ap (last 0) all_low in
        let behind =
          Chain-head (nx o s.nodes 0) (last 0 front) back (
            Chain-last (nx o s.nodes 0) 0 front back (subst (Chain (nx o s.nodes 0) 0) e bottom)) in
        (
          descend_lem o s.nodes (λ n. test (n.score, n.member)) (length s.nodes) s.level 0 front
              back
              (λ i h.
                subst (λ l. Chain (nx o s.nodes i) 0 (keep (tall o s.nodes i) l)) e
                  (v.chains i (let g = v.high in omega arith)))
              (sym (ap (last 0) (no_higher front back e))) p.passing p.failing
              (let m = ap length e in omega arith),
          ap (nx o s.nodes 0) first ∙ behind,
        )
