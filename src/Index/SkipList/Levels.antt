-- ===== src/Index/SkipList/Levels.antt =====
-- The levels of a valid skip list of src/index/skiplist.cpp.
use fast_graph.Prelude.{
  ℕ, zero, suc, ◌≤◌, ◌<◌, ◌≡◌, refl, sym, ap, subst, ◌∙◌, inl, inr, true, none, List, [], ◌∷◌, ◌++◌,
  arith, ltb, Bool-cases, Option-cases, length, ◌==◌, nat_eq, int_eq, text_eq, eq_true,
}
use fast_graph.Index.SkipList.{ScoreOps, SkipNode, SkipList, max_level, lower}
use fast_graph.Index.SkipList.Chain.{
  mem, mem-keep, mem-keep_test, all-mem, distinct, distinct-keep, keep, keep-append, last, last-mem,
  Chain,
}
use fast_graph.Index.SkipList.Descent.{tall, nx}
use fast_graph.Index.SkipList.Writes.{Rewired}
use fast_graph.Index.SkipList.Linking.{Writable}
use fast_graph.Index.SkipList.Valid.{IsSkipList, pair_at, pairs, all_parts}

module _ {Dbl : Type 0} (o : ScoreOps Dbl) where
  pub lower_lem :
      (nodes : List (SkipNode Dbl)) (l : ℕ)
      → 1 ≤ l
      → (1 ≤ lower o nodes l)
        × (lower o nodes l ≤ l)
        × ((i : ℕ) → lower o nodes l ≤ i → i < l → nx o nodes i 0 ≡ none)
  unfolding lower
  lower_lem nodes zero h = absurd (omega arith)
  lower_lem nodes (suc l) h = elim (Option-cases (nx o nodes l 0)) [
    | inr (q, e) ↦ rw (e, lower) (omega arith, omega arith, λ i a b. absurd (omega arith))
    | inl e ↦ elim (Bool-cases (l == 0)) [
      | inl z ↦ rw (e, lower) (rw z (omega arith, omega arith, λ i a b. absurd (omega arith)))
      | inr nz ↦
          let (a, b, c) = lower_lem nodes l (ground (arith, nz)) in
          rw (e, lower)
            (rw nz (
              a,
              omega arith,
              λ i p q. elim (Bool-cases (i == l)) [
                | inl same ↦ subst (λ j. nx o nodes j 0 ≡ none) (sym (eq_true i l same)) e
                | inr other ↦ c i p (ground (arith, other, q))
              ],
            ))
    ]
  ]

  -- The nodes of a rewired store are on the same levels, and hold the same pairs.
  pub keep-Rewired :
      (a b : List (SkipNode Dbl)) (i : ℕ) (xs : List ℕ)
      → Rewired o a b
      → keep (tall o b i) xs ≡ keep (tall o a i) xs
  keep-Rewired a b i [] r = refl
  keep-Rewired a b i (x ∷ xs) r =
      let e = r.levels x in
      let f : tall o b i x ≡ tall o a i x = ap (ltb i) e in
      elim (Bool-cases (tall o a i x)) [
        | inl h ↦ rw (f, h) (ap (λ l. x ∷ l) (keep-Rewired a b i xs r))
        | inr h ↦ rw (f, h) (keep-Rewired a b i xs r)
      ]

  pub pairs-Rewired :
      (a b : List (SkipNode Dbl)) (xs : List ℕ) → Rewired o a b → pairs o b xs ≡ pairs o a xs
  pairs-Rewired a b [] r = refl
  pairs-Rewired a b (x ∷ xs) r =
      rw (r.scores x, r.members x) (ap (λ l. pair_at o a x ∷ l) (pairs-Rewired a b xs r))

  module _ (s : SkipList Dbl) (xs : List ℕ) (v : IsSkipList o s xs) where
    -- A level, where the bottom is split.
    pub level_lem :
        (i : ℕ) (front back : List ℕ)
        → xs ≡ front ++ back
        → i < max_level
        → Chain (nx o s.nodes i) 0 (keep (tall o s.nodes i) front ++ keep (tall o s.nodes i) back)
          × (distinct (0 ∷ keep (tall o s.nodes i) front ++ keep (tall o s.nodes i) back) ≡ true)
    level_lem i front back e h =
        let parts = ap (keep (tall o s.nodes i)) e ∙ keep-append (tall o s.nodes i) front back in
        let head : tall o s.nodes i 0 ≡ true = let l = v.head_level in ground arith in
        let d = distinct-keep (tall o s.nodes i) (0 ∷ xs) v.apart in
        (
          subst (Chain (nx o s.nodes i) 0) parts (v.chains i h),
          subst (λ l. distinct (0 ∷ l) ≡ true) parts (rw head at d),
        )

    -- A search on a level ends at the head or at a node of the level.
    pub update-Writable :
        (i : ℕ) (front back : List ℕ)
        → xs ≡ front ++ back
        → i < max_level
        → Writable o s.nodes i (last 0 (keep (tall o s.nodes i) front))
    update-Writable i front back e h =
        let u = last 0 (keep (tall o s.nodes i) front) in
        elim (Bool-cases (0 == u)) [
          | inl zero_u ↦
              let same = eq_true 0 u zero_u in
              subst (Writable o s.nodes i) same (record {
                inside = let r = v.room in omega arith;
                wide = let l = v.head_level in let w = v.widths 0 in omega arith;
              })
          | inr other ↦
              let m : mem u (keep (tall o s.nodes i) front) ≡ true =
                let q = last-mem 0 (keep (tall o s.nodes i) front) in ground (arith, q, other) in
              let (ins, _) = all_parts o (λ p. ltb p (length s.nodes)) xs front back e v.inside in
              let p =
                all-mem (λ p. ltb p (length s.nodes)) front u ins
                  (mem-keep u (tall o s.nodes i) front m) in
              let t = mem-keep_test u (tall o s.nodes i) front m in
              record {
                inside = ground (arith, p);
                wide = let w = v.widths u in ground (arith, t, w);
              }
        ]
