-- ===== src/Index/SkipList/Ranges.antt =====
-- `range_by_score` of src/index/skiplist.cpp on a valid skip list.
use fast_graph.Prelude.{
  ℕ, zero, suc, ◌≤◌, ◌≡◌, refl, sym, ap, subst, ◌∙◌, Bool, true, false, not, ◌&&◌, some, List, [],
  ◌∷◌, ◌++◌, append-nil, arith, length, length-append, nat_eq, int_eq, text_eq, Text,
}
use fast_graph.Index.SkipList.{ScoreOps, SkipNode, SkipList, collect, range_by_score}
use fast_graph.Index.SkipList.Chain.{last, Chain, Chain-last}
use fast_graph.Index.SkipList.Descent.{nx}
use fast_graph.Index.SkipList.Order.{ScoreLaws}
use fast_graph.Index.SkipList.Sorted.{
  sorted, select, select-all, select_none, select-append, less-IsDown, leq-IsDown,
}
use fast_graph.Index.SkipList.Valid.{
  IsSkipList, Split, pair_at, pairs, all-pairs, pairs-append, all_weaken, all_both, all_parts,
  split_lem, search_lem, sorted_back, bottom, head_of, Chain-head,
}

module _ {Dbl : Type 0} (o : ScoreOps Dbl) where
  collect_lem :
      (fuel : ℕ) (nodes : List (SkipNode Dbl)) (test : Dbl × Text → Bool) (c : ℕ)
      (ys front back : List ℕ)
      → Split o nodes test ys front back
      → Chain (nx o nodes 0) c (front ++ back)
      → length (front ++ back) ≤ fuel
      → collect o fuel (λ n. test (n.score, n.member)) nodes (head_of o (front ++ back))
        ≡ some (pairs o nodes front)
  unfolding collect
  collect_lem fuel nodes test c ys [] [] p h n = refl
  collect_lem zero nodes test c ys [] (y ∷ back) p h n = absurd (omega arith)
  collect_lem (suc fuel) nodes test c ys [] (y ∷ back) p h n =
      let f : test (pair_at o nodes y) ≡ false = let q = p.failing in ground (arith, q) in
      rw (f, collect) refl
  collect_lem zero nodes test c ys (x ∷ front) back p h n = absurd (omega arith)
  collect_lem (suc fuel) nodes test c ys (x ∷ front) back p (e, h) n =
      let f : test (pair_at o nodes x) ≡ true = let q = p.passing in ground (arith, q) in
      let next = Chain-head o (nx o nodes 0) x (front ++ back) h in
      let rest =
        collect_lem fuel nodes test x (front ++ back) front back
          (record {
            whole = refl;
            passing = let q = p.passing in ground (arith, q);
            failing = p.failing;
          })
          h (omega arith) in
      rw (f, collect) (rw next (rw rest refl))

module _ {Dbl : Type 0} (o : ScoreOps Dbl) (laws : ScoreLaws o) where
  abbrev pub in_range : Dbl → Dbl → Dbl × Text → Bool
  in_range lo hi x = o.leq lo x.0 && o.leq x.0 hi

  -- What is in the range, of a list that is split at both ends of it.
  range_parts :
      (nodes : List (SkipNode Dbl)) (lo hi : Dbl) (xs front back mid rest : List ℕ)
      → Split o nodes (λ x. o.less x.0 lo) xs front back
      → Split o nodes (λ x. o.leq x.0 hi) back mid rest
      → select o (in_range lo hi) (pairs o nodes xs) ≡ pairs o nodes mid
  range_parts nodes lo hi xs front back mid rest p q =
      let test = in_range lo hi in
      let score = λ (n : ℕ). (pair_at o nodes n).0 in
      let low =
        all_weaken o (λ n. o.less (score n) lo) (λ n. not (test (pair_at o nodes n))) front
          (λ n h. ground (arith, h, laws.leq_iff lo (score n))) p.passing in
      let (not_low, _) =
        all_parts o (λ n. not (o.less (score n) lo)) back mid rest q.whole p.failing in
      let inner =
        all_both o (λ n. not (o.less (score n) lo)) (λ n. o.leq (score n) hi)
          (λ n. test (pair_at o nodes n)) mid
          (λ n h h'. ground (arith, h, h', laws.leq_iff lo (score n))) not_low q.passing in
      let high =
        all_weaken o (λ n. not (o.leq (score n) hi)) (λ n. not (test (pair_at o nodes n))) rest
          (λ n h. ground (arith, h)) q.failing in
      ap (λ l. select o test (pairs o nodes l)) (p.whole ∙ ap (λ l. front ++ l) q.whole)
      ∙ ap (select o test) (pairs-append o nodes front (mid ++ rest))
      ∙ select-append o test (pairs o nodes front) (pairs o nodes (mid ++ rest))
      ∙ ap (λ l. l ++ select o test (pairs o nodes (mid ++ rest)))
          (select_none o test (pairs o nodes front)
            (all-pairs o nodes (λ x. not (test x)) front ∙ low))
      ∙ ap (select o test) (pairs-append o nodes mid rest)
      ∙ select-append o test (pairs o nodes mid) (pairs o nodes rest)
      ∙ ap (λ l. select o test (pairs o nodes mid) ++ l)
          (select_none o test (pairs o nodes rest)
            (all-pairs o nodes (λ x. not (test x)) rest ∙ high))
      ∙ append-nil (select o test (pairs o nodes mid))
      ∙ select-all o test (pairs o nodes mid) (all-pairs o nodes test mid ∙ inner)

  -- On a valid skip list `range_by_score` ends, and returns the pairs with a score in the range, in
  -- their order.
  pub range_by_score_lem :
      (s : SkipList Dbl) (xs : List ℕ) (lo hi : Dbl)
      → IsSkipList o s xs
      → range_by_score o s lo hi ≡ some (select o (in_range lo hi) (pairs o s.nodes xs))
  unfolding range_by_score
  range_by_score_lem s xs lo hi v =
      let (front, back, p) =
        split_lem o s.nodes (λ x. o.less x.0 lo) xs (less-IsDown o laws lo) v.ordered in
      let (ends, at) = search_lem o s xs v (λ x. o.less x.0 lo) front back p in
      let (mid, rest, q) =
        split_lem o s.nodes (λ x. o.leq x.0 hi) back (leq-IsDown o laws hi)
          (sorted_back o s.nodes front back
            (subst (λ l. sorted o (pairs o s.nodes l) ≡ true) p.whole v.ordered)) in
      let behind =
        Chain-last (nx o s.nodes 0) 0 front back
          (subst (Chain (nx o s.nodes 0) 0) p.whole (bottom o s xs v)) in
      let short = length-append front back in
      let room = v.room in
      let walked =
        collect_lem o (length s.nodes) s.nodes (λ x. o.leq x.0 hi) (last 0 front) back mid rest q
          (subst (Chain (nx o s.nodes 0) (last 0 front)) q.whole behind)
          (let m = ap length p.whole in let m' = ap length q.whole in omega arith) in
      rw ends (
        rw at (
          ap (λ l. collect o (length s.nodes) (λ n. o.leq n.score hi) s.nodes (head_of o l)) q.whole
          ∙ walked
          ∙ ap some (sym (range_parts s.nodes lo hi xs front back mid rest p q))))
