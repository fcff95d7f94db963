-- ===== src/Index/SkipList/Removal.antt =====
-- A node taken out of a valid skip list of src/index/skiplist.cpp.
use fast_graph.Prelude.{
  ℕ, ◌+◌, ◌-◌, ◌≤◌, ◌<◌, ◌≡◌, sym, ap, subst, ◌∙◌, inl, inr, Bool, true, false, Option, none, some,
  List, [], ◌∷◌, ◌++◌, arith, ltb, leb, if◌then◌else◌, Bool-cases, length, length-append, ◌==◌,
  nat_eq, int_eq, text_eq, eq_true, eq_symm,
}
use fast_graph.Prelude.Dict.{find-erase}
use fast_graph.Index.SkipList.{
  ScoreOps, SkipNode, SkipList, max_level, node_at, unlink, lower, take_out,
}
use fast_graph.Index.SkipList.Chain.{
  keep-in, keep-out, all, all-append, mem, mem-ne, mem-keep, all-mem, distinct, keep, keep-append,
  last, Chain, Chain-last, Chain-congr, Chain-cut,
}
use fast_graph.Index.SkipList.Descent.{tall, nx, updates, get_or-updates}
use fast_graph.Index.SkipList.Writes.{Rewired}
use fast_graph.Index.SkipList.Linking.{Writable, Ahead, Unlinked, unlink_lem}
use fast_graph.Index.SkipList.Sorted.{sorted, members_once, lookup, drop_member, others}
use fast_graph.Index.SkipList.Valid.{
  IsSkipList, pair_at, pairs, pairs-append, all_parts, all_weaken, head_of, Chain-head,
}
use fast_graph.Index.SkipList.Lookup.{
  all_of, distinct_cut, distinct_middle, sorted-select, members_once-select, lookup-drop_member,
  drop_middle,
}
use fast_graph.Index.SkipList.Levels.{
  lower_lem, keep-Rewired, pairs-Rewired, level_lem, update-Writable,
}

module _ {Dbl : Type 0} (o : ScoreOps Dbl) where
  module _ (s : SkipList Dbl) (xs : List ℕ) (v : IsSkipList o s xs) (front : List ℕ) (t : ℕ)
      (back : List ℕ) (e : xs ≡ front ++ t ∷ back) where
    abbrev lvl : ℕ
    lvl = (node_at o s.nodes t).level

    abbrev update : List ℕ
    update = updates o s.nodes front s.level

    abbrev nodes' : List (SkipNode Dbl)
    nodes' = unlink o s.level 0 update t s.nodes

    t_level : lvl ≤ s.level
    t_level =
        let (_, b) =
          all_parts o (λ p. leb (node_at o s.nodes p).level s.level) xs front (t ∷ back) e
            v.highest in
        ground (arith, b)

    middle : (mem t front ≡ false) × (mem t back ≡ false)
    middle =
        let a = v.apart in
        distinct_middle front back t (subst (λ l. distinct l ≡ true) e (ground (arith, a)))

    front-Ahead : (j : ℕ) → j < s.level → Ahead o s.nodes update t lvl j
    front-Ahead j h =
        let u = get_or-updates o s.nodes front s.level j h in
        let high = v.high in
        let (chain, _) = level_lem o s xs v j front (t ∷ back) e (omega arith) in
        let behind =
          Chain-last (nx o s.nodes j) 0 (keep (tall o s.nodes j) front)
            (keep (tall o s.nodes j) (t ∷ back)) chain in
        let next =
          ap (nx o s.nodes j) u
          ∙ Chain-head o (nx o s.nodes j) (last 0 (keep (tall o s.nodes j) front))
              (keep (tall o s.nodes j) (t ∷ back)) behind in
        record {
          writable =
              subst (Writable o s.nodes j) (sym u)
                (update-Writable o s xs v j front (t ∷ back) e (omega arith));
          points = λ g.
              let f : tall o s.nodes j t ≡ true = ground arith in
              next ∙ ap (head_of o) (keep-in (tall o s.nodes j) t back f);
          passes = λ g q at.
              let f : tall o s.nodes j t ≡ false = ground arith in
              let m =
                head-mem (keep (tall o s.nodes j) back) q
                  (ap (head_of o) (sym (keep-out (tall o s.nodes j) t back f)) ∙ sym next ∙ at) in
              let m' = mem-keep q (tall o s.nodes j) back m in
              let (_, b) = middle in eq_symm q t ∙ mem-ne q t back m' b;
        }
      where
        head-mem : (l : List ℕ) (q : ℕ) → head_of o l ≡ some q → mem q l ≡ true
        head-mem [] q h = cc
        head-mem (x ∷ l) q h = ground (arith, h)

    taken : Rewired o s.nodes nodes' × Unlinked o s.nodes nodes' update t lvl 0 (0 + s.level)
    taken = unlink_lem o s.level 0 update t lvl s.nodes (λ j h _. front-Ahead j (omega arith))

    cut-Chain :
        (i : ℕ) → i < max_level → Chain (nx o nodes' i) 0 (keep (tall o nodes' i) (front ++ back))
    cut-Chain i h =
        let (r, at) = taken in
        let (chain, apart) = level_lem o s xs v i front (t ∷ back) e h in
        let high = t_level in
        let test = tall o s.nodes i in
        let parts =
          keep-Rewired o s.nodes nodes' i (front ++ back) r ∙ keep-append test front back in
        subst (Chain (nx o nodes' i) 0) (sym parts) (elim (Bool-cases (test t)) [
          | inl f ↦
              let k = keep-in test t back f in
              let u = get_or-updates o s.nodes front s.level i (ground arith) in
              Chain-cut (nx o s.nodes i) (nx o nodes' i) 0 t (keep test front) (keep test back)
                (subst (λ l. Chain (nx o s.nodes i) 0 (keep test front ++ l)) k chain)
                (subst (λ l. distinct (0 ∷ keep test front ++ l) ≡ true) k apart)
                (ground (arith, at i (last 0 (keep test front)), u, f))
                (λ p other. ground (arith, at i p, u, other))
          | inr f ↦
              let k = keep-out test t back f in
              Chain-congr (nx o s.nodes i) (nx o nodes' i) 0 (keep test front ++ keep test back)
                (subst (λ l. Chain (nx o s.nodes i) 0 (keep test front ++ l)) k chain)
                (λ p m. ground (arith, at i p, f))
        ])

    -- The pairs that are left.
    pub left :
        pairs o nodes' (front ++ back)
        ≡ drop_member o (node_at o s.nodes t).member (pairs o s.nodes xs)
    left =
        let (r, _) = taken in
        let whole = ap (pairs o s.nodes) e ∙ pairs-append o s.nodes front (t ∷ back) in
        pairs-Rewired o s.nodes nodes' (front ++ back) r
        ∙ pairs-append o s.nodes front back
        ∙ sym (
            drop_middle o (pairs o s.nodes front) (pairs o s.nodes back) (pair_at o s.nodes t)
              (subst (λ l. members_once o l ≡ true) whole v.once))
        ∙ ap (drop_member o (node_at o s.nodes t).member) (sym whole)

    parts_left : (test : ℕ → Bool) → all test xs ≡ true → all test (front ++ back) ≡ true
    parts_left test h =
        let (a, b) = all_parts o test xs front (t ∷ back) e h in
        ground (arith, all-append test front back, a, b)

    highest_left :
        all (λ p. leb (node_at o nodes' p).level (lower o nodes' s.level)) (front ++ back) ≡ true
    highest_left =
        let (r, _) = taken in
        let (lo, hi, free) = lower_lem o nodes' s.level v.low in
        all_of (λ p. leb (node_at o nodes' p).level (lower o nodes' s.level)) (front ++ back)
          (λ p m. elim (Bool-cases (leb (node_at o nodes' p).level (lower o nodes' s.level))) [
            | inl fits ↦ fits
            | inr above ↦
                let i = (node_at o nodes' p).level - 1 in
                let old =
                  all-mem (λ x. leb (node_at o s.nodes x).level s.level) (front ++ back) p
                    (parts_left (λ x. leb (node_at o s.nodes x).level s.level) v.highest) m in
                let same = r.levels p in
                let top = v.high in
                let none_there =
                  free i (ground (arith, above)) (ground (arith, above, old, same)) in
                let on : tall o nodes' i p ≡ true = ground (arith, above) in
                absurd (
                  nowhere (nx o nodes' i) (tall o nodes' i) p (front ++ back) m on
                    (cut-Chain i (ground (arith, above, old, same))) none_there)
          ])
      where
        nowhere :
            (nx' : ℕ → Option ℕ) (test : ℕ → Bool) (p : ℕ) (l : List ℕ)
            → mem p l ≡ true
            → test p ≡ true
            → Chain nx' 0 (keep test l)
            → nx' 0 ≡ none
            → ⊥
        nowhere nx' test p [] m on c n = cc
        nowhere nx' test p (x ∷ l) m on c n = elim (Bool-cases (test x)) [
          | inl f ↦
              let (first, _) = subst (Chain nx' 0) (keep-in test x l f) c in
              ground (arith, first, n)
          | inr f ↦ elim (Bool-cases (x == p)) [
            | inl same ↦ ground (arith, ap test (eq_true x p same), f, on)
            | inr other ↦
                nowhere nx' test p l (ground (arith, m, other)) on
                  (subst (Chain nx' 0) (keep-out test x l f) c) n
          ]
        ]

    -- Without the node the skip list is valid, and its pairs are the others.
    pub take_out-IsSkipList : IsSkipList o (take_out o s update t) (front ++ back)
    unfolding take_out
    take_out-IsSkipList =
        let (r, _) = taken in
        let (lo, hi, _) = lower_lem o nodes' s.level v.low in
        let n = length-append front back in
        let n' = length-append front (t ∷ back) in
        let n'' = ap length e in
        let room = v.room in
        let count = r.count in
        record {
          room = omega arith;
          head_level = r.levels 0 ∙ v.head_level;
          widths = λ p. r.widths p ∙ v.widths p ∙ sym (r.levels p);
          chains = cut-Chain;
          inside = rw count (parts_left (λ p. ltb p (length s.nodes)) v.inside);
          apart = distinct_cut (0 ∷ front) back t (subst (λ l. distinct (0 ∷ l) ≡ true) e v.apart);
          low = lo;
          high = let h = v.high in omega arith;
          lowest =
              all_weaken o (tall o s.nodes 0) (tall o nodes' 0) (front ++ back)
                (λ p h. ap (ltb 0) (r.levels p) ∙ h) (parts_left (tall o s.nodes 0) v.lowest);
          highest = highest_left;
          ordered =
              subst (λ l. sorted o l ≡ true) (sym left)
                (sorted-select o (others o (node_at o s.nodes t).member) (pairs o s.nodes xs)
                  v.ordered);
          once =
              subst (λ l. members_once o l ≡ true) (sym left)
                (members_once-select o (others o (node_at o s.nodes t).member) (pairs o s.nodes xs)
                  v.once);
          scores = λ m.
              find-erase (node_at o s.nodes t).member m s.member_scores
              ∙ ap (λ x. if (node_at o s.nodes t).member == m then none else x) (v.scores m)
              ∙ sym (lookup-drop_member o (node_at o s.nodes t).member m (pairs o s.nodes xs))
              ∙ ap (lookup o m) (sym left);
          counted = let c = v.counted in omega arith;
        }
