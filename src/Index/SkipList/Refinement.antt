-- ===== src/Index/SkipList/Refinement.antt =====
-- `SkipList` of src/index/skiplist.cpp implements a sorted list of pairs.
use fast_graph.Prelude.{
  ℕ, zero, suc, ◌≡◌, refl, sym, ap, subst, ◌∙◌, ◌≢◌, ◌⊎◌, inl, inr, Bool, true, false, not, Option,
  none, some, List, [], ◌∷◌, ◌++◌, arith, Bool-cases, Option-cases, length, nat_eq, int_eq, text_eq,
  Text, eq_refl,
}
use fast_graph.Prelude.Dict.{find}
use fast_graph.Prelude.{get_or-replicate}
use fast_graph.Index.SkipList.{
  ScoreOps, SkipList, SkipNode, make, node_at, new, remove, insert, pair_there, score_of,
  random_level, put_in, range_by_score,
}
use fast_graph.Index.SkipList.Descent.{updates}
use fast_graph.Index.SkipList.Order.{ScoreLaws, before}
use fast_graph.Index.SkipList.Sorted.{
  members_once, lookup, others, drop_member, insert_pair, select, select-all, insert_pair_split,
  before-IsDown,
}
use fast_graph.Index.SkipList.Valid.{
  IsSkipList, Split, pair_at, pairs, pairs-append, all-pairs, split_lem, search_lem,
}
use fast_graph.Index.SkipList.Ranges.{range_by_score_lem, in_range}
use fast_graph.Index.SkipList.Lookup.{
  lookup-none, lookup-drop_member, lookup_split, middle-Split, drop_middle,
}
use fast_graph.Index.SkipList.Steps.{
  random_level_lem, insert_there, insert_absent, without_old-none, without_old-some,
  pair_there-false,
}
use fast_graph.Index.SkipList.Methods.{Represents, remove_there, remove_missing, put_new}

module _ {Dbl : Type 0} (o : ScoreOps Dbl) (laws : ScoreLaws o) where
  module _ (s : SkipList Dbl) (xs : List ℕ) (v : IsSkipList o s xs) (draw : ℕ → Bool) (score : Dbl)
      (member : Text) where
    abbrev ps : List (Dbl × Text)
    ps = pairs o s.nodes xs

    abbrev Inserted : Type 0
    Inserted =
        (s' : SkipList Dbl) × (insert o s draw score member ≡ some s')
        × Represents o s' (insert_pair o (score, member) (drop_member o member ps))

    scored : score_of o s member ≡ lookup o member ps
    unfolding score_of
    scored = v.scores member

    insert_new : lookup o member ps ≡ none → Inserted
    insert_new e =
        let (front, back, p) =
          split_lem o s.nodes (λ x. before o x (score, member)) xs
            (before-IsDown o laws (score, member)) v.ordered in
        let (ends, stop) = search_lem o s xs v (λ x. before o x (score, member)) front back p in
        let u = updates o s.nodes front s.level in
        let (lo, hi) = random_level_lem draw in
        let s' = put_in o s u (random_level draw) score member in
        let all_others = select-all o (others o member) ps (lookup-none o member ps e) in
        (
          s',
          insert_absent o s score member u ends draw s u
              (pair_there-false o laws s xs score member u front back v p.whole stop
                (λ h. ground (arith, e, h)))
              (without_old-none o s score member u (scored ∙ e)),
          subst (λ l. Represents o s' (insert_pair o (score, member) l)) (sym all_others)
              (put_new o laws s xs v score member (random_level draw) front back p lo hi e),
        )

    insert_same : lookup o member ps ≡ some score → Inserted
    insert_same e =
        let (front, t, back, whole, at) = lookup_split o s.nodes member score xs e in
        let p = middle-Split o laws s.nodes (score, member) xs front t back whole at v.ordered in
        let (ends, stop) =
          search_lem o s xs v (λ x. before o x (score, member)) front (t ∷ back) p in
        let u = updates o s.nodes front s.level in
        let m = (text_eq.beq_iff (node_at o s.nodes t).member member).1 (ap (λ x. x.1) at) in
        let c = (laws.equal_iff (node_at o s.nodes t).score score).1 (ap (λ x. x.0) at) in
        let there : pair_there o s u score member ≡ true =
          rw (stop, pair_there) (ground (arith, m, c)) in
        (
          s,
          insert_there o s score member u ends draw there,
          record { order = xs; valid = v; same = sym (put_back front t back whole at p) },
        )
      where
        put_back :
            (front : List ℕ) (t : ℕ) (back : List ℕ)
            → xs ≡ front ++ t ∷ back
            → pair_at o s.nodes t ≡ (score, member)
            → Split o s.nodes (λ x. before o x (score, member)) xs front (t ∷ back)
            → insert_pair o (score, member) (drop_member o member ps) ≡ ps
        put_back front t back whole at p =
            let parts = ap (pairs o s.nodes) whole ∙ pairs-append o s.nodes front (t ∷ back) in
            let l = pairs o s.nodes front in
            let r = pairs o s.nodes back in
            let f = p.failing in
            ap (λ x. insert_pair o (score, member) (drop_member o x ps)) (sym (ap (λ x. x.1) at))
            ∙ ap (λ k. insert_pair o (score, member) (drop_member o (node_at o s.nodes t).member k))
                parts
            ∙ ap (insert_pair o (score, member)) (
                drop_middle o l r (pair_at o s.nodes t)
                  (subst (λ k. members_once o k ≡ true) parts v.once))
            ∙ insert_pair_split o (score, member) l r
                (all-pairs o s.nodes (λ x. before o x (score, member)) front ∙ p.passing)
                (all-pairs o s.nodes (λ x. not (before o x (score, member))) back
                  ∙ ground (arith, f))
            ∙ ap (λ x. l ++ x ∷ r) (sym at)
            ∙ sym parts

    insert_moved :
        (old : Dbl) → lookup o member ps ≡ some old → o.equal old score ≡ false → Inserted
    insert_moved old e apart =
        let (s', xs', gone, v', same) = remove_there o laws s xs v old member e in
        let (front, back, p) =
          split_lem o s.nodes (λ x. before o x (score, member)) xs
            (before-IsDown o laws (score, member)) v.ordered in
        let (ends, stop) = search_lem o s xs v (λ x. before o x (score, member)) front back p in
        let u = updates o s.nodes front s.level in
        let (front', back', p') =
          split_lem o s'.nodes (λ x. before o x (score, member)) xs'
            (before-IsDown o laws (score, member)) v'.ordered in
        let (ends', _) = search_lem o s' xs' v' (λ x. before o x (score, member)) front' back' p' in
        let u' = updates o s'.nodes front' s'.level in
        let (lo, hi) = random_level_lem draw in
        let s'' = put_in o s' u' (random_level draw) score member in
        let now_new : lookup o member (pairs o s'.nodes xs') ≡ none =
          ap (lookup o member) same
          ∙ lookup-drop_member o member member ps
          ∙ rw (eq_refl member) refl in
        (
          s'',
          insert_absent o s score member u ends draw s' u'
              (pair_there-false o laws s xs score member u front back v p.whole stop (λ h.
                let c = (laws.equal_iff old score).1 (some_inj old score (sym e ∙ h)) in
                ground (arith, c, apart)))
              (without_old-some o s score member u old s' u' (scored ∙ e) apart gone ends'),
          subst (λ l. Represents o s'' (insert_pair o (score, member) l)) same
              (put_new o laws s' xs' v' score member (random_level draw) front' back' p' lo hi
                now_new),
        )
      where
        some_inj : (a b : Dbl) → Option.some a ≡ some b → a ≡ b
        some_inj a b h = ground (arith, h)

    insert_cases : Inserted
    insert_cases = elim (Option-cases (lookup o member ps)) [
      | inl e ↦ insert_new e
      | inr (old, e) ↦ elim (Bool-cases (o.equal old score)) [
        | inl c ↦ insert_same (e ∙ ap some ((laws.equal_iff old score).0 c))
        | inr c ↦ insert_moved old e c
      ]
    ]

  -- With scores in a total order, `insert` on a valid skip list ends, whatever the random level; the pair stands at its place in the
  -- order, and the member, if it was there with another score, no longer has that.
  pub insert_lem :
      (s : SkipList Dbl) (l : List (Dbl × Text)) (draw : ℕ → Bool) (score : Dbl) (member : Text)
      → Represents o s l
      → (s' : SkipList Dbl) × (insert o s draw score member ≡ some s')
        × Represents o s' (insert_pair o (score, member) (drop_member o member l))
  insert_lem s l draw score member r =
      subst
        (λ k.
          (s' : SkipList Dbl) × (insert o s draw score member ≡ some s')
          × Represents o s' (insert_pair o (score, member) (drop_member o member k)))
        r.same (insert_cases s r.order r.valid draw score member)

  -- With scores in a total order, `remove` on a valid skip list ends. If the member has the score, it answers `true` and the member
  -- is out; otherwise it answers `false` and changes nothing.
  pub remove_lem :
      (s : SkipList Dbl) (l : List (Dbl × Text)) (score : Dbl) (member : Text)
      → Represents o s l
      → ((lookup o member l ≡ some score)
          × ((s' : SkipList Dbl) × (remove o s score member ≡ some (true, s'))
              × Represents o s' (drop_member o member l)))
        ⊎ ((lookup o member l ≢ some score) × (remove o s score member ≡ some (false, s)))
  remove_lem s l score member r =
      let same = ap (lookup o member) r.same in
      let there : lookup o member l ≡ some score
          → (s' : SkipList Dbl) × (remove o s score member ≡ some (true, s'))
            × Represents o s' (drop_member o member l) =
        λ e.
          let (s', xs', ends, v', left_pairs) =
            remove_there o laws s r.order r.valid score member (same ∙ e) in
          (
            s',
            ends,
            record {
              order = xs';
              valid = v';
              same = left_pairs ∙ ap (drop_member o member) r.same;
            },
          ) in
      let missing : lookup o member l ≢ some score → remove o s score member ≡ some (false, s) =
        λ other. remove_missing o laws s r.order r.valid score member (λ e. other (sym same ∙ e)) in
      elim (Option-cases (lookup o member l)) [
        | inl e ↦ inr (λ h. ground (arith, e, h), missing (λ h. ground (arith, e, h)))
        | inr (old, e) ↦ elim (Bool-cases (o.equal old score)) [
          | inl c ↦ let f = e ∙ ap some ((laws.equal_iff old score).0 c) in inl (f, there f)
          | inr c ↦
              let other : lookup o member l ≢ some score = λ h.
                let q : old ≡ score = ground (arith, e, h) in
                let c' = (laws.equal_iff old score).1 q in ground (arith, c, c') in
              inr (other, missing other)
        ]
      ]

  -- The queries on a valid skip list, with scores in a total order: `score_of` finds the score of a member, `size` counts the pairs,
  -- and `range_by_score` ends and returns the pairs in the range, in their order.
  pub queries_lem :
      (s : SkipList Dbl) (l : List (Dbl × Text))
      → Represents o s l
      → ((m : Text) → score_of o s m ≡ lookup o m l)
        × (s.size ≡ length l)
        × ((lo hi : Dbl) → range_by_score o s lo hi ≡ some (select o (in_range o laws lo hi) l))
  unfolding score_of
  queries_lem s l r = (
    λ m. r.valid.scores m ∙ ap (lookup o m) r.same,
    r.valid.counted ∙ sym (length-pairs s.nodes r.order) ∙ ap length r.same,
    λ lo hi.
        range_by_score_lem o laws s r.order lo hi r.valid
        ∙ ap (λ k. some (select o (in_range o laws lo hi) k)) r.same,
  )
    where
      length-pairs :
          (nodes : List (SkipNode Dbl)) (ys : List ℕ) → length (pairs o nodes ys) ≡ length ys
      length-pairs nodes [] = refl
      length-pairs nodes (y ∷ ys) = ap suc (length-pairs nodes ys)

module _ {Dbl : Type 0} (o : ScoreOps Dbl) where
  -- The new skip list is valid and holds no pair.
  pub new-Represents : Represents o (new o) []
  unfolding new make find
  new-Represents = record {
    order = [];
    valid = record {
      room = omega arith;
      head_level = refl;
      widths = λ p. new_widths p;
      chains = λ i h. get_or-replicate {A = Option ℕ} 16 i none;
      inside = refl;
      apart = refl;
      low = omega arith;
      high = omega arith;
      lowest = refl;
      highest = refl;
      ordered = refl;
      once = refl;
      scores = λ m. refl;
      counted = refl;
    };
    same = refl;
  }
    where
      new_widths :
          (p : ℕ) → length (node_at o (new o).nodes p).forward ≡ (node_at o (new o).nodes p).level
      new_widths zero = refl
      new_widths (suc p) = refl
