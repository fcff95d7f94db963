-- ===== src/Index/SkipList/Insertion.antt =====
-- A node put into a valid skip list of src/index/skiplist.cpp.
use fast_graph.Prelude.{
  ℕ, ◌+◌, ◌-◌, ◌≤◌, ◌<◌, max, ◌≡◌, refl, sym, ap, subst, ◌∙◌, inl, inr, Bool, true, false, not,
  Option, none, some, List, [], ◌∷◌, ◌++◌, arith, ltb, leb, if◌then◌else◌, Bool-cases, length,
  get_or, replicate, length-append, ◌==◌, nat_eq, int_eq, text_eq, Text, eq_refl, eq_true, eq_symm,
}
use fast_graph.Prelude.{length-replicate, get_or-replicate, get_or-append}
use fast_graph.Prelude.Dict.{find-put}
use fast_graph.Index.SkipList.{ScoreOps, SkipNode, SkipList, max_level, node_at, make, link, put_in}
use fast_graph.Index.SkipList.Chain.{
  keep-in, keep-out, all, all-append, all-mem, mem, mem-append, mem-keep, distinct, keep,
  keep-append, last, last-mem, Chain, Chain-congr, Chain-splice,
}
use fast_graph.Index.SkipList.Descent.{tall, nx, updates, length-updates, get_or-updates}
use fast_graph.Index.SkipList.Writes.{Rewired}
use fast_graph.Index.SkipList.Linking.{Writable, Linked, link_lem}
use fast_graph.Index.SkipList.Order.{ScoreLaws, before}
use fast_graph.Index.SkipList.Sorted.{
  sorted, members_once, lookup, others, insert_pair, insert_pair_split,
}
use fast_graph.Index.SkipList.Valid.{
  IsSkipList, Split, pair_at, pairs, all-pairs, pairs-append, all_parts, all_weaken, keep_none,
}
use fast_graph.Index.SkipList.Lookup.{all_of, lookup-none}
use fast_graph.Index.SkipList.Levels.{keep-Rewired, pairs-Rewired, level_lem, update-Writable}
use fast_graph.Index.SkipList.Placed.{
  distinct_put, keep_same, get_or-append_low, get_or-append_high, pairs_same, members_once_put,
  lookup_put, sorted_put, all_behind,
}

module _ {Dbl : Type 0} (o : ScoreOps Dbl) (laws : ScoreLaws o) (s : SkipList Dbl) (xs : List ℕ)
    (v : IsSkipList o s xs) (score : Dbl) (member : Text) (front back : List ℕ)
    (split : Split o s.nodes (λ x. before o x (score, member)) xs front back) (lvl : ℕ)
    (lvl_low : 1 ≤ lvl) (lvl_high : lvl ≤ max_level) where
  abbrev n : ℕ
  n = length s.nodes

  abbrev nodes₁ : List (SkipNode Dbl)
  nodes₁ = s.nodes ++ make o lvl score member ∷ []

  abbrev update : List ℕ
  update = updates o s.nodes front s.level ++ replicate (lvl - s.level) 0

  abbrev nodes₂ : List (SkipNode Dbl)
  nodes₂ = link o lvl 0 update n nodes₁

  node_at-old : (p : ℕ) → p < n → node_at o nodes₁ p ≡ node_at o s.nodes p
  node_at-old p h = get_or-append_low s.nodes (make o lvl score member ∷ []) p _ h

  node_at-new : node_at o nodes₁ n ≡ make o lvl score member
  node_at-new = get_or-append s.nodes (make o lvl score member) n _ ∙ rw (eq_refl n) refl

  count₁ : length nodes₁ ≡ n + 1
  count₁ = length-append s.nodes (make o lvl score member ∷ [])

  in_store : (p : ℕ) → mem p xs ≡ true → p < n
  in_store p m = let e = all-mem (λ x. ltb x n) xs p v.inside m in ground (arith, e)

  new-mem : mem n xs ≡ false
  new-mem = elim (Bool-cases (mem n xs)) [
    | inl m ↦ absurd (let h = in_store n m in omega arith)
    | inr m ↦ m
  ]

  -- The array of `insert`, with the head on the levels that are new.
  update_at : (j : ℕ) → j < lvl → get_or update j 0 ≡ last 0 (keep (tall o s.nodes j) front)
  update_at j h =
      let k = length-updates o s.nodes front s.level in
      elim (Bool-cases (ltb j s.level)) [
        | inl low ↦
            get_or-append_low (updates o s.nodes front s.level) (replicate (lvl - s.level) 0) j 0
              (ground (arith, k, low))
            ∙ get_or-updates o s.nodes front s.level j (ground arith)
        | inr high ↦
            let (fits, _) =
              all_parts o (λ p. leb (node_at o s.nodes p).level s.level) xs front back split.whole
                v.highest in
            let none_there = keep_none o (tall o s.nodes j) front (
              all_weaken o (λ p. leb (node_at o s.nodes p).level s.level)
                (λ p. not (tall o s.nodes j p)) front (λ p q. ground (arith, q, high)) fits) in
            get_or-append_high (updates o s.nodes front s.level) (replicate (lvl - s.level) 0) j 0
              (ground (arith, k, high))
            ∙ get_or-replicate (lvl - s.level) (j - length (updates o s.nodes front s.level)) 0
            ∙ sym (ap (last 0) none_there)
      ]

  linked : Rewired o nodes₁ nodes₂ × Linked o nodes₁ nodes₂ update n 0 (0 + lvl)
  unfolding make
  linked =
      link_lem o lvl 0 update n nodes₁
        (λ j h. record {
          inside = let c = count₁ in omega arith;
          wide = rw node_at-new (let c = length-replicate {A = Option ℕ} lvl none in omega arith);
        })
        (λ j h. subst (Writable o nodes₁ j) (sym (update_at j (omega arith))) (
          let w = update-Writable o s xs v j front back split.whole (omega arith) in
          let i = w.inside in
          record {
            inside = let c = count₁ in omega arith;
            wide = rw (node_at-old (last 0 (keep (tall o s.nodes j) front)) i) (w.wide);
          }))

  old-ne : (p : ℕ) → mem p (0 ∷ xs) ≡ true → (n == p) ≡ false
  old-ne p m = elim (Bool-cases (0 == p)) [
    | inl e ↦ let r = v.room in ground arith
    | inr e ↦ let h = in_store p (ground (arith, m, e)) in ground arith
  ]

  old-lt : (p : ℕ) → mem p (0 ∷ xs) ≡ true → p < n
  old-lt p m = elim (Bool-cases (0 == p)) [
    | inl e ↦ let r = v.room in ground (arith, e)
    | inr e ↦ in_store p (ground (arith, m, e))
  ]

  keep₁ :
      (i : ℕ) (ys : List ℕ)
      → ((p : ℕ) → mem p ys ≡ true → mem p xs ≡ true)
      → keep (tall o nodes₁ i) ys ≡ keep (tall o s.nodes i) ys
  keep₁ i ys sub =
      keep_same (tall o nodes₁ i) (tall o s.nodes i) ys
        (λ p m. ap (λ x. ltb i x.level) (node_at-old p (in_store p (sub p m))))

  front_in : (p : ℕ) → mem p front ≡ true → mem p xs ≡ true
  front_in p m = ap (mem p) split.whole ∙ mem-append p front back ∙ rw m refl

  back_in : (p : ℕ) → mem p back ≡ true → mem p xs ≡ true
  back_in p m = ap (mem p) split.whole ∙ mem-append p front back ∙ ground (arith, m)

  put-Chain :
      (i : ℕ) → i < max_level → Chain (nx o nodes₂ i) 0 (keep (tall o nodes₂ i) (front ++ n ∷ back))
  unfolding make
  put-Chain i h =
      let (r, at) = linked in
      let (chain, apart) = level_lem o s xs v i front back split.whole h in
      let test = tall o s.nodes i in
      let low = keep test front in
      let high = keep test back in
      let old : Chain (nx o nodes₁ i) 0 (low ++ high) =
        Chain-congr (nx o s.nodes i) (nx o nodes₁ i) 0 (low ++ high) chain
          (λ p m. ap (λ x. get_or x.forward i none) (node_at-old p (old-lt p (level_in i p m)))) in
      let parts =
        keep-Rewired o nodes₁ nodes₂ i (front ++ n ∷ back) r
        ∙ keep-append (tall o nodes₁ i) front (n ∷ back)
        ∙ ap (λ l. l ++ keep (tall o nodes₁ i) (n ∷ back)) (keep₁ i front front_in) in
      let new_level : tall o nodes₁ i n ≡ ltb i lvl = ap (λ x. ltb i x.level) node_at-new in
      subst (Chain (nx o nodes₂ i) 0) (sym parts) (elim (Bool-cases (ltb i lvl)) [
        | inl f ↦
            let k =
              keep-in (tall o nodes₁ i) n back (new_level ∙ f)
              ∙ ap (λ l. n ∷ l) (keep₁ i back back_in) in
            let u = update_at i (ground arith) in
            let there = last-mem 0 low in
            let apart_n =
              old-ne (last 0 low) (
                level_in i (last 0 low)
                  (ground (arith, mem-append (last 0 low) low high, there))) in
            subst (λ l. Chain (nx o nodes₂ i) 0 (low ++ l)) (sym k)
              (Chain-splice (nx o nodes₁ i) (nx o nodes₂ i) 0 n low high old apart (new_mem i)
                (ground (arith, at i (last 0 low), u, f))
                (ground (arith, at i n, u, f, apart_n, eq_symm n (last 0 low), eq_refl n))
                (λ p a b. ground (arith, at i p, u, a, b)))
        | inr f ↦
            let k = keep-out (tall o nodes₁ i) n back (new_level ∙ f) ∙ keep₁ i back back_in in
            subst (λ l. Chain (nx o nodes₂ i) 0 (low ++ l)) (sym k)
              (Chain-congr (nx o nodes₁ i) (nx o nodes₂ i) 0 (low ++ high) old
                (λ p m. ground (arith, at i p, f)))
      ])
    where
      level_in :
          (i p : ℕ)
          → mem p (0 ∷ keep (tall o s.nodes i) front ++ keep (tall o s.nodes i) back) ≡ true
          → mem p (0 ∷ xs) ≡ true
      level_in i p m =
          let e = keep-append (tall o s.nodes i) front back in
          let m' : mem p (0 ∷ keep (tall o s.nodes i) (front ++ back)) ≡ true =
            ap (λ l. mem p (0 ∷ l)) e ∙ m in
          elim (Bool-cases (0 == p)) [
            | inl z ↦ rw z refl
            | inr nz ↦ rw nz (
                ap (mem p) split.whole
                ∙ mem-keep p (tall o s.nodes i) (front ++ back) (ground (arith, m', nz)))
          ]

      new_mem :
          (i : ℕ)
          → mem n (0 ∷ keep (tall o s.nodes i) front ++ keep (tall o s.nodes i) back) ≡ false
      new_mem i =
          elim (Bool-cases
            (mem n (0 ∷ keep (tall o s.nodes i) front ++ keep (tall o s.nodes i) back))) [
              | inl m ↦ absurd (let q = old-ne n (level_in i n m) in ground (arith, q, eq_refl n))
              | inr m ↦ m
            ]

  abbrev q : Dbl × Text
  q = (score, member)

  -- The pairs of the old nodes, and the new one among them.
  pub placed :
      pairs o nodes₂ (front ++ n ∷ back) ≡ pairs o s.nodes front ++ q ∷ pairs o s.nodes back
  unfolding make
  placed =
      let (r, _) = linked in
      let olds = λ (ys : List ℕ) (sub : (p : ℕ) → mem p ys ≡ true → mem p xs ≡ true).
        pairs_same o nodes₁ s.nodes ys (λ p m. node_at-old p (in_store p (sub p m))) in
      let at : pair_at o nodes₁ n ≡ q = ap (λ x. (x.score, x.member)) node_at-new in
      pairs-Rewired o nodes₁ nodes₂ (front ++ n ∷ back) r
      ∙ pairs-append o nodes₁ front (n ∷ back)
      ∙ ap (λ l. l ++ pairs o nodes₁ (n ∷ back)) (olds front front_in)
      ∙ ap (λ x. pairs o s.nodes front ++ x ∷ pairs o nodes₁ back) at
      ∙ ap (λ l. pairs o s.nodes front ++ q ∷ l) (olds back back_in)

  old_pairs : pairs o s.nodes xs ≡ pairs o s.nodes front ++ pairs o s.nodes back
  old_pairs = ap (pairs o s.nodes) split.whole ∙ pairs-append o s.nodes front back

  pub placed-insert_pair : pairs o nodes₂ (front ++ n ∷ back) ≡ insert_pair o q (pairs o s.nodes xs)
  placed-insert_pair =
      placed
      ∙ sym (
          insert_pair_split o q (pairs o s.nodes front) (pairs o s.nodes back)
            (all-pairs o s.nodes (λ x. before o x q) front ∙ split.passing)
            (all-pairs o s.nodes (λ x. not (before o x q)) back ∙ split.failing))
      ∙ ap (insert_pair o q) (sym old_pairs)

  -- A test that all nodes pass, the new one and the old ones.
  put_all :
      (test : ℕ → Bool)
      → test n ≡ true
      → ((p : ℕ) → mem p xs ≡ true → test p ≡ true)
      → all test (front ++ n ∷ back) ≡ true
  put_all test e f =
      let a = all_of test front (λ p m. f p (front_in p m)) in
      let b = all_of test back (λ p m. f p (back_in p m)) in
      ground (arith, all-append test front (n ∷ back), a, b, e)

  level_new : (node_at o nodes₂ n).level ≡ lvl
  unfolding make
  level_new = let (r, _) = linked in r.levels n ∙ ap (λ x. x.level) node_at-new

  level_old : (p : ℕ) → p < n → (node_at o nodes₂ p).level ≡ (node_at o s.nodes p).level
  level_old p h = let (r, _) = linked in r.levels p ∙ ap (λ x. x.level) (node_at-old p h)

  widths₁ : (p : ℕ) → length (node_at o nodes₁ p).forward ≡ (node_at o nodes₁ p).level
  unfolding make
  widths₁ p = elim (Bool-cases (n == p)) [
    | inl e ↦
        subst (λ x. length (node_at o nodes₁ x).forward ≡ (node_at o nodes₁ x).level)
          (eq_true n p e) (rw node_at-new (length-replicate {A = Option ℕ} lvl none))
    | inr e ↦
        let f = get_or-append s.nodes (make o lvl score member) p _ in
        let g : node_at o nodes₁ p ≡ node_at o s.nodes p = f ∙ rw (eq_symm p n, e) refl in
        rw g (v.widths p)
  ]

  -- With a new member the skip list is valid.
  pub put_in-IsSkipList :
      lookup o member (pairs o s.nodes xs) ≡ none
      → IsSkipList o
          (put_in o s (updates o s.nodes front s.level) lvl score member)
          (front ++ n ∷ back)
  unfolding put_in
  put_in-IsSkipList new =
      let (r, _) = linked in
      let room = v.room in
      let count = r.count in
      let c = count₁ in
      let l = length-append front (n ∷ back) in
      let l' = length-append front back in
      let l'' = ap length split.whole in
      let absent =
        subst (λ x. all (others o member) x ≡ true) old_pairs
          (lookup-none o member (pairs o s.nodes xs) new) in
      let parts = all-append (others o member) (pairs o s.nodes front) (pairs o s.nodes back) in
      let absent_front : all (others o member) (pairs o s.nodes front) ≡ true =
        ground (arith, parts, absent) in
      let absent_back : all (others o member) (pairs o s.nodes back) ≡ true =
        ground (arith, parts, absent) in
      record {
        room = omega arith;
        head_level = level_old 0 (omega arith) ∙ v.head_level;
        widths = λ p. r.widths p ∙ widths₁ p ∙ sym (r.levels p);
        chains = put-Chain;
        inside =
            put_all (λ p. ltb p (length nodes₂)) (ground arith)
              (λ p m. let h = in_store p m in ground arith);
        apart =
            distinct_put (0 ∷ front) back n
              (subst (λ y. distinct (0 ∷ y) ≡ true) split.whole v.apart)
              (subst (λ y. mem n (0 ∷ y) ≡ false) split.whole (ground (arith, new-mem)));
        low = let h = v.low in omega arith;
        high = let h = v.high in omega arith;
        lowest =
            put_all (tall o nodes₂ 0) (rw level_new (ground arith))
              (λ p m. rw (level_old p (in_store p m)) (all-mem (tall o s.nodes 0) xs p v.lowest m));
        highest =
            put_all (λ p. leb (node_at o nodes₂ p).level (max s.level lvl))
              (rw level_new (ground arith))
              (λ p m. rw (level_old p (in_store p m)) (
                let h = all-mem (λ x. leb (node_at o s.nodes x).level s.level) xs p v.highest m in
                ground (arith, h)));
        ordered =
            subst (λ y. sorted o y ≡ true) (sym placed)
              (sorted_put o (pairs o s.nodes front) (pairs o s.nodes back) q
                (subst (λ y. sorted o y ≡ true) old_pairs v.ordered)
                (all-pairs o s.nodes (λ x. before o x q) front ∙ split.passing)
                (all_behind o laws (pairs o s.nodes back) q
                  (all-pairs o s.nodes (λ x. not (before o x q)) back ∙ split.failing)
                  absent_back));
        once =
            subst (λ y. members_once o y ≡ true) (sym placed)
              (members_once_put o (pairs o s.nodes front) (pairs o s.nodes back) q
                (subst (λ y. members_once o y ≡ true) old_pairs v.once) absent_front absent_back);
        scores = λ m.
            find-put member m score s.member_scores
            ∙ ap (λ x. if member == m then some score else x)
                (v.scores m ∙ ap (lookup o m) old_pairs)
            ∙ sym (lookup_put o (pairs o s.nodes front) (pairs o s.nodes back) q m absent_front)
            ∙ ap (lookup o m) (sym placed);
        counted = let k = v.counted in omega arith;
      }
