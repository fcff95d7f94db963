-- ===== src/Index/SkipList/Descent.antt =====
-- The search of src/index/skiplist.cpp, level by level.
use fast_graph.Prelude.{
  ℕ, zero, suc, ◌<◌, ◌≡◌, refl, sym, ap, subst, ◌∙◌, inl, inr, Bool, true, false, not, Option, some,
  List, [], ◌∷◌, ◌++◌, arith, ltb, Bool-cases, length, get_or, length-append, ◌==◌, nat_eq, int_eq,
  text_eq, eq_true, get_or-append,
}
use fast_graph.Index.SkipList.{ScoreOps, SkipNode, node_at, next_of, advance, descend}
use fast_graph.Index.SkipList.Chain.{all, keep, last, Chain, resume, all-keep, keep-append}

module _ {Dbl : Type 0} (o : ScoreOps Dbl) where
  -- Whether a node stands on a level.
  abbrev pub tall : List (SkipNode Dbl) → ℕ → ℕ → Bool
  tall nodes i p = ltb i (node_at o nodes p).level

  -- The pointers of a level.
  abbrev pub nx : List (SkipNode Dbl) → ℕ → ℕ → Option ℕ
  nx nodes i p = next_of o nodes p i

  -- The array `update`, where the nodes of `front` come before the target.
  abbrev pub updates : List (SkipNode Dbl) → List ℕ → ℕ → List ℕ
  updates nodes front zero = []
  updates nodes front (suc i) = updates nodes front i ++ last 0 (keep (tall nodes i) front) ∷ []

  pub length-updates :
      (nodes : List (SkipNode Dbl)) (front : List ℕ) (k : ℕ) → length (updates nodes front k) ≡ k
  length-updates nodes front zero = refl
  length-updates nodes front (suc i) =
      let e = length-append (updates nodes front i) (last 0 (keep (tall nodes i) front) ∷ []) in
      omega (arith, length-updates nodes front i)

  pub get_or-updates :
      (nodes : List (SkipNode Dbl)) (front : List ℕ) (k j : ℕ)
      → j < k
      → get_or (updates nodes front k) j 0 ≡ last 0 (keep (tall nodes j) front)
  get_or-updates nodes front zero j h = absurd (omega arith)
  get_or-updates nodes front (suc i) j h =
      let n = length-updates nodes front i in
      let x = last 0 (keep (tall nodes i) front) in
      get_or-append (updates nodes front i) x j 0
      ∙ rw n (elim (Bool-cases (j == i)) [
        | inl e ↦ rw e (ap (λ l. last 0 (keep (tall nodes l) front)) (sym (eq_true j i e)))
        | inr e ↦ rw e (get_or-updates nodes front i j (ground (arith, e, h)))
      ])

  module _ (nodes : List (SkipNode Dbl)) (test : SkipNode Dbl → Bool) where
    abbrev passes : ℕ → Bool
    passes p = test (node_at o nodes p)

    abbrev fails : ℕ → Bool
    fails p = not (test (node_at o nodes p))

    pub advance_lem :
        (fuel i cur : ℕ) (xs ys : List ℕ)
        → Chain (nx nodes i) cur (xs ++ ys)
        → all passes xs ≡ true
        → all fails ys ≡ true
        → length xs < fuel
        → advance o fuel test nodes i cur ≡ some (last cur xs)
    unfolding advance
    advance_lem zero i cur xs ys h p f room = absurd (omega arith)
    advance_lem (suc fuel) i cur [] [] h p f room = rw (h, advance) refl
    advance_lem (suc fuel) i cur [] (y ∷ ys) (e, h) p f room =
        let stop : passes y ≡ false = ground (arith, f) in rw (e, advance) (rw stop refl)
    advance_lem (suc fuel) i cur (x ∷ xs) ys (e, h) p f room =
        let go : passes x ≡ true = ground (arith, p) in
        rw (e, advance) (rw go (advance_lem fuel i x xs ys h (ground (arith, p)) f (omega arith)))

    pub descend_lem :
        (fuel k cur : ℕ) (front back : List ℕ)
        → ((i : ℕ) → i < k → Chain (nx nodes i) 0 (keep (tall nodes i) (front ++ back)))
        → cur ≡ last 0 (keep (tall nodes k) front)
        → all passes front ≡ true
        → all fails back ≡ true
        → length front < fuel
        → descend o fuel test nodes k cur ≡ some (updates nodes front k)
    unfolding descend
    descend_lem fuel zero cur front back chains at p f room = refl
    descend_lem fuel (suc i) cur front back chains at p f room =
        let chain =
          subst (λ l. Chain (nx nodes i) 0 l) (keep-append (tall nodes i) front back)
            (chains i (omega arith)) in
        let (more, behind, ends, passing, short) =
          resume (nx nodes i) (tall nodes i) (tall nodes (suc i)) 0 front (keep (tall nodes i) back)
            (λ q h. ground arith) chain in
        let stop =
          advance_lem fuel i cur more (keep (tall nodes i) back)
            (subst (λ c. Chain (nx nodes i) c (more ++ keep (tall nodes i) back)) (sym at) behind)
            (passing passes p) (all-keep fails (tall nodes i) back f) (omega arith) in
        let there : last cur more ≡ last 0 (keep (tall nodes i) front) =
          ap (λ c. last c more) at ∙ ends in
        rw (stop, descend)
          (rw
            (descend_lem fuel i (last cur more) front back (λ j h. chains j (omega arith)) there p f
              room)
            (ap (λ x. some (updates nodes front i ++ x ∷ [])) there))
