-- ===== src/Index/SkipList/Steps.antt =====
-- How `insert` and `remove` of src/index/skiplist.cpp go on behind their search.
use fast_graph.Prelude.{
  ℕ, zero, suc, ◌+◌, ◌≤◌, ◌≡◌, refl, sym, ap, subst, ◌∙◌, ◌≢◌, inl, inr, Bool, true, false, ◌&&◌,
  none, some, List, [], ◌∷◌, ◌++◌, arith, ltb, Bool-cases, Option-cases, nat_eq, int_eq, text_eq,
  Text, eq_true,
}
use fast_graph.Index.SkipList.{
  ScoreOps, SkipList, max_level, node_at, search_list, found, precedes, is_pair, pair_there, remove,
  remove_at, take_out, insert_at, insert, without_old, put_in, random_level, climb, score_of,
}
use fast_graph.Index.SkipList.Order.{ScoreLaws}
use fast_graph.Index.SkipList.Sorted.{lookup, members_once}
use fast_graph.Index.SkipList.Valid.{IsSkipList, pair_at, pairs, pairs-append, head_of}
use fast_graph.Index.SkipList.Lookup.{members_once_parts, lookup_middle}

climb_lem :
    (fuel : ℕ) (draw : ℕ → Bool) (lvl : ℕ)
    → lvl ≤ max_level
    → (lvl ≤ climb fuel draw lvl) × (climb fuel draw lvl ≤ max_level)
unfolding climb
climb_lem zero draw lvl h = (omega arith, h)
climb_lem (suc fuel) draw lvl h = elim (Bool-cases (draw lvl && ltb lvl max_level)) [
  | inl e ↦
      let (a, b) = climb_lem fuel draw (lvl + 1) (ground (arith, e)) in
      rw (e, climb) (omega arith, b)
  | inr e ↦ rw (e, climb) (omega arith, h)
]

pub random_level_lem : (draw : ℕ → Bool) → (1 ≤ random_level draw) × (random_level draw ≤ max_level)
unfolding random_level
random_level_lem draw = climb_lem max_level draw 1 (omega arith)

module _ {Dbl : Type 0} (o : ScoreOps Dbl) (s : SkipList Dbl) (score : Dbl) (member : Text)
    (u : List ℕ) (searched : search_list o (precedes o score member) s ≡ some u) where
  removes : remove o s score member ≡ some (remove_at o s score member u)
  unfolding remove
  removes = rw searched refl

  pub remove-false :
      pair_there o s u score member ≡ false → remove o s score member ≡ some (false, s)
  unfolding remove_at
  remove-false e = removes ∙ elim (Option-cases (found o s.nodes u)) [
    | inl f ↦ rw (f, remove_at) refl
    | inr (t, f) ↦
        let g : is_pair o score member (node_at o s.nodes t) ≡ false = rw (f, pair_there) at e in
        rw (f, remove_at) (rw g refl)
  ]

  pub remove-true :
      (t : ℕ)
      → found o s.nodes u ≡ some t
      → is_pair o score member (node_at o s.nodes t) ≡ true
      → remove o s score member ≡ some (true, take_out o s u t)
  unfolding remove_at
  remove-true t f g = removes ∙ rw (f, remove_at) (rw g refl)

  inserts : (draw : ℕ → Bool) → insert o s draw score member ≡ insert_at o s draw score member u
  unfolding insert
  inserts draw = rw searched refl

  pub insert_there :
      (draw : ℕ → Bool)
      → pair_there o s u score member ≡ true
      → insert o s draw score member ≡ some s
  unfolding insert_at
  insert_there draw e = inserts draw ∙ rw (e, insert_at) refl

  pub insert_absent :
      (draw : ℕ → Bool) (s' : SkipList Dbl) (u' : List ℕ)
      → pair_there o s u score member ≡ false
      → without_old o s u score member ≡ some (s', u')
      → insert o s draw score member ≡ some (put_in o s' u' (random_level draw) score member)
  unfolding insert_at
  insert_absent draw s' u' e w = inserts draw ∙ rw (e, insert_at) (rw w refl)

module _ {Dbl : Type 0} (o : ScoreOps Dbl) (s : SkipList Dbl) (score : Dbl) (member : Text)
    (u : List ℕ) where
  pub without_old-none : score_of o s member ≡ none → without_old o s u score member ≡ some (s, u)
  unfolding without_old
  without_old-none e = rw (e, without_old) refl

  pub without_old-some :
      (old : Dbl) (s' : SkipList Dbl) (u' : List ℕ)
      → score_of o s member ≡ some old
      → o.equal old score ≡ false
      → remove o s old member ≡ some (true, s')
      → search_list o (precedes o score member) s' ≡ some u'
      → without_old o s u score member ≡ some (s', u')
  unfolding without_old
  without_old-some old s' u' e f r g = rw (e, without_old) (rw f (rw r (rw g refl)))

module _ {Dbl : Type 0} (o : ScoreOps Dbl) (laws : ScoreLaws o) where
  -- Where the search stops at the pair, the pair is in the list.
  pub pair_there-lookup :
      (s : SkipList Dbl) (xs : List ℕ) (score : Dbl) (member : Text) (u front back : List ℕ)
      → IsSkipList o s xs
      → xs ≡ front ++ back
      → found o s.nodes u ≡ head_of o back
      → pair_there o s u score member ≡ true
      → lookup o member (pairs o s.nodes xs) ≡ some score
  pair_there-lookup s xs score member u front [] v e at t = absurd (ground (arith, t, at))
  pair_there-lookup s xs score member u front (h ∷ back) v e at t =
      let g : is_pair o score member (node_at o s.nodes h) ≡ true = rw (at, pair_there) at t in
      let m = eq_true (node_at o s.nodes h).member member (ground (arith, g)) in
      let c = (laws.equal_iff (node_at o s.nodes h).score score).0 (ground (arith, g)) in
      let whole = ap (pairs o s.nodes) e ∙ pairs-append o s.nodes front (h ∷ back) in
      let (a, _) =
        members_once_parts o (pairs o s.nodes front) (pairs o s.nodes back) (pair_at o s.nodes h)
          (subst (λ l. members_once o l ≡ true) whole v.once) in
      ap (lookup o member) whole
      ∙ ap (λ x. lookup o x (pairs o s.nodes front ++ pairs o s.nodes (h ∷ back))) (sym m)
      ∙ lookup_middle o (pairs o s.nodes front) (pairs o s.nodes back) (pair_at o s.nodes h) a
      ∙ ap some c

  pub pair_there-false :
      (s : SkipList Dbl) (xs : List ℕ) (score : Dbl) (member : Text) (u front back : List ℕ)
      → IsSkipList o s xs
      → xs ≡ front ++ back
      → found o s.nodes u ≡ head_of o back
      → lookup o member (pairs o s.nodes xs) ≢ some score
      → pair_there o s u score member ≡ false
  pair_there-false s xs score member u front back v e at other =
      elim (Bool-cases (pair_there o s u score member)) [
        | inl t ↦ absurd (other (pair_there-lookup s xs score member u front back v e at t))
        | inr f ↦ f
      ]
