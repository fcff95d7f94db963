-- ===== src/SortedSet/Contents.antt =====
-- The sorted sets of src/sorted_set/sorted_set_engine.cpp by the sorted pairs under each key.
use fast_graph.Prelude.{
  ℕ, ◌≡◌, refl, sym, ap, subst, ◌∙◌, ◌≢◌, ◌⊎◌, inl, inr, Bool, true, false, none, some, List, [],
  if◌then◌else◌, Option-cases, pos, nat_eq, int_eq, text_eq, Text,
}
use fast_graph.Prelude.Dict.{find, put, find-put_self, find-put_ne}
use fast_graph.Index.SkipList.{new, insert, remove, score_of, ScoreOps, SkipList}
use fast_graph.Index.SkipList.Order.{ScoreLaws}
use fast_graph.Index.SkipList.Sorted.{others, select-all, lookup, drop_member, insert_pair}
use fast_graph.Index.SkipList.Lookup.{lookup-none}
use fast_graph.Index.SkipList.Methods.{Represents}
use fast_graph.Index.SkipList.Refinement.{insert_lem, remove_lem, queries_lem, new-Represents}
use fast_graph.SortedSet.{SortedSetEngine, has_score, get_or_create, zadd, zrem_at, zrem}

module _ {Dbl : Type 0} (o : ScoreOps Dbl) where
  -- The pairs of the set under a key; a key without a skip list has none.
  abbrev pub Shows : SortedSetEngine Dbl → Text → List (Dbl × Text) → Type 0
  Shows e key l =
      ((find key e.sets ≡ none) × (l ≡ []))
      ⊎ ((sl : SkipList Dbl) × (find key e.sets ≡ some sl) × Represents o sl l)

  -- The sets under the other keys are as before.
  abbrev pub OthersKept : SortedSetEngine Dbl → SortedSetEngine Dbl → Text → Type 0
  OthersKept e e' key = (k : Text) → k ≢ key → find k e'.sets ≡ find k e.sets

module _ {Dbl : Type 0} (o : ScoreOps Dbl) (laws : ScoreLaws o) where
  created :
      (e : SortedSetEngine Dbl) (key : Text) (l : List (Dbl × Text))
      → Shows o e key l
      → Represents o (get_or_create o e key) l
  unfolding get_or_create
  created e key l (inl (f, h)) =
      rw (f, get_or_create) (subst (Represents o (new o)) (sym h) (new-Represents o))
  created e key l (inr (sl, f, r)) = rw (f, get_or_create) r

  zadd_ends :
      (e : SortedSetEngine Dbl) (draw : ℕ → Bool) (key : Text) (score : Dbl) (member : Text)
      (sl : SkipList Dbl)
      → insert o (get_or_create o e key) draw score member ≡ some sl
      → zadd o e draw key score member
        ≡ some (
          if has_score (score_of o (get_or_create o e key) member) then pos 0 else pos 1,
          record { sets = put key sl e.sets },
        )
  unfolding zadd
  zadd_ends e draw key score member sl f = rw f refl

  -- Where the set of the key is valid, with scores in a total order, `zadd` ends, whatever the random
  -- level. It puts the pair at its place in the set of the key, in
  -- place of an older score of the member, answers 1 for a new member and 0 otherwise, and keeps the
  -- sets of the other keys.
  pub zadd_lem :
      (e : SortedSetEngine Dbl) (draw : ℕ → Bool) (key : Text) (score : Dbl) (member : Text)
      (l : List (Dbl × Text))
      → Shows o e key l
      → (e' : SortedSetEngine Dbl) × (zadd o e draw key score member
          ≡ some (if has_score (lookup o member l) then pos 0 else pos 1, e'))
        × Shows o e' key (insert_pair o (score, member) (drop_member o member l))
        × OthersKept o e e' key
  zadd_lem e draw key score member l h =
      let r = created e key l h in
      let (sl, ends, r') = insert_lem o laws (get_or_create o e key) l draw score member r in
      let (scores, _, _) = queries_lem o laws (get_or_create o e key) l r in
      let e' : SortedSetEngine Dbl = record { sets = put key sl e.sets } in
      (
        e',
        zadd_ends e draw key score member sl ends
            ∙ ap (λ x. some (if has_score x then pos 0 else pos 1, e')) (scores member),
        inr (sl, find-put_self key sl e.sets, r'),
        λ k other. find-put_ne key k sl e.sets other,
      )

  zrem_absent :
      (e : SortedSetEngine Dbl) (key member : Text) (sl : SkipList Dbl)
      → find key e.sets ≡ some sl
      → score_of o sl member ≡ none
      → zrem o e key member ≡ some (false, e)
  unfolding zrem
  zrem_absent e key member sl f g = rw (f, zrem) (rw g refl)

  zrem_there :
      (e : SortedSetEngine Dbl) (key member : Text) (sl sl' : SkipList Dbl) (score : Dbl)
      → find key e.sets ≡ some sl
      → score_of o sl member ≡ some score
      → remove o sl score member ≡ some (true, sl')
      → zrem o e key member ≡ some (true, record { sets = put key sl' e.sets })
  unfolding zrem zrem_at
  zrem_there e key member sl sl' score f g h = rw (f, zrem) (rw (g, zrem_at) (rw h refl))

  zrem_nowhere :
      (e : SortedSetEngine Dbl) (key member : Text)
      → find key e.sets ≡ none
      → zrem o e key member ≡ some (false, e)
  unfolding zrem
  zrem_nowhere e key member f = rw (f, zrem) refl

  -- Where the set of the key is valid, with scores in a total order, `zrem` ends, takes the member out of the set of the key, answers whether it was in, and keeps the
  -- sets of the other keys.
  pub zrem_lem :
      (e : SortedSetEngine Dbl) (key member : Text) (l : List (Dbl × Text))
      → Shows o e key l
      → (e' : SortedSetEngine Dbl) × (zrem o e key member
          ≡ some (has_score (lookup o member l), e'))
        × Shows o e' key (drop_member o member l)
        × OthersKept o e e' key
  zrem_lem e key member l (inl (f, h)) = (
    e,
    zrem_nowhere e key member f ∙ ap (λ x. some (has_score (lookup o member x), e)) (sym h),
    inl (f, ap (drop_member o member) h),
    λ k other. refl,
  )
  zrem_lem e key member l (inr (sl, f, r)) =
      let (scores, _, _) = queries_lem o laws sl l r in
      elim (Option-cases (lookup o member l)) [
        | inl g ↦ (
          e,
          zrem_absent e key member sl f (scores member ∙ g)
              ∙ ap (λ x. some (has_score x, e)) (sym g),
          inr (
            sl,
            f,
            subst (Represents o sl)
                (sym (select-all o (others o member) l (lookup-none o member l g))) r,
          ),
          λ k other. refl,
        )
        | inr (score, g) ↦ elim (remove_lem o laws sl l score member r) [
          | inl (_, (sl', ends, r')) ↦
              let e' : SortedSetEngine Dbl = record { sets = put key sl' e.sets } in
              (
                e',
                zrem_there e key member sl sl' score f (scores member ∙ g) ends
                    ∙ ap (λ x. some (has_score x, e')) (sym g),
                inr (sl', find-put_self key sl' e.sets, r'),
                λ k other. find-put_ne key k sl' e.sets other,
              )
          | inr (missing, _) ↦ absurd (missing g)
        ]
      ]
