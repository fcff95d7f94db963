-- ===== src/Tests/IndexTests.antt =====
-- Runs of the skip list, with natural numbers for scores.
use fast_graph.Prelude.{
  ℕ, zero, suc, ◌+◌, ◌-◌, ◌*◌, ◌/◌, ◌%◌, ◌^◌, ◌≤◌, ◌<◌, min, max, ◌≡◌, refl, sym, ap, subst, ◌∙◌,
  ◌≢◌, ◌↔◌, ◌⊎◌, inl, inr, ⊎_elim, Bool, true, false, not, ◌&&◌, ◌||◌, Option, some, List, [], ◌∷◌,
  ◌++◌, map, append-nil, append_assoc, arith, ltb, leb, if◌then◌else◌, Bool-cases, Option-cases,
  List-cases, length, get_or, set, take, drop, replicate, length-append, length-set,
  get_or-set_self, get_or-set_ne, length-take, length-drop, take-append_all, drop-append_all, ℤ,
  pos, pos_part, neg_part, ◌+ℤ◌, ◌-ℤ◌, ◌≤ℤ◌, ◌<ℤ◌, ltb_ℤ, leb_ℤ, int_laws, Eq, ◌==◌, nat_eq, int_eq,
  text_eq, Text, eq_refl, eq_true, eq_false, eq_symm, ltb-true, ltb-false, leb-true, leb-false,
  drop-drop, get_or-drop, drop-append_of_length, drop-nil, take_all,
}
use fast_graph.Dispatch.Exceptions.{codes}
use fast_graph.Prelude.Dict.{find}
use fast_graph.SortedSet.{SortedSetEngine, has_score, zadd, zrem}
use fast_graph.SortedSet.Contents.{Shows, OthersKept, zadd_lem, zrem_lem}
use fast_graph.Index.SkipList.{ScoreOps, SkipList, new, insert, remove, score_of, range_by_score}
use fast_graph.Index.SkipList.Order.{ScoreLaws}
use fast_graph.Index.SkipList.Sorted.{lookup, drop_member, insert_pair, select}
use fast_graph.Index.SkipList.Ranges.{in_range}
use fast_graph.Index.SkipList.Methods.{Represents}
use fast_graph.Index.SkipList.Refinement.{insert_lem, remove_lem, queries_lem, new-Represents}

abbrev points : ScoreOps ℕ
points = record { less = ltb; equal = λ a b. a == b; leq = leb; lowest = 0 }

points-ScoreLaws : ScoreLaws points
points-ScoreLaws = record {
  equal_iff = λ a b. nat_eq.beq_iff a b;
  less_irrefl = λ a. ground arith;
  less_trans = λ a b c h h'. ground arith;
  less_total = λ a b h h'. ground arith;
  leq_iff = λ a b. ground arith;
}

abbrev two_high : ℕ → Bool
two_high n = n == 1

insert_lem_example :
    (s' : SkipList ℕ) × (insert points (new points) two_high 5 (codes "a") ≡ some s')
    × Represents points s' (insert_pair points (5, codes "a") (drop_member points (codes "a") []))
insert_lem_example =
    insert_lem points points-ScoreLaws (new points) [] two_high 5 (codes "a")
      (new-Represents points)

-- What one insertion gives.
one_inserted :
    (s' : SkipList ℕ) × (insert points (new points) two_high 5 (codes "a") ≡ some s')
    × Represents points s' ((5, codes "a") ∷ [])
one_inserted =
    insert_lem points points-ScoreLaws (new points) [] two_high 5 (codes "a")
      (new-Represents points)

abbrev one_point : SkipList ℕ
one_point = one_inserted.0

remove_lem_example :
    ((lookup points (codes "a") ((5, codes "a") ∷ []) ≡ some 5)
      × ((s' : SkipList ℕ) × (remove points one_point 5 (codes "a") ≡ some (true, s'))
          × Represents points s' (drop_member points (codes "a") ((5, codes "a") ∷ []))))
    ⊎ ((lookup points (codes "a") ((5, codes "a") ∷ []) ≢ some 5)
        × (remove points one_point 5 (codes "a") ≡ some (false, one_point)))
remove_lem_example =
    remove_lem points points-ScoreLaws one_point ((5, codes "a") ∷ []) 5 (codes "a") one_inserted.2

queries_lem_example :
    ((m : Text) → score_of points one_point m ≡ lookup points m ((5, codes "a") ∷ []))
    × (one_point.size ≡ 1)
    × ((lo hi : ℕ)
        → range_by_score points one_point lo hi
          ≡ some (select points (in_range points points-ScoreLaws lo hi) ((5, codes "a") ∷ [])))
queries_lem_example =
    queries_lem points points-ScoreLaws one_point ((5, codes "a") ∷ []) one_inserted.2

abbrev one_set : SortedSetEngine ℕ
one_set = record { sets = (codes "k", one_point) ∷ [] }

one_set-Shows : Shows points one_set (codes "k") ((5, codes "a") ∷ [])
unfolding find fast_graph.Prelude.list_beq
one_set-Shows = inr (one_point, refl, one_inserted.2)

zadd_lem_example :
    (e' : SortedSetEngine ℕ) × (zadd points one_set two_high (codes "k") 3 (codes "b")
      ≡ some (
        if has_score (lookup points (codes "b") ((5, codes "a") ∷ [])) then pos 0 else pos 1,
        e',
      ))
    × Shows points e'
        (codes "k")
        (insert_pair points (3, codes "b") (drop_member points (codes "b") ((5, codes "a") ∷ [])))
    × OthersKept points one_set e' (codes "k")
zadd_lem_example =
    zadd_lem points points-ScoreLaws one_set two_high (codes "k") 3 (codes "b")
      ((5, codes "a") ∷ []) one_set-Shows

zrem_lem_example :
    (e' : SortedSetEngine ℕ) × (zrem points one_set (codes "k") (codes "a")
      ≡ some (has_score (lookup points (codes "a") ((5, codes "a") ∷ [])), e'))
    × Shows points e' (codes "k") (drop_member points (codes "a") ((5, codes "a") ∷ []))
    × OthersKept points one_set e' (codes "k")
zrem_lem_example =
    zrem_lem points points-ScoreLaws one_set (codes "k") (codes "a") ((5, codes "a") ∷ [])
      one_set-Shows
