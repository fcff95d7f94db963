-- ===== src/SortedSet.antt =====
-- src/sorted_set/sorted_set_engine.cpp: a skip list for each key. A write through a pointer to a skip
-- list puts the new skip list back under its key. `none` stands for fuel that has run out.
pub mod Contents
pub mod Rank
use fast_graph.Prelude.{
  ℕ, zero, suc, ◌+◌, ◌-◌, ◌*◌, ◌/◌, ◌%◌, ◌^◌, ◌≤◌, ◌<◌, min, max, ◌≡◌, refl, sym, ap, subst, ◌∙◌,
  ◌≢◌, ◌↔◌, ◌⊎◌, inl, inr, ⊎_elim, Bool, true, false, not, ◌&&◌, ◌||◌, Option, none, some, List, [],
  ◌∷◌, ◌++◌, map, append-nil, append_assoc, arith, ltb, leb, if◌then◌else◌, Bool-cases,
  Option-cases, List-cases, length, get_elem?, get_or, set, take, drop, replicate, length-append,
  length-set, get_or-set_self, get_or-set_ne, length-take, length-drop, take-append_all,
  drop-append_all, ℤ, pos, negsuc, pos_part, neg_part, ◌+ℤ◌, ◌-ℤ◌, ◌≤ℤ◌, ◌<ℤ◌, ltb_ℤ, leb_ℤ,
  int_laws, Eq, ◌==◌, nat_eq, int_eq, text_eq, Text, eq_refl, eq_true, eq_false, eq_symm, ltb-true,
  ltb-false, leb-true, leb-false, drop-drop, get_or-drop, drop-append_of_length, drop-nil, take_all,
}
use fast_graph.Prelude.Dict.{Dict, find, put}
use fast_graph.Index.SkipList.{
  new, insert, remove, score_of, range_by_score, range_by_rank, ScoreOps, SkipList, ◌>>=◌,
}

pub record SortedSetEngine (Dbl : Type 0) : Type 0 where
  pub sets : Dict Text (SkipList Dbl)

abbrev pub has_score : {Dbl : Type 0} → Option Dbl → Bool
has_score none = false
has_score (some score) = true

-- The loop of `zrank` over the pairs, from rank `i` on.
unfoldable pub rank_in : {Dbl : Type 0} → Text → List (Dbl × Text) → ℤ → ℤ
rank_in member [] i = negsuc 0
rank_in member (x ∷ results) i =
    let rest = rank_in member results (i +ℤ pos 1) in if x.1 == member then i else rest

module _ {Dbl : Type 0} (o : ScoreOps Dbl) where
  unfoldable pub get_or_create : SortedSetEngine Dbl → Text → SkipList Dbl
  get_or_create e key = elim (find key e.sets) [ none ↦ new o | some sl ↦ sl ]

  unfoldable pub zadd :
      SortedSetEngine Dbl → (ℕ → Bool) → Text → Dbl → Text → Option (ℤ × SortedSetEngine Dbl)
  unfolding get_or_create
  zadd e draw key score member = do
    sl ← insert o (get_or_create e key) draw score member
    some (
      if has_score (score_of o (get_or_create e key) member) then pos 0 else pos 1,
      record { sets = put key sl e.sets },
    )

  -- `zrem`, where the key has a skip list and the member a score.
  unfoldable pub zrem_at :
      SortedSetEngine Dbl → Text → SkipList Dbl → Dbl → Text → Option (Bool × SortedSetEngine Dbl)
  zrem_at e key sl score member = do
    (there, sl') ← remove o sl score member
    some (there, record { sets = put key sl' e.sets })

  unfoldable pub zrem : SortedSetEngine Dbl → Text → Text → Option (Bool × SortedSetEngine Dbl)
  unfolding zrem_at
  zrem e key member = elim (find key e.sets) [
    | none ↦ some (false, e)
    | some sl ↦ elim (score_of o sl member) [
      | none ↦ some (false, e)
      | some score ↦ zrem_at e key sl score member
    ]
  ]

  unfoldable pub zscore : SortedSetEngine Dbl → Text → Text → Option Dbl
  zscore e key member = elim (find key e.sets) [ none ↦ none | some sl ↦ score_of o sl member ]

  unfoldable pub zrange : SortedSetEngine Dbl → Text → ℤ → ℤ → Option (List (Dbl × Text))
  zrange e key start stop = elim (find key e.sets) [
    | none ↦ some []
    | some sl ↦ range_by_rank o sl start stop
  ]

  unfoldable pub zrangebyscore : SortedSetEngine Dbl → Text → Dbl → Dbl → Option (List (Dbl × Text))
  zrangebyscore e key min_score max_score = elim (find key e.sets) [
    | none ↦ some []
    | some sl ↦ range_by_score o sl min_score max_score
  ]

  unfoldable pub zcard : SortedSetEngine Dbl → Text → ℤ
  zcard e key = elim (find key e.sets) [ none ↦ pos 0 | some sl ↦ pos sl.size ]

  unfoldable pub zrank : SortedSetEngine Dbl → Text → Text → Option ℤ
  unfolding rank_in
  zrank e key member = elim (find key e.sets) [
    | none ↦ some (negsuc 0)
    | some sl ↦ elim (score_of o sl member) [
      | none ↦ some (negsuc 0)
      | some score ↦ do
        results ← range_by_rank o sl (pos 0) (pos sl.size)
        some (rank_in member results (pos 0))
    ]
  ]
