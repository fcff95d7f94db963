-- ===== src/Index/SkipList/Ranks.antt =====
-- `range_by_rank` of src/index/skiplist.cpp on a valid skip list.
use fast_graph.Prelude.{
  ℕ, zero, suc, ◌+◌, ◌-◌, ◌≤◌, ◌<◌, max, ◌≡◌, refl, sym, ap, ◌∙◌, inl, inr, some, List, [], ◌∷◌,
  arith, leb, if◌then◌else◌, Bool-cases, length, take, drop, pos, ◌+ℤ◌, leb_ℤ, int_laws, nat_eq,
  int_eq, text_eq, Text, drop-nil, take_all,
}
use fast_graph.Index.SkipList.{ScoreOps, SkipNode, SkipList, collect_ranks, range_by_rank}
use fast_graph.Index.SkipList.Chain.{Chain}
use fast_graph.Index.SkipList.Descent.{nx}
use fast_graph.Index.SkipList.Valid.{pair_at, pairs, head_of, Chain-head, bottom}
use fast_graph.Index.SkipList.Methods.{Represents}

-- What the ranks from `start` to `stop` take of a list that begins at rank `i`.
abbrev pub between {ℓ} : {A : Type ℓ} → ℕ → ℕ → ℕ → List A → List A
between start stop i l = take (suc stop - max start i) (drop (start - i) l)

between_next {ℓ} :
    {A : Type ℓ} (start stop i : ℕ) (x : A) (l : List A)
    → i ≤ stop
    → (if leb start i then x ∷ between start stop (suc i) l else between start stop (suc i) l)
      ≡ between start stop i (x ∷ l)
between_next start stop i x l h = elim (Bool-cases (leb start i)) [
  | inl e ↦
      let a : suc stop - max start i ≡ suc (suc stop - max start (suc i)) = ground arith in
      let b : start - i ≡ 0 = ground arith in
      let c : start - suc i ≡ 0 = ground arith in rw (e, a, b, c) refl
  | inr e ↦
      let a : suc stop - max start i ≡ suc stop - max start (suc i) = ground arith in
      let b : start - i ≡ suc (start - suc i) = ground arith in rw (e, a, b) refl
]

between_over {ℓ} :
    {A : Type ℓ} (start stop i : ℕ) (l : List A) → stop < i → between start stop i l ≡ []
between_over start stop i l h = let a : suc stop - max start i ≡ 0 = omega arith in rw a refl

between_nil {ℓ} : {A : Type ℓ} (start stop i : ℕ) → between {A = A} start stop i [] ≡ []
between_nil {A} start stop i =
    ap (take (suc stop - max start i)) (drop-nil {A = A} (start - i))
    ∙ take_all (suc stop - max start i) [] (omega arith)

between_tail {ℓ} :
    {A : Type ℓ} (start stop i : ℕ) (x : A) (l : List A)
    → i ≤ stop
    → (if leb_ℤ (pos start) (pos i)
        then x ∷ between start stop (i + 1) l
        else between start stop (i + 1) l)
      ≡ between start stop i (x ∷ l)
between_tail start stop i x l h =
    let e : leb_ℤ (pos start) (pos i) ≡ leb start i = ground arith in
    let f : i + 1 ≡ suc i = omega arith in rw (e, f) (between_next start stop i x l h)

module _ {Dbl : Type 0} (o : ScoreOps Dbl) where
  collect_ranks_lem :
      (fuel : ℕ) (nodes : List (SkipNode Dbl)) (start stop i c : ℕ) (ys : List ℕ)
      → Chain (nx o nodes 0) c ys
      → length ys ≤ fuel
      → collect_ranks o fuel nodes (pos start) (pos stop) (head_of o ys) (pos i)
        ≡ some (between start stop i (pairs o nodes ys))
  unfolding collect_ranks ◌+ℤ◌
  collect_ranks_lem fuel nodes start stop i c [] h n = ap some (sym (between_nil start stop i))
  collect_ranks_lem zero nodes start stop i c (y ∷ ys) h n = absurd (omega arith)
  collect_ranks_lem (suc fuel) nodes start stop i c (y ∷ ys) (e, h) n =
      let next = Chain-head o (nx o nodes 0) y ys h in
      let rest = collect_ranks_lem fuel nodes start stop (i + 1) y ys h (omega arith) in
      let step : pos i +ℤ pos 1 ≡ pos (i + 1) = grind int_laws in
      let here = (pair_at o nodes y) in
      elim (Bool-cases (leb_ℤ (pos i) (pos stop))) [
        | inl g ↦
            rw (g, collect_ranks)
              (rw (next, step)
                (rw rest (
                  ap some (between_tail start stop i here (pairs o nodes ys) (ground (arith, g))))))
        | inr g ↦
            rw (g, collect_ranks)
              (ap some
                (sym (between_over start stop i (pairs o nodes (y ∷ ys)) (ground (arith, g)))))
      ]

  -- On a valid skip list `range_by_rank` ends, and returns the pairs from the first rank to the second.
  pub range_by_rank_lem :
      (s : SkipList Dbl) (l : List (Dbl × Text)) (start stop : ℕ)
      → Represents o s l
      → range_by_rank o s (pos start) (pos stop) ≡ some (take (suc stop - start) (drop start l))
  unfolding range_by_rank
  range_by_rank_lem s l start stop r =
      let v = r.valid in
      let chain = bottom o s r.order v in
      let first = Chain-head o (nx o s.nodes 0) 0 r.order chain in
      let walked =
        collect_ranks_lem (length s.nodes) s.nodes start stop 0 0 r.order chain
          (let h = v.room in omega arith) in
      let a : suc stop - max start 0 ≡ suc stop - start = omega arith in
      let b : start - 0 ≡ start = omega arith in
      rw first (walked ∙ ap (λ k. some (between start stop 0 k)) r.same ∙ rw (a, b) refl)
