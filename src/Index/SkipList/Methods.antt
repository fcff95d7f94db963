-- ===== src/Index/SkipList/Methods.antt =====
-- `SkipList` of src/index/skiplist.cpp against the sorted list of its pairs.
use fast_graph.Prelude.{
  ℕ, ◌≤◌, ◌≡◌, ap, ◌∙◌, ◌≢◌, true, false, none, some, List, ◌∷◌, ◌++◌, arith, length, nat_eq,
  int_eq, text_eq, Text,
}
use fast_graph.Index.SkipList.{ScoreOps, SkipList, node_at, remove, take_out, put_in}
use fast_graph.Index.SkipList.Descent.{updates}
use fast_graph.Index.SkipList.Order.{ScoreLaws, before}
use fast_graph.Index.SkipList.Sorted.{lookup, drop_member, insert_pair, before-IsDown}
use fast_graph.Index.SkipList.Valid.{IsSkipList, Split, pairs, split_lem, search_lem}
use fast_graph.Index.SkipList.Lookup.{lookup_split, middle-Split}
use fast_graph.Index.SkipList.Removal.{take_out-IsSkipList, left}
use fast_graph.Index.SkipList.Insertion.{put_in-IsSkipList, placed-insert_pair}
use fast_graph.Index.SkipList.Steps.{remove-false, remove-true, pair_there-false}

module _ {Dbl : Type 0} (o : ScoreOps Dbl) where
  -- The skip list is valid, and its pairs are those of the list.
  pub record Represents (s : SkipList Dbl) (l : List (Dbl × Text)) : Type 0 where
    pub order : List ℕ
    pub valid : IsSkipList o s order
    pub same : pairs o s.nodes order ≡ l

module _ {Dbl : Type 0} (o : ScoreOps Dbl) (laws : ScoreLaws o) where
  module _ (s : SkipList Dbl) (xs : List ℕ) (v : IsSkipList o s xs) where
    abbrev pub ps : List (Dbl × Text)
    ps = pairs o s.nodes xs

    -- A pair that is in the list is found and taken out.
    pub remove_there :
        (score : Dbl) (member : Text)
        → lookup o member ps ≡ some score
        → (s' : SkipList Dbl) × (xs' : List ℕ) × (remove o s score member ≡ some (true, s'))
          × IsSkipList o s' xs'
          × (pairs o s'.nodes xs' ≡ drop_member o member ps)
    unfolding take_out
    remove_there score member e =
        let (front, t, back, whole, at) = lookup_split o s.nodes member score xs e in
        let p = middle-Split o laws s.nodes (score, member) xs front t back whole at v.ordered in
        let (ends, stop) =
          search_lem o s xs v (λ x. before o x (score, member)) front (t ∷ back) p in
        let u = updates o s.nodes front s.level in
        let at_score = ap (λ x. x.0) at in
        let at_member = ap (λ x. x.1) at in
        let m = (text_eq.beq_iff (node_at o s.nodes t).member member).1 at_member in
        let c = (laws.equal_iff (node_at o s.nodes t).score score).1 at_score in
        (
          take_out o s u t,
          front ++ back,
          remove-true o s score member u ends t stop (ground (arith, m, c)),
          take_out-IsSkipList o s xs v front t back whole,
          left o s xs v front t back whole ∙ ap (λ x. drop_member o x ps) at_member,
        )

    -- A pair that is not in the list is not found.
    pub remove_missing :
        (score : Dbl) (member : Text)
        → lookup o member ps ≢ some score
        → remove o s score member ≡ some (false, s)
    remove_missing score member other =
        let (front, back, p) =
          split_lem o s.nodes (λ x. before o x (score, member)) xs
            (before-IsDown o laws (score, member)) v.ordered in
        let (ends, stop) = search_lem o s xs v (λ x. before o x (score, member)) front back p in
        let u = updates o s.nodes front s.level in
        remove-false o s score member u ends
          (pair_there-false o laws s xs score member u front back v p.whole stop other)

    -- A new member is put in at its place.
    pub put_new :
        (score : Dbl) (member : Text) (lvl : ℕ) (front back : List ℕ)
        → Split o s.nodes (λ x. before o x (score, member)) xs front back
        → 1 ≤ lvl
        → lvl ≤ 16
        → lookup o member ps ≡ none
        → Represents o
            (put_in o s (updates o s.nodes front s.level) lvl score member)
            (insert_pair o (score, member) ps)
    unfolding put_in
    put_new score member lvl front back p lo hi e = record {
      order = front ++ length s.nodes ∷ back;
      valid = put_in-IsSkipList o laws s xs v score member front back p lvl lo hi e;
      same = placed-insert_pair o laws s xs v score member front back p lvl lo hi;
    }
