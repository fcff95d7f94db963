-- ===== src/Index/SkipList.antt =====
-- src/index/skiplist.cpp: `SkipList`, with its nodes in a store. A pointer is a position in the store,
-- which only grows: a node that is freed stays behind and is not reached. The head is at 0.
-- `double` is a parameter, and so are the random draws. `none` stands for fuel that has run out.
pub mod Chain
pub mod Descent
pub mod Writes
pub mod Linking
pub mod Order
pub mod Sorted
pub mod Valid
pub mod Ranges
pub mod Lookup
pub mod Levels
pub mod Removal
pub mod Placed
pub mod Insertion
pub mod Steps
pub mod Methods
pub mod Refinement
pub mod Ranks
use fast_graph.Prelude.{
  ℕ, zero, suc, ◌+◌, ◌-◌, ◌*◌, ◌/◌, ◌%◌, ◌^◌, ◌≤◌, ◌<◌, min, max, ◌≡◌, refl, sym, ap, subst, ◌∙◌,
  ◌≢◌, ◌↔◌, ◌⊎◌, inl, inr, ⊎_elim, Bool, true, false, not, ◌&&◌, ◌||◌, Option, none, some, List, [],
  ◌∷◌, ◌++◌, map, append-nil, append_assoc, arith, ltb, leb, if◌then◌else◌, Bool-cases,
  Option-cases, List-cases, length, get_elem?, get_or, set, take, drop, replicate, length-append,
  length-set, get_or-set_self, get_or-set_ne, length-take, length-drop, take-append_all,
  drop-append_all, ℤ, pos, negsuc, pos_part, neg_part, ◌+ℤ◌, ◌-ℤ◌, ◌≤ℤ◌, ◌<ℤ◌, ltb_ℤ, leb_ℤ,
  int_laws, Eq, ◌==◌, nat_eq, int_eq, text_eq, Text, eq_refl, eq_true, eq_false, eq_symm, ltb-true,
  ltb-false, leb-true, leb-false, drop-drop, get_or-drop, drop-append_of_length, drop-nil, take_all,
}
use fast_graph.Prelude.Dict.{Dict, find, put, erase}

infixl 5 ◌>>=◌
abbrev pub ◌>>=◌ : {A B : Type 0} → Option A → (A → Option B) → Option B
none >>= f = none
some a >>= f = f a

-- `<`, `==` and `<=` on scores, and the score of the head
pub record ScoreOps (Dbl : Type 0) : Type 0 where
  pub less : Dbl → Dbl → Bool
  pub equal : Dbl → Dbl → Bool
  pub leq : Dbl → Dbl → Bool
  pub lowest : Dbl

-- `<` of `std::string`
unfoldable pub text_less : Text → Text → Bool
text_less [] [] = false
text_less [] (y ∷ ys) = true
text_less (x ∷ xs) [] = false
text_less (x ∷ xs) (y ∷ ys) = ltb x y || (x == y && text_less xs ys)

pub record SkipNode (Dbl : Type 0) : Type 0 where
  pub score : Dbl
  pub member : Text
  pub level : ℕ
  pub forward : List (Option ℕ)

pub record SkipList (Dbl : Type 0) : Type 0 where
  pub nodes : List (SkipNode Dbl)
  pub level : ℕ
  pub size : ℕ
  pub member_scores : Dict Text Dbl

abbrev pub max_level : ℕ
max_level = 16

-- `while ( dist( rng_ ) < 0.5f && lvl < SKIP_MAX_LEVEL ) lvl++`, with the draws of the call
unfoldable pub climb : ℕ → (ℕ → Bool) → ℕ → ℕ
climb zero draw lvl = lvl
climb (suc fuel) draw lvl =
    let rest = climb fuel draw (lvl + 1) in if draw lvl && ltb lvl max_level then rest else lvl

unfoldable pub random_level : (ℕ → Bool) → ℕ
unfolding climb
random_level draw = climb max_level draw 1

module _ {Dbl : Type 0} (o : ScoreOps Dbl) where
  unfoldable pub make : ℕ → Dbl → Text → SkipNode Dbl
  make levels score member = record {
    score = score;
    member = member;
    level = levels;
    forward = replicate levels none;
  }

  unfoldable pub new : SkipList Dbl
  unfolding make
  new = record { nodes = make max_level o.lowest [] ∷ []; level = 1; size = 0; member_scores = [] }

  -- What stands in for a read outside the store, which no operation makes.
  abbrev pub no_node : SkipNode Dbl
  no_node = record { score = o.lowest; member = []; level = 0; forward = [] }

  abbrev pub node_at : List (SkipNode Dbl) → ℕ → SkipNode Dbl
  node_at nodes p = get_or nodes p no_node

  -- `p->forward[i]`
  abbrev pub next_of : List (SkipNode Dbl) → ℕ → ℕ → Option ℕ
  next_of nodes p i = get_or (node_at nodes p).forward i none

  -- `p->forward[i] = q`
  unfoldable pub set_next : ℕ → ℕ → Option ℕ → List (SkipNode Dbl) → List (SkipNode Dbl)
  set_next p i q nodes =
      set nodes p (record (node_at nodes p) { forward = set (node_at nodes p).forward i q })

  -- `n` stands before the pair of the score and the member.
  abbrev pub precedes : Dbl → Text → SkipNode Dbl → Bool
  precedes score member n =
      o.less n.score score || (o.equal n.score score && text_less n.member member)

  abbrev pub is_pair : Dbl → Text → SkipNode Dbl → Bool
  is_pair score member n = n.member == member && o.equal n.score score

  -- The inner loop of a search: on while the test holds for the next node.
  unfoldable pub advance : ℕ → (SkipNode Dbl → Bool) → List (SkipNode Dbl) → ℕ → ℕ → Option ℕ
  advance zero test nodes i cur = none
  advance (suc fuel) test nodes i cur = elim (next_of nodes cur i) [
    | none ↦ some cur
    | some q ↦
        let rest = advance fuel test nodes i q in if test (node_at nodes q) then rest else some cur
  ]

  -- The outer loop, from level `i - 1` down to 0, with the array `update`.
  unfoldable pub descend : ℕ → (SkipNode Dbl → Bool) → List (SkipNode Dbl) → ℕ → ℕ → Option (List ℕ)
  unfolding advance
  descend fuel test nodes zero cur = some []
  descend fuel test nodes (suc i) cur = do
    cur' ← advance fuel test nodes i cur
    below ← descend fuel test nodes i cur'
    some (below ++ cur' ∷ [])

  unfoldable pub search_list : (SkipNode Dbl → Bool) → SkipList Dbl → Option (List ℕ)
  unfolding descend
  search_list test s = descend (length s.nodes) test s.nodes s.level 0

  -- `update[0]->forward[0]`
  abbrev pub found : List (SkipNode Dbl) → List ℕ → Option ℕ
  found nodes update = next_of nodes (get_or update 0 0) 0

  -- The loop of `remove` that takes the target out, level by level.
  unfoldable pub unlink : ℕ → ℕ → List ℕ → ℕ → List (SkipNode Dbl) → List (SkipNode Dbl)
  unfolding set_next
  unlink zero i update target nodes = nodes
  unlink (suc n) i update target nodes =
      let u = get_or update i 0 in
      let rest = unlink n (i + 1) update target (set_next u i (next_of nodes target i) nodes) in
      elim (next_of nodes u i) [ none ↦ nodes | some q ↦ if q == target then rest else nodes ]

  -- `while ( level_ > 1 && !head_->forward[level_ - 1] ) level_--`
  unfoldable pub lower : List (SkipNode Dbl) → ℕ → ℕ
  lower nodes zero = zero
  lower nodes (suc l) =
      let rest = lower nodes l in
      elim (next_of nodes 0 l) [ none ↦ if l == 0 then suc l else rest | some q ↦ suc l ]

  -- `remove` behind the search for its target.
  unfoldable pub take_out : SkipList Dbl → List ℕ → ℕ → SkipList Dbl
  unfolding unlink lower
  take_out s update target =
      let nodes = unlink s.level 0 update target s.nodes in
      record {
        nodes = nodes;
        level = lower nodes s.level;
        size = s.size - 1;
        member_scores = erase (node_at s.nodes target).member s.member_scores;
      }

  -- `remove`, where its search has ended.
  unfoldable pub remove_at : SkipList Dbl → Dbl → Text → List ℕ → Bool × SkipList Dbl
  unfolding take_out
  remove_at s score member update = elim (found s.nodes update) [
    | none ↦ (false, s)
    | some target ↦
        if is_pair score member (node_at s.nodes target)
        then (true, take_out s update target)
        else (false, s)
  ]

  unfoldable pub remove : SkipList Dbl → Dbl → Text → Option (Bool × SkipList Dbl)
  unfolding remove_at search_list
  remove s score member = do
    update ← search_list (precedes score member) s
    some (remove_at s score member update)

  -- The loop of `insert` over the levels of the new node.
  unfoldable pub link : ℕ → ℕ → List ℕ → ℕ → List (SkipNode Dbl) → List (SkipNode Dbl)
  unfolding set_next
  link zero i update n nodes = nodes
  link (suc k) i update n nodes =
      let u = get_or update i 0 in
      link k (i + 1) update n (set_next u i (some n) (set_next n i (next_of nodes u i) nodes))

  -- `insert` behind the search, with the level of the new node.
  unfoldable pub put_in : SkipList Dbl → List ℕ → ℕ → Dbl → Text → SkipList Dbl
  unfolding link make
  put_in s update lvl score member =
      let n = length s.nodes in
      record {
        nodes =
            link lvl 0 (update ++ replicate (lvl - s.level) 0) n
              (s.nodes ++ make lvl score member ∷ []);
        level = max s.level lvl;
        size = s.size + 1;
        member_scores = put member score s.member_scores;
      }

  unfoldable pub score_of : SkipList Dbl → Text → Option Dbl
  score_of s member = find member s.member_scores

  -- The member at another score is removed first, and the search is run again.
  unfoldable pub without_old : SkipList Dbl → List ℕ → Dbl → Text → Option (SkipList Dbl × List ℕ)
  unfolding remove score_of
  without_old s update score member = elim (score_of s member) [
    | none ↦ some (s, update)
    | some old ↦ elim (o.equal old score) [
      | true ↦ some (s, update)
      | false ↦ do
        (_, s') ← remove s old member
        update' ← search_list (precedes score member) s'
        some (s', update')
    ]
  ]

  abbrev pub pair_there : SkipList Dbl → List ℕ → Dbl → Text → Bool
  pair_there s update score member = elim (found s.nodes update) [
    | none ↦ false
    | some next ↦ is_pair score member (node_at s.nodes next)
  ]

  -- `insert`, where its first search has ended.
  unfoldable pub insert_at : SkipList Dbl → (ℕ → Bool) → Dbl → Text → List ℕ → Option (SkipList Dbl)
  unfolding without_old put_in random_level
  insert_at s draw score member update = elim (pair_there s update score member) [
    | true ↦ some s
    | false ↦ do
      (s', update') ← without_old s update score member
      some (put_in s' update' (random_level draw) score member)
  ]

  unfoldable pub insert : SkipList Dbl → (ℕ → Bool) → Dbl → Text → Option (SkipList Dbl)
  unfolding insert_at search_list
  insert s draw score member = do
    update ← search_list (precedes score member) s
    insert_at s draw score member update

  -- The loop of `range_by_score` along the bottom level.
  unfoldable pub collect :
      ℕ → (SkipNode Dbl → Bool) → List (SkipNode Dbl) → Option ℕ → Option (List (Dbl × Text))
  collect fuel test nodes none = some []
  collect zero test nodes (some p) = none
  collect (suc fuel) test nodes (some p) =
      let n = node_at nodes p in
      elim (test n) [
        | true ↦ do
          rest ← collect fuel test nodes (next_of nodes p 0)
          some ((n.score, n.member) ∷ rest)
        | false ↦ some []
      ]

  unfoldable pub range_by_score : SkipList Dbl → Dbl → Dbl → Option (List (Dbl × Text))
  unfolding search_list collect
  range_by_score s min_score max_score = do
    update ← search_list (λ n. o.less n.score min_score) s
    collect (length s.nodes) (λ n. o.leq n.score max_score) s.nodes (found s.nodes update)

  -- The loop of `range_by_rank`.
  unfoldable pub collect_ranks :
      ℕ → List (SkipNode Dbl) → ℤ → ℤ → Option ℕ → ℤ → Option (List (Dbl × Text))
  collect_ranks fuel nodes start stop none idx = some []
  collect_ranks zero nodes start stop (some p) idx = none
  collect_ranks (suc fuel) nodes start stop (some p) idx =
      let n = node_at nodes p in
      elim (leb_ℤ idx stop) [
        | true ↦ do
          rest ← collect_ranks fuel nodes start stop (next_of nodes p 0) (idx +ℤ pos 1)
          some (if leb_ℤ start idx then (n.score, n.member) ∷ rest else rest)
        | false ↦ some []
      ]

  unfoldable pub range_by_rank : SkipList Dbl → ℤ → ℤ → Option (List (Dbl × Text))
  unfolding collect_ranks
  range_by_rank s start stop =
      collect_ranks (length s.nodes) s.nodes start stop (next_of s.nodes 0 0) (pos 0)
