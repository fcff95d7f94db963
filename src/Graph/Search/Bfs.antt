-- ===== src/Graph/Search/Bfs.antt =====
-- `bfs_component` of src/graph/bfs.cpp.
pub mod Loop
pub mod Correct
use fast_graph.Prelude.{
  ℕ, zero, suc, ◌+◌, ◌-◌, ◌*◌, ◌/◌, ◌%◌, ◌^◌, ◌≤◌, ◌<◌, min, max, ◌≡◌, refl, sym, ap, subst, ◌∙◌,
  ◌≢◌, ◌↔◌, ◌⊎◌, inl, inr, ⊎_elim, Bool, true, false, not, ◌&&◌, ◌||◌, Option, none, some, List, [],
  ◌∷◌, ◌++◌, map, append-nil, append_assoc, arith, ltb, leb, if◌then◌else◌, Bool-cases,
  Option-cases, List-cases, length, get_elem?, get_or, set, take, drop, replicate, length-append,
  length-set, get_or-set_self, get_or-set_ne, length-take, length-drop, take-append_all,
  drop-append_all, ℤ, pos, negsuc, pos_part, neg_part, ◌+ℤ◌, ◌-ℤ◌, ◌≤ℤ◌, ◌<ℤ◌, ltb_ℤ, leb_ℤ,
  int_laws, Eq, ◌==◌, nat_eq, int_eq, text_eq, Text, eq_refl, eq_true, eq_false, eq_symm, ltb-true,
  ltb-false, leb-true, leb-false, drop-drop, get_or-drop, drop-append_of_length, drop-nil, take_all,
}
use fast_graph.Prelude.Dict.{Dict}
use fast_graph.Graph.Dynamic.{Edge, DynamicGraph, neighbors}
use fast_graph.Graph.Search.{marked, mark, all_targets}

pub record Bfs : Type 0 where
  pub visited : Dict ℤ Bool
  pub queue : List ℤ
  pub component : List ℤ

unfoldable pub offer : Bfs → ℤ → Bfs
offer s v =
    if marked s.visited v
    then s
    else record s { visited = mark v s.visited; queue = s.queue ++ v ∷ [] }

abbrev pub start : ℤ → Bfs
start source = record { visited = mark source []; queue = source ∷ []; component = [] }

module _ {W : Type 0} where
  unfoldable pub scan : Bfs → List (Edge W) → Bfs
  unfolding offer
  scan s [] = s
  scan s (e ∷ es) = scan (offer s e.to) es

  unfoldable pub expand : DynamicGraph W → Bfs → ℤ → List ℤ → Bfs
  unfolding scan
  expand g s node rest =
      scan (record s { queue = rest; component = s.component ++ node ∷ [] }) (neighbors g node)

  -- `none` stands for fuel that has run out.
  unfoldable pub loop : DynamicGraph W → ℕ → Bfs → Option (List ℤ)
  unfolding expand
  loop g zero s = none
  loop g (suc fuel) s = elim s.queue [
    | [] ↦ some s.component
    | node ∷ rest ↦ loop g fuel (expand g s node rest)
  ]

  -- A node is queued once, and all but the source are targets of edges.
  unfoldable pub bfs_component : DynamicGraph W → ℤ → Option (List ℤ)
  unfolding loop
  bfs_component g source = loop g (length (all_targets g.adj) + 2) (start source)
