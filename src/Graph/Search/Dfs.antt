-- ===== src/Graph/Search/Dfs.antt =====
-- `dfs_component` of src/graph/dfs.cpp. The top of the stack is the head of the list.
pub mod Loop
pub mod Correct
use fast_graph.Prelude.{
  ℕ, zero, suc, ◌+◌, ◌-◌, ◌*◌, ◌/◌, ◌%◌, ◌^◌, ◌≤◌, ◌<◌, min, max, ◌≡◌, refl, sym, ap, subst, ◌∙◌,
  ◌≢◌, ◌↔◌, ◌⊎◌, inl, inr, ⊎_elim, Bool, true, false, not, ◌&&◌, ◌||◌, Option, none, some, List, [],
  ◌∷◌, ◌++◌, map, append-nil, append_assoc, arith, ltb, leb, if◌then◌else◌, Bool-cases,
  Option-cases, List-cases, length, get_elem?, get_or, set, take, drop, replicate, length-append,
  length-set, get_or-set_self, get_or-set_ne, length-take, length-drop, take-append_all,
  drop-append_all, ℤ, pos, negsuc, pos_part, neg_part, ◌+ℤ◌, ◌-ℤ◌, ◌≤ℤ◌, ◌<ℤ◌, ltb_ℤ, leb_ℤ,
  int_laws, Eq, ◌==◌, nat_eq, int_eq, text_eq, Text, eq_refl, eq_true, eq_false, eq_symm, ltb-true,
  ltb-false, leb-true, leb-false, drop-drop, get_or-drop, drop-append_of_length, drop-nil, take_all,
}
use fast_graph.Prelude.Dict.{Dict}
use fast_graph.Graph.Dynamic.{Edge, DynamicGraph, neighbors}
use fast_graph.Graph.Search.{marked, mark, all_targets}

pub record Dfs : Type 0 where
  pub visited : Dict ℤ Bool
  pub stack : List ℤ
  pub component : List ℤ

abbrev pub start : ℤ → Dfs
start source = record { visited = []; stack = source ∷ []; component = [] }

module _ {W : Type 0} where
  -- The inner loop: the unvisited targets are pushed.
  unfoldable pub push_unvisited : Dict ℤ Bool → List (Edge W) → List ℤ → List ℤ
  push_unvisited visited [] stack = stack
  push_unvisited visited (e ∷ es) stack =
      push_unvisited visited es (if marked visited e.to then stack else e.to ∷ stack)

  unfoldable pub visit : DynamicGraph W → Dfs → ℤ → List ℤ → Dfs
  unfolding push_unvisited
  visit g s node rest = if marked s.visited node then record s { stack = rest } else record {
    visited = mark node s.visited;
    stack = push_unvisited (mark node s.visited) (neighbors g node) rest;
    component = s.component ++ node ∷ [];
  }

  -- `none` stands for fuel that has run out.
  unfoldable pub loop : DynamicGraph W → ℕ → Dfs → Option (List ℤ)
  unfolding visit
  loop g zero s = none
  loop g (suc fuel) s = elim s.stack [
    | [] ↦ some s.component
    | node ∷ rest ↦ loop g fuel (visit g s node rest)
  ]

  -- Each edge pushes its target once at most.
  unfoldable pub dfs_component : DynamicGraph W → ℤ → Option (List ℤ)
  unfolding loop
  dfs_component g source = loop g (length (all_targets g.adj) + 2) (start source)
