-- ===== src/Graph/Dynamic/History.antt =====
-- Any sequence of the updates of src/graph/dynamic_graph.cpp, from the empty graph on.
use fast_graph.Prelude.{ℕ, ℤ, List, [], ◌∷◌, Option, Text}
use fast_graph.Graph.Dynamic.{DynamicGraph, empty, add_node, add_edge, remove_edge, remove_node}
use fast_graph.Graph.Dynamic.Mirror.{
  IsMirrored, empty-IsMirrored, add_node-IsMirrored, add_edge-IsMirrored, remove_edge-IsMirrored,
  remove_node-IsMirrored,
}

pub data Update (W : Type 0) : Type 0 where
  node_added : ℤ → Option ℕ → Text → Update W
  edge_added : ℤ → ℤ → Text → W → Update W
  edge_removed : ℤ → ℤ → Text → Update W
  node_removed : ℤ → Update W

module _ {W : Type 0} where
  abbrev pub apply : DynamicGraph W → Update W → DynamicGraph W
  apply g (node_added id label props) = add_node g id label props
  apply g (edge_added from to rel w) = add_edge g from to rel w
  apply g (edge_removed from to rel) = remove_edge g from to rel
  apply g (node_removed id) = remove_node g id

  abbrev pub run : DynamicGraph W → List (Update W) → DynamicGraph W
  run g [] = g
  run g (u ∷ us) = run (apply g u) us

  apply-IsMirrored : (g : DynamicGraph W) (u : Update W) → IsMirrored g → IsMirrored (apply g u)
  apply-IsMirrored g (node_added id label props) v = add_node-IsMirrored g id label props v
  apply-IsMirrored g (edge_added from to rel w) v = add_edge-IsMirrored g from to rel w v
  apply-IsMirrored g (edge_removed from to rel) v = remove_edge-IsMirrored g from to rel v
  apply-IsMirrored g (node_removed id) v = remove_node-IsMirrored g id v

  all-IsMirrored :
      (g : DynamicGraph W) (us : List (Update W)) → IsMirrored g → IsMirrored (run g us)
  all-IsMirrored g [] v = v
  all-IsMirrored g (u ∷ us) v = all-IsMirrored (apply g u) us (apply-IsMirrored g u v)

-- After any sequence of updates from the empty graph, the forward and the reverse lists hold the
-- same edges: for any two nodes and any test of relation and weight, as many edges that pass stand
-- in the forward list of the one as in the reverse list of the other.
pub run-IsMirrored : {W : Type 0} (us : List (Update W)) → IsMirrored (run empty us)
run-IsMirrored us = all-IsMirrored empty us empty-IsMirrored
