-- ===== src/Tests/GraphTests.antt =====
-- Runs of the graph and its traversals.
use fast_graph.Prelude.{
  ◌≤◌, ◌≡◌, ◌≢◌, ◌↔◌, false, some, List, ℤ, pos, ◌-ℤ◌, nat_eq, int_eq, text_eq,
}
use fast_graph.Graph.Dynamic.{has_node, has_edge, add_edge, remove_edge, remove_node, empty}
use fast_graph.Graph.Dynamic.Mirror.{IsMirrored}
use fast_graph.Graph.Dynamic.History.{run, run-IsMirrored}
use fast_graph.Graph.Dynamic.Counting.{edge_count-remove_edge-add_edge}
use fast_graph.Graph.Dynamic.NodeRemoval.{remove_node_lem}
use fast_graph.Graph.Search.{count, Reach}
use fast_graph.Graph.Search.Bfs.{bfs_component}
use fast_graph.Graph.Search.Bfs.Correct.{bfs_component-Reach}
use fast_graph.Graph.Search.Dfs.{dfs_component}
use fast_graph.Graph.Search.Dfs.Correct.{dfs_component-Reach, dfs_component-bfs_component}
use fast_graph.Dispatch.Exceptions.{codes}
use fast_graph.Tests.Data.{graph, updates}

run-IsMirrored_example : IsMirrored (run empty updates)
run-IsMirrored_example = run-IsMirrored updates

remove_node_lem_example :
    (has_node (remove_node graph (pos 1)) (pos 1) ≡ false)
    × ((a : ℤ) → has_edge (remove_node graph (pos 1)) (pos 1) a ≡ false)
    × ((a : ℤ) → has_edge (remove_node graph (pos 1)) a (pos 1) ≡ false)
    × ((a b : ℤ)
        → pos 1 ≢ a
        → pos 1 ≢ b
        → has_edge (remove_node graph (pos 1)) a b ≡ has_edge graph a b)
remove_node_lem_example = remove_node_lem graph (pos 1) (run-IsMirrored updates)

edge_count-remove_edge-add_edge_example :
    (remove_edge
      (add_edge graph (pos 4) (pos 2) (codes "k") 7)
      (pos 4)
      (pos 2)
      (codes "k")).edge_count
    ≡ graph.edge_count -ℤ pos 1
edge_count-remove_edge-add_edge_example =
    edge_count-remove_edge-add_edge graph (pos 4) (pos 2) (codes "k") 7 (run-IsMirrored updates)

bfs_component-Reach_example :
    (r : List ℤ) × (bfs_component graph (pos 2) ≡ some r)
    × ((v : ℤ) → (count v r ≡ 1) ↔ ∥ Reach graph (pos 2) v ∥₁)
    × ((v : ℤ) → count v r ≤ 1)
bfs_component-Reach_example = bfs_component-Reach graph (pos 2)

dfs_component-Reach_example :
    (r : List ℤ) × (dfs_component graph (pos 2) ≡ some r)
    × ((v : ℤ) → (count v r ≡ 1) ↔ ∥ Reach graph (pos 2) v ∥₁)
    × ((v : ℤ) → count v r ≤ 1)
dfs_component-Reach_example = dfs_component-Reach graph (pos 2)

dfs_component-bfs_component_example :
    (r s : List ℤ) × (dfs_component graph (pos 1) ≡ some r)
    × (bfs_component graph (pos 1) ≡ some s)
    × ((v : ℤ) → count v r ≡ count v s)
dfs_component-bfs_component_example = dfs_component-bfs_component graph (pos 1)
