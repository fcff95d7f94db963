-- ===== src/Tests/EngineTests.antt =====
-- Runs of the graph engine.
use fast_graph.Prelude.{
  ℕ, suc, ◌<◌, ◌≡◌, ◌≢◌, [], arith, if◌then◌else◌, ℤ, pos, ◌==◌, nat_eq, int_eq, text_eq, true, ◌⊎◌,
  false,
}
use fast_graph.Memory.Arena
use fast_graph.Memory.StringPool
use fast_graph.Memory.StringPool.Pointers.{new-IsValid}
use fast_graph.Graph.Search.{count}
use fast_graph.Graph.Engine
use fast_graph.Graph.Engine.{PropertyOps, GraphEngine, nodes_by_label}
use fast_graph.Graph.Engine.Labels.{
  nodes_by_label-add_node, nodes_by_label-remove_node, has_null_label,
}
use fast_graph.Dispatch.Exceptions.{codes, thrown, ok}
use fast_graph.Tests.Data.{graph}

-- An index that counts its entries.
abbrev counting : PropertyOps ℕ ℕ
counting = record {
  index_add = λ n _ _ _ _. suc n;
  null_what = codes "null";
  index_remove_node = λ n _ _. n;
  index_range = λ _ _ _ _ _. [];
  index_exact = λ _ _ _ _. [];
}

abbrev engine : GraphEngine ℕ ℕ ℕ
engine = record {
  graph = graph;
  csr_graph = 0;
  query_arena = Arena.new 8192 64;
  label_pool = StringPool.new 4096 256;
  prop_index = 0;
}

nodes_by_label-add_node_example :
    (0
      < count
          (pos 9)
          (nodes_by_label
            (Engine.add_node engine (pos 9) (codes "city") (codes "{}"))
            (codes "city")).0)
    × ((j : ℤ)
        → pos 9 ≢ j
        → count j
            (nodes_by_label
              (Engine.add_node engine (pos 9) (codes "city") (codes "{}"))
              (codes "city")).0
          ≡ count j (nodes_by_label engine (codes "city")).0)
nodes_by_label-add_node_example =
    nodes_by_label-add_node engine (pos 9) (codes "city") (codes "{}")
      (new-IsValid 4096 256 (omega arith)) (omega arith)

nodes_by_label-remove_node_example :
    ((has_null_label engine (pos 2) ≡ true)
      × (Engine.remove_node counting engine (pos 2) ≡ thrown (codes "null")))
    ⊎ ((has_null_label engine (pos 2) ≡ false)
        × ((e' : GraphEngine ℕ ℕ ℕ) × (Engine.remove_node counting engine (pos 2) ≡ ok e')
            × (count (pos 3) (nodes_by_label e' (codes "p")).0 ≡ (
                if pos 2 == pos 3
                then 0
                else count (pos 3) (nodes_by_label engine (codes "p")).0))))
nodes_by_label-remove_node_example =
    nodes_by_label-remove_node counting engine (pos 2) (codes "p") (pos 3)
