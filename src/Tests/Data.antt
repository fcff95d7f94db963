-- ===== src/Tests/Data.antt =====
-- Small graphs, and engines that only count the calls that reach them.
use fast_graph.Prelude.{ℕ, suc, pos, negsuc, List, [], ◌∷◌, none, some, true, false}
use fast_graph.Dispatch.Exceptions.{ok, codes}
use fast_graph.Dispatch.Interface.{Floats, Engines, WeightedPath}
use fast_graph.Graph.Dynamic.{DynamicGraph, empty}
use fast_graph.Graph.Dynamic.History.{Update, node_added, edge_added, node_removed, run}

-- 1 → 2 → 3 → 1, and 3 → 4, without the node 5 that was linked to both ends
abbrev pub updates : List (Update ℕ)
updates =
    node_added (pos 1) none []
    ∷ node_added (pos 2) (some 0) (codes "p")
    ∷ edge_added (pos 1) (pos 2) (codes "knows") 1
    ∷ edge_added (pos 2) (pos 3) (codes "knows") 2
    ∷ edge_added (pos 3) (pos 1) (codes "likes") 3
    ∷ edge_added (pos 1) (pos 5) (codes "likes") 3
    ∷ edge_added (pos 5) (pos 1) (codes "likes") 3
    ∷ edge_added (pos 3) (pos 4) (codes "likes") 3
    ∷ node_removed (pos 5)
    ∷ []

abbrev pub graph : DynamicGraph ℕ
graph = run empty updates

abbrev pub floats : Floats ℕ ℕ
floats = record {
  one = 1;
  stof = λ _. ok 0;
  stod = λ _. ok 0;
  to_string_flt = λ _. codes "0";
  to_string_dbl = λ _. codes "0";
}

abbrev no_path : WeightedPath ℕ
no_path = record { nodes = []; rels = []; cost = 0 }

abbrev pub engines : Engines ℕ ℕ ℕ
engines = record {
  kv_set = λ s _ _ _. suc s;
  kv_get = λ s _. (none, s);
  kv_del = λ s _. (true, suc s);
  kv_exists = λ s _. (false, s);
  kv_expire = λ s _ _. (true, suc s);
  kv_ttl = λ _ _. negsuc 1;
  kv_persist = λ s _. (false, s);
  kv_size = λ s. s;
  add_node = λ s _ _ _. suc s;
  null_what = codes "null";
  remove_node = λ s _. ok (suc s);
  add_edge = λ s _ _ _ _. suc s;
  remove_edge = λ s _ _ _. suc s;
  node_meta = λ _ _. none;
  has_node = λ _ _. false;
  has_edge = λ _ _ _. false;
  neighbors = λ _ _. [];
  reverse_neighbors = λ _ _. [];
  nodes_by_label = λ s _. ([], s);
  bfs_path = λ s _ _ _. ([], s);
  dijkstra_path = λ _ _ _ _. no_path;
  bfs_neighborhood = λ _ _ _ _. [];
  bfs_component = λ _ id. id ∷ [];
  has_cycle = λ _. false;
  dijkstra_all = λ _ _. [];
  node_count = λ s. pos s;
  edge_count = λ s. pos s;
  index_property = λ s _ _ _ _. suc s;
  range_query = λ _ _ _ _ _. [];
  exact_query = λ _ _ _ _. [];
  zadd = λ s _ _ _. (pos 1, suc s);
  zrem = λ s _ _. (true, suc s);
  zscore = λ _ _ _. none;
  zrange = λ _ _ _ _. [];
  zrangebyscore = λ _ _ _ _. [];
  zcard = λ _ _. pos 0;
  zrank = λ _ _ _. negsuc 0;
  bgsave = λ s. (true, s);
  load = λ s. (true, s);
  save = λ s. (true, s);
}
