-- ===== src/Dispatch/Interface.antt =====
-- The engines as the dispatcher calls them: each call that can change the engines returns their new
-- state. The floating-point types and their conversions are parameters.
use fast_graph.Prelude.{ℕ, Bool, Option, List, ℤ, nat_eq, int_eq, text_eq, Text}
use fast_graph.Graph.Dynamic.{Edge}
use fast_graph.Dispatch.Exceptions.{Throws}

-- `float` and `double`: `std::stof`, `std::stod`, `std::to_string`.
pub record Floats (Flt Dbl : Type 0) : Type 0 where
  pub one : Flt
  pub stof : Text → Throws Flt
  pub stod : Text → Throws Dbl
  pub to_string_flt : Flt → Text
  pub to_string_dbl : Dbl → Text

pub record WeightedPath (Flt : Type 0) : Type 0 where
  pub nodes : List ℤ
  pub rels : List Text
  pub cost : Flt

pub record HopResult : Type 0 where
  pub node : ℤ
  pub hop : ℤ
  pub via : ℤ
  pub rel_type : Text

pub record Engines (Flt Dbl S : Type 0) : Type 0 where
  -- `KVEngine`
  pub kv_set : S → Text → Text → ℤ → S
  pub kv_get : S → Text → Option Text × S
  pub kv_del : S → Text → Bool × S
  pub kv_exists : S → Text → Bool × S
  pub kv_expire : S → Text → ℤ → Bool × S
  pub kv_ttl : S → Text → ℤ
  pub kv_persist : S → Text → Bool × S
  pub kv_size : S → ℕ
  -- `GraphEngine`, with the traversals over its graph. The label of a node may be a null pointer, for
  -- which `std::string` throws an exception with this `what()`.
  pub null_what : Text
  pub add_node : S → ℤ → Text → Text → S
  pub remove_node : S → ℤ → Throws S
  pub add_edge : S → ℤ → ℤ → Text → Flt → S
  pub remove_edge : S → ℤ → ℤ → Text → S
  pub node_meta : S → ℤ → Option (Option Text × Text)
  pub has_node : S → ℤ → Bool
  pub has_edge : S → ℤ → ℤ → Bool
  pub neighbors : S → ℤ → List (Edge Flt)
  pub reverse_neighbors : S → ℤ → List (Edge Flt)
  pub nodes_by_label : S → Text → List ℤ × S
  pub bfs_path : S → ℤ → ℤ → Text → List ℤ × S
  pub dijkstra_path : S → ℤ → ℤ → Text → WeightedPath Flt
  pub bfs_neighborhood : S → ℤ → ℤ → Text → List HopResult
  pub bfs_component : S → ℤ → List ℤ
  pub has_cycle : S → Bool
  pub dijkstra_all : S → ℤ → List (ℤ × Flt)
  pub node_count : S → ℤ
  pub edge_count : S → ℤ
  pub index_property : S → Text → Text → Dbl → ℤ → S
  pub range_query : S → Text → Text → Dbl → Dbl → List ℤ
  pub exact_query : S → Text → Text → Dbl → List ℤ
  -- `SortedSetEngine`
  pub zadd : S → Text → Dbl → Text → ℤ × S
  pub zrem : S → Text → Text → Bool × S
  pub zscore : S → Text → Text → Option Dbl
  pub zrange : S → Text → ℤ → ℤ → List (Dbl × Text)
  pub zrangebyscore : S → Text → Dbl → Dbl → List (Dbl × Text)
  pub zcard : S → Text → ℤ
  pub zrank : S → Text → Text → ℤ
  -- `Persistence`
  pub bgsave : S → Bool × S
  pub load : S → Bool × S
  pub save : S → Bool × S
