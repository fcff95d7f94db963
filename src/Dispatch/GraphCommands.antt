-- ===== src/Dispatch/GraphCommands.antt =====
-- `Dispatcher::handle_graph` of src/dispatch/dispatcher.cpp. An exception becomes an error reply.
use fast_graph.Prelude.{
  ◌&&◌, Option, none, some, List, [], ◌∷◌, ◌++◌, map, leb, if◌then◌else◌, length, ℤ, ◌==◌, nat_eq,
  int_eq, text_eq, Text,
}
use fast_graph.Protocol.Decimal.{to_string_ℤ}
use fast_graph.Protocol.Encoder.{simple_string, null_bulk, integer, array}
use fast_graph.Protocol.Encoder
use fast_graph.Graph.Dynamic.{Edge}
use fast_graph.Dispatch.Exceptions.{Throws, ok, thrown, ◌>>=◌, answer, codes, stoi}
use fast_graph.Dispatch.Interface.{Engines, Floats, WeightedPath, HopResult}
use fast_graph.Dispatch.Kv.{arg_at, bool_integer}

-- What the `catch` clause makes of a handler's result in the state `s`: each branch converts its
-- arguments before it calls an engine, and a call that throws has changed nothing, so that no change
-- is lost.
abbrev pub catch_errors : {S : Type 0} → S → Throws (Text × S) → Text × S
catch_errors s (ok r) = r
catch_errors s (thrown what) = (Encoder.error (codes "bad args: " ++ what), s)

abbrev pub id_array : List ℤ → Text
id_array ids = array (map to_string_ℤ ids)

-- `path.empty() ? null_bulk() : array(out)`
abbrev pub path_reply : List ℤ → Text
path_reply [] = null_bulk
path_reply (id ∷ ids) = id_array (id ∷ ids)

-- The reply of GRAPH.NODE. A null label throws, with `null_what` as its `what()`.
abbrev pub meta_reply : Text → Option (Option Text × Text) → Throws Text
meta_reply null_what none = ok null_bulk
meta_reply null_what (some (none, props)) = thrown null_what
meta_reply null_what (some (some label, props)) =
    ok (array (codes "label" ∷ label ∷ codes "props" ∷ props ∷ []))

unfoldable pub hop_fields : List HopResult → List Text
hop_fields [] = []
hop_fields (r ∷ rs) =
    to_string_ℤ r.node ∷ to_string_ℤ r.hop ∷ to_string_ℤ r.via ∷ r.rel_type ∷ hop_fields rs

module _ {Flt Dbl S : Type 0} (f : Floats Flt Dbl) (e : Engines Flt Dbl S) where
  unfoldable pub edge_fields : List (Edge Flt) → List Text
  edge_fields [] = []
  edge_fields (x ∷ xs) = to_string_ℤ x.to ∷ x.rel_type ∷ f.to_string_flt x.weight ∷ edge_fields xs

  unfoldable pub reverse_edge_fields : List (Edge Flt) → List Text
  reverse_edge_fields [] = []
  reverse_edge_fields (x ∷ xs) = to_string_ℤ x.to ∷ x.rel_type ∷ reverse_edge_fields xs

  unfoldable pub distance_fields : List (ℤ × Flt) → List Text
  distance_fields [] = []
  distance_fields ((node, dist) ∷ ds) = to_string_ℤ node ∷ f.to_string_flt dist ∷ distance_fields ds

  unfoldable pub weighted_path_reply : WeightedPath Flt → Text
  weighted_path_reply p = elim p.nodes [
    | [] ↦ null_bulk
    | node ∷ nodes ↦ array (
        codes "cost"
        ∷ f.to_string_flt p.cost
        ∷ codes "path"
        ∷ (map to_string_ℤ (node ∷ nodes) ++ codes "rels" ∷ p.rels))
  ]

  -- The branches that change nodes and edges; `none` where no branch takes the command.
  unfoldable pub graph_updates : Text → List Text → S → Option (Throws (Text × S))
  graph_updates cmd args s =
      let n = length args in
      let ok_reply = simple_string (codes "OK") in
      if cmd == codes "GRAPH.ADD_NODE" && leb 4 n
      then some (
          stoi (arg_at args 1)
          >>= (λ id. ok (ok_reply, e.add_node s id (arg_at args 2) (arg_at args 3))))
      else if cmd == codes "GRAPH.ADD_NODE" && n == 3
      then some (
          stoi (arg_at args 1)
          >>= (λ id. ok (ok_reply, e.add_node s id (arg_at args 2) (codes "{}"))))
      else if cmd == codes "GRAPH.DEL_NODE" && leb 2 n
      then some (stoi (arg_at args 1) >>= (λ id. e.remove_node s id >>= (λ s'. ok (ok_reply, s'))))
      else if cmd == codes "GRAPH.ADD_EDGE" && leb 4 n
      then some (
          stoi (arg_at args 1) >>= (λ from. stoi (arg_at args 2) >>= (λ to.
            (if leb 5 n then f.stof (arg_at args 4) else ok f.one)
            >>= (λ weight. ok (ok_reply, e.add_edge s from to (arg_at args 3) weight)))))
      else if cmd == codes "GRAPH.DEL_EDGE" && leb 4 n
      then some (
          stoi (arg_at args 1) >>= (λ from.
            stoi (arg_at args 2)
            >>= (λ to. ok (ok_reply, e.remove_edge s from to (arg_at args 3)))))
      else none

  -- The branches that read nodes and edges.
  unfoldable pub graph_reads : Text → List Text → S → Option (Throws (Text × S))
  unfolding edge_fields reverse_edge_fields
  graph_reads cmd args s =
      let n = length args in
      if cmd == codes "GRAPH.NODE" && leb 2 n
      then some (
          stoi (arg_at args 1)
          >>= (λ id. meta_reply e.null_what (e.node_meta s id) >>= (λ r. ok (r, s))))
      else if cmd == codes "GRAPH.HAS_NODE" && leb 2 n
      then some (stoi (arg_at args 1) >>= (λ id. ok (bool_integer (e.has_node s id), s)))
      else if cmd == codes "GRAPH.HAS_EDGE" && leb 3 n
      then some (
          stoi (arg_at args 1)
          >>= (λ a. stoi (arg_at args 2) >>= (λ b. ok (bool_integer (e.has_edge s a b), s))))
      else if cmd == codes "GRAPH.NEIGHBORS" && leb 2 n
      then some (stoi (arg_at args 1) >>= (λ id. ok (array (edge_fields (e.neighbors s id)), s)))
      else if cmd == codes "GRAPH.REVNEIGHBORS" && leb 2 n
      then some (
          stoi (arg_at args 1)
          >>= (λ id. ok (array (reverse_edge_fields (e.reverse_neighbors s id)), s)))
      else if cmd == codes "GRAPH.LABEL_NODES" && leb 2 n
      then some (answer id_array (e.nodes_by_label s (arg_at args 1)))
      else none

  -- The traversals.
  unfoldable pub graph_searches : Text → List Text → S → Option (Throws (Text × S))
  unfolding weighted_path_reply hop_fields distance_fields
  graph_searches cmd args s =
      let n = length args in
      let rel = if leb 4 n then arg_at args 3 else [] in
      if cmd == codes "GRAPH.PATH" && leb 3 n
      then some (
          stoi (arg_at args 1) >>= (λ src.
            stoi (arg_at args 2) >>= (λ dst. answer path_reply (e.bfs_path s src dst rel))))
      else if cmd == codes "GRAPH.WPATH" && leb 3 n
      then some (
          stoi (arg_at args 1) >>= (λ src.
            stoi (arg_at args 2)
            >>= (λ dst. ok (weighted_path_reply (e.dijkstra_path s src dst rel), s))))
      else if cmd == codes "GRAPH.NEIGHBORHOOD" && leb 3 n
      then some (
          stoi (arg_at args 1) >>= (λ src.
            stoi (arg_at args 2)
            >>= (λ hops. ok (array (hop_fields (e.bfs_neighborhood s src hops rel)), s))))
      else if cmd == codes "GRAPH.COMPONENT" && leb 2 n
      then some (stoi (arg_at args 1) >>= (λ src. ok (id_array (e.bfs_component s src), s)))
      else if cmd == codes "GRAPH.HAS_CYCLE"
      then some (ok (bool_integer (e.has_cycle s), s))
      else if cmd == codes "GRAPH.DISTANCES" && leb 2 n
      then some
          (stoi (arg_at args 1) >>= (λ src. ok (array (distance_fields (e.dijkstra_all s src)), s)))
      else if cmd == codes "GRAPH.INFO"
      then some (
          ok (
            array (
                codes "nodes"
                ∷ to_string_ℤ (e.node_count s)
                ∷ codes "edges"
                ∷ to_string_ℤ (e.edge_count s)
                ∷ []),
            s,
          ))
      else none

  -- The property index. The order in which the two conversions of `INDEX_PROP` are made is not
  -- specified; here the value comes first.
  unfoldable pub graph_index : Text → List Text → S → Option (Throws (Text × S))
  graph_index cmd args s =
      let n = length args in
      if cmd == codes "GRAPH.INDEX_PROP" && leb 5 n
      then some (
          f.stod (arg_at args 4) >>= (λ value. stoi (arg_at args 1) >>= (λ id. ok (
            simple_string (codes "OK"),
            e.index_property s (arg_at args 2) (arg_at args 3) value id,
          ))))
      else if cmd == codes "GRAPH.RANGE" && leb 5 n
      then some (
          f.stod (arg_at args 3) >>= (λ lo.
            f.stod (arg_at args 4)
            >>= (λ hi. ok (id_array (e.range_query s (arg_at args 1) (arg_at args 2) lo hi), s))))
      else if cmd == codes "GRAPH.EXACT" && leb 4 n
      then some (
          f.stod (arg_at args 3)
          >>= (λ v. ok (id_array (e.exact_query s (arg_at args 1) (arg_at args 2) v), s)))
      else none

  abbrev or_else {ℓ} : {A : Type ℓ} → Option A → Option A → Option A
  or_else none b = b
  or_else (some a) b = some a

  -- The branches in their order.
  unfoldable pub handle_graph : Text → List Text → S → Text × S
  unfolding graph_updates graph_reads graph_searches graph_index
  handle_graph cmd args s =
      elim (or_else (graph_updates cmd args s) (
        or_else (graph_reads cmd args s)
          (or_else (graph_searches cmd args s) (graph_index cmd args s)))) [
            | some r ↦ catch_errors s r
            | none ↦
                (Encoder.error (codes "unknown graph command '" ++ (arg_at args 0 ++ codes "'")), s)
          ]
