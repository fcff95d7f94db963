-- ===== src/Graph/Engine.antt =====
-- src/graph/graph_engine.cpp: the graph, the pool of labels and the property index behind one
-- interface. The property index and the compressed graph are parameters.
pub mod Labels
use fast_graph.Prelude.{
  ℕ, zero, suc, ◌+◌, ◌-◌, ◌*◌, ◌/◌, ◌%◌, ◌^◌, ◌≤◌, ◌<◌, min, max, ◌≡◌, refl, sym, ap, subst, ◌∙◌,
  ◌≢◌, ◌↔◌, ◌⊎◌, inl, inr, ⊎_elim, Bool, true, false, not, ◌&&◌, ◌||◌, Option, none, some, List, [],
  ◌∷◌, ◌++◌, map, append-nil, append_assoc, arith, ltb, leb, if◌then◌else◌, Bool-cases,
  Option-cases, List-cases, length, get_elem?, get_or, set, take, drop, replicate, length-append,
  length-set, get_or-set_self, get_or-set_ne, length-take, length-drop, take-append_all,
  drop-append_all, ℤ, pos, negsuc, pos_part, neg_part, ◌+ℤ◌, ◌-ℤ◌, ◌≤ℤ◌, ◌<ℤ◌, ltb_ℤ, leb_ℤ,
  int_laws, Eq, ◌==◌, nat_eq, int_eq, text_eq, Text, eq_refl, eq_true, eq_false, eq_symm, ltb-true,
  ltb-false, leb-true, leb-false, drop-drop, get_or-drop, drop-append_of_length, drop-nil, take_all,
}
use fast_graph.Prelude.Dict.{Dict}
use fast_graph.Memory.Arena
use fast_graph.Memory.Arena.{Arena}
use fast_graph.Memory.StringPool.{StringPool, intern}
use fast_graph.Graph.Dynamic
use fast_graph.Graph.Dynamic.{DynamicGraph, NodeMeta, Edge}
use fast_graph.Dispatch.Exceptions.{Throws, ok, thrown}

-- `PropertyIndex` as the engine calls it, with the label of `remove_node` as its pointer, and the
-- `what()` of the exception that `std::string` throws for a null pointer.
pub record PropertyOps (Dbl I : Type 0) : Type 0 where
  pub index_add : I → Text → Text → Dbl → ℤ → I
  pub null_what : Text
  pub index_remove_node : I → ℕ → ℤ → I
  pub index_range : I → Text → Text → Dbl → Dbl → List ℤ
  pub index_exact : I → Text → Text → Dbl → List ℤ

pub record GraphEngine (W I C : Type 0) : Type 0 where
  pub graph : DynamicGraph W
  pub csr_graph : C
  pub query_arena : Arena
  pub label_pool : StringPool
  pub prop_index : I

-- `a == b` on label pointers
abbrev pub same_ptr : Option ℕ → Option ℕ → Bool
same_ptr none none = true
same_ptr none (some q) = false
same_ptr (some p) none = false
same_ptr (some p) (some q) = p == q

-- The loop of `nodes_by_label`.
unfoldable pub labelled : Option ℕ → Dict ℤ NodeMeta → List ℤ
labelled target_ptr [] = []
labelled target_ptr ((id, meta) ∷ ms) =
    let rest = labelled target_ptr ms in
    if same_ptr meta.label_ptr target_ptr then id ∷ rest else rest

module _ {W Dbl I C : Type 0} (o : PropertyOps Dbl I) where
  -- The label becomes a `std::string`, which throws for a null pointer before anything changes.
  unfoldable pub remove_node : GraphEngine W I C → ℤ → Throws (GraphEngine W I C)
  remove_node e id = elim (Dynamic.node_meta e.graph id) [
    | none ↦ ok (record e { graph = Dynamic.remove_node e.graph id })
    | some meta ↦ elim meta.label_ptr [
      | none ↦ thrown o.null_what
      | some label_ptr ↦ ok (record e {
        prop_index = o.index_remove_node e.prop_index label_ptr id;
        graph = Dynamic.remove_node e.graph id;
      })
    ]
  ]

  unfoldable pub index_property : GraphEngine W I C → Text → Text → Dbl → ℤ → GraphEngine W I C
  index_property e label prop value node_id = record e {
    prop_index = o.index_add e.prop_index label prop value node_id;
  }

  unfoldable pub range_query : GraphEngine W I C → Text → Text → Dbl → Dbl → List ℤ
  range_query e label prop min_val max_val = o.index_range e.prop_index label prop min_val max_val

  unfoldable pub exact_query : GraphEngine W I C → Text → Text → Dbl → List ℤ
  exact_query e label prop value = o.index_exact e.prop_index label prop value

module _ {W I C : Type 0} (build_csr : DynamicGraph W → C) where
  -- `csr()`, with `compact()`
  unfoldable pub csr : GraphEngine W I C → C × GraphEngine W I C
  csr e =
      if e.graph.dirty
      then (
        build_csr e.graph,
        record e { csr_graph = build_csr e.graph; graph = record (e.graph) { dirty = false } },
      )
      else (e.csr_graph, e)

module _ {W I C : Type 0} where
  unfoldable pub add_node : GraphEngine W I C → ℤ → Text → Text → GraphEngine W I C
  add_node e id label props =
      let (interned, pool) = intern e.label_pool label in
      record e { label_pool = pool; graph = Dynamic.add_node e.graph id interned props }

  unfoldable pub add_edge : GraphEngine W I C → ℤ → ℤ → Text → W → GraphEngine W I C
  add_edge e from to rel weight = record e { graph = Dynamic.add_edge e.graph from to rel weight }

  unfoldable pub remove_edge : GraphEngine W I C → ℤ → ℤ → Text → GraphEngine W I C
  remove_edge e from to rel = record e { graph = Dynamic.remove_edge e.graph from to rel }

  unfoldable pub nodes_by_label : GraphEngine W I C → Text → List ℤ × GraphEngine W I C
  unfolding labelled
  nodes_by_label e label =
      let (target_ptr, pool) = intern e.label_pool label in
      (labelled target_ptr e.graph.meta, record e { label_pool = pool })

  unfoldable pub reset_query_arena : GraphEngine W I C → GraphEngine W I C
  reset_query_arena e = record e { query_arena = Arena.reset e.query_arena }
