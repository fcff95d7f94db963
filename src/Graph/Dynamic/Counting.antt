-- ===== src/Graph/Dynamic/Counting.antt =====
-- `edge_count_` of src/graph/dynamic_graph.hpp under `add_edge` and `remove_edge`.
use fast_graph.Prelude.{
  ℕ, ◌<◌, ◌≡◌, refl, true, List, [], ◌∷◌, arith, ltb, if◌then◌else◌, ℤ, pos, ◌-ℤ◌, int_laws, ◌==◌,
  nat_eq, int_eq, text_eq, Text, ltb-true,
}
use fast_graph.Graph.Dynamic.{
  Edge, DynamicGraph, edges_at, neighbors, reverse_neighbors, add_edge, is_edge, removed,
  remove_edge,
}
use fast_graph.Graph.Dynamic.Lists.{count_to, count_to-append, edges_at-push_edge}
use fast_graph.Graph.Dynamic.Mirror.{IsMirrored, add_edge-IsMirrored}

module _ {W : Type 0} where
  -- How many edges of one relation lead from one node to another.
  abbrev pub multiplicity : DynamicGraph W → ℤ → ℤ → Text → ℕ
  multiplicity g from to rel = count_to to (λ r _. r == rel) (neighbors g from)

  removed-count_to :
      (t : ℤ) (r : Text) (es : List (Edge W))
      → removed (is_edge t r) es
        ≡ (if ltb 0 (count_to t (λ rel _. rel == r) es) then pos 1 else pos 0)
  unfolding removed count_to
  removed-count_to t r [] = refl
  removed-count_to t r (e ∷ es) = ground (arith, removed-count_to t r es)

  -- On a mirrored graph, removing an edge that is there takes two off `edge_count_`, whatever the
  -- number of edges that go; removing one that is not there leaves it.
  pub edge_count-remove_edge :
      (g : DynamicGraph W) (from to : ℤ) (rel : Text)
      → IsMirrored g
      → (remove_edge g from to rel).edge_count ≡ (
          if ltb 0 (multiplicity g from to rel)
          then g.edge_count -ℤ pos 1 -ℤ pos 1
          else g.edge_count -ℤ pos 0 -ℤ pos 0)
  unfolding remove_edge neighbors reverse_neighbors
  edge_count-remove_edge g from to rel v = ground (
    arith,
    removed-count_to to rel (edges_at g.adj from),
    removed-count_to from rel (edges_at g.radj to),
    v.mirror from to (λ r _. r == rel),
  )

  multiplicity-add_edge :
      (g : DynamicGraph W) (from to : ℤ) (rel : Text) (w : W)
      → 0 < multiplicity (add_edge g from to rel w) from to rel
  unfolding add_edge neighbors count_to
  multiplicity-add_edge g from to rel w =
      let e : Edge W = record { to = to; rel_type = rel; weight = w } in
      ground (
        arith,
        edges_at-push_edge from from e g.adj,
        count_to-append to (λ r _. r == rel) (edges_at g.adj from) (e ∷ []),
        int_eq.beq_iff from from,
        int_eq.beq_iff to to,
        text_eq.beq_iff rel rel,
      )

  -- An edge that is added and removed again leaves `edge_count_` one lower than before, on every
  -- mirrored graph.
  pub edge_count-remove_edge-add_edge :
      (g : DynamicGraph W) (from to : ℤ) (rel : Text) (w : W)
      → IsMirrored g
      → (remove_edge (add_edge g from to rel w) from to rel).edge_count ≡ g.edge_count -ℤ pos 1
  edge_count-remove_edge-add_edge g from to rel w v =
      let g' = add_edge g from to rel w in
      let there : ltb 0 (multiplicity g' from to rel) ≡ true =
        ltb-true 0 _ (multiplicity-add_edge g from to rel w) in
      rw (edge_count-remove_edge g' from to rel (add_edge-IsMirrored g from to rel w v), there)
        (unfold add_edge in omega int_laws)
