-- ===== src/Graph/Dynamic/NodeRemoval.antt =====
-- `remove_node` and `has_edge` of src/graph/dynamic_graph.cpp.
use fast_graph.Prelude.{
  ◌<◌, ◌≡◌, refl, ◌≢◌, ◌↔◌, ◌⊎◌, inl, inr, true, false, arith, ℤ, nat_eq, int_eq, text_eq, eq_refl,
}
use fast_graph.Prelude.Dict.{find-erase}
use fast_graph.Graph.Dynamic.{
  DynamicGraph, edges_at, neighbors, any_to, has_node, has_edge, remove_node, or_empty,
}
use fast_graph.Graph.Dynamic.Lists.{count_to, any_to_iff}
use fast_graph.Graph.Dynamic.Mirror.{
  IsMirrored, count_to-neighbors-remove_node, count_to-reverse_neighbors-remove_node,
  remove_node-IsMirrored,
}

module _ {W : Type 0} where
  pub has_edge-any_to : (g : DynamicGraph W) (a b : ℤ) → has_edge g a b ≡ any_to b (neighbors g a)
  unfolding has_edge neighbors edges_at or_empty any_to
  has_edge-any_to g a b = ground arith

  has_edge-count_to :
      (g : DynamicGraph W) (a b : ℤ)
      → (has_edge g a b ≡ true) ↔ (0 < count_to b (λ _ _. true) (neighbors g a))
  has_edge-count_to g a b = rw (has_edge-any_to g a b) (any_to_iff b (neighbors g a))

  has_edge_removed :
      (g : DynamicGraph W) (id a b : ℤ)
      → IsMirrored g
      → (id ≡ a) ⊎ (id ≡ b)
      → has_edge (remove_node g id) a b ≡ false
  has_edge_removed g id a b v h =
      let g' = remove_node g id in
      ground (
        arith,
        h,
        has_edge-count_to g' a b,
        (remove_node-IsMirrored g id v).mirror a b (λ _ _. true),
        count_to-neighbors-remove_node g id a b (λ _ _. true),
        count_to-reverse_neighbors-remove_node g id a b (λ _ _. true),
        int_eq.beq_iff id a,
        int_eq.beq_iff id b,
        int_eq.beq_iff b id,
        v.mirror a id (λ _ _. true),
      )

  -- After `remove_node` on a mirrored graph the node is unknown, and no edge leaves it or leads to
  -- it; between two other nodes the edges are as before.
  pub remove_node_lem :
      (g : DynamicGraph W) (id : ℤ)
      → IsMirrored g
      → (has_node (remove_node g id) id ≡ false)
        × ((a : ℤ) → has_edge (remove_node g id) id a ≡ false)
        × ((a : ℤ) → has_edge (remove_node g id) a id ≡ false)
        × ((a b : ℤ) → id ≢ a → id ≢ b → has_edge (remove_node g id) a b ≡ has_edge g a b)
  unfolding has_node remove_node
  remove_node_lem g id v = (
    rw (find-erase id id g.meta, eq_refl id),
    λ a. has_edge_removed g id id a v (inl refl),
    λ a. has_edge_removed g id a id v (inr refl),
    λ a b ne ne'. ground (
      arith,
      has_edge-count_to g a b,
      has_edge-count_to (remove_node g id) a b,
      count_to-neighbors-remove_node g id a b (λ _ _. true),
      int_eq.beq_iff id a,
      int_eq.beq_iff b id,
    ),
  )
