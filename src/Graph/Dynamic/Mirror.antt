-- ===== src/Graph/Dynamic/Mirror.antt =====
-- The forward and the reverse lists of src/graph/dynamic_graph.hpp, under each update.
use fast_graph.Prelude.{
  ℕ, ◌≡◌, refl, ◌∙◌, Bool, false, not, ◌&&◌, Option, List, [], ◌∷◌, arith, if◌then◌else◌, ℤ, ◌==◌,
  nat_eq, int_eq, text_eq, Text,
}
use fast_graph.Prelude.Dict
use fast_graph.Graph.Dynamic.{
  Edge, DynamicGraph, edges_at, neighbors, reverse_neighbors, any_to, empty, add_node, add_edge,
  is_edge, remove_if, remove_edge, detach, remove_node,
}
use fast_graph.Graph.Dynamic.Lists.{
  count_to, count_to-append, count_to-remove_edge, edges_at-put, edges_at-erase, edges_at-touch,
  edges_at-push_edge, count_to-detach, count_to-eq-zero,
}

module _ {W : Type 0} where
  -- From `a` to `b` as many edges of every kind stand in the list of `a` as in the reverse list of
  -- `b`.
  pub record IsMirrored (g : DynamicGraph W) : Type 0 where
    pub mirror :
        (a b : ℤ) (q : Text → W → Bool)
        → count_to b q (neighbors g a) ≡ count_to a q (reverse_neighbors g b)

  pub empty-IsMirrored : IsMirrored empty
  unfolding empty neighbors reverse_neighbors edges_at count_to Dict.find
  empty-IsMirrored = record { mirror = λ a b q. refl }

  pub add_node-IsMirrored :
      (g : DynamicGraph W) (id : ℤ) (label : Option ℕ) (props : Text)
      → IsMirrored g
      → IsMirrored (add_node g id label props)
  unfolding add_node neighbors reverse_neighbors
  add_node-IsMirrored g id label props v = record {
    mirror = λ a b q. rw (edges_at-touch, edges_at-touch) (v.mirror a b q);
  }

  pub add_edge-IsMirrored :
      (g : DynamicGraph W) (from to : ℤ) (rel : Text) (w : W)
      → IsMirrored g
      → IsMirrored (add_edge g from to rel w)
  unfolding add_edge neighbors reverse_neighbors count_to
  add_edge-IsMirrored g from to rel w v = record {
    mirror = λ a b q.
        let e : Edge W = record { to = to; rel_type = rel; weight = w } in
        let e' : Edge W = record { to = from; rel_type = rel; weight = w } in
        ground (
          arith,
          edges_at-push_edge from a e g.adj,
          edges_at-push_edge to b e' g.radj,
          count_to-append b q (edges_at g.adj a) (e ∷ []),
          count_to-append a q (edges_at g.radj b) (e' ∷ []),
          v.mirror a b q,
        );
  }

  pub remove_edge-IsMirrored :
      (g : DynamicGraph W) (from to : ℤ) (rel : Text)
      → IsMirrored g
      → IsMirrored (remove_edge g from to rel)
  unfolding remove_edge neighbors reverse_neighbors
  remove_edge-IsMirrored g from to rel v = record {
    mirror = λ a b q.
        let forward = remove_if (is_edge to rel) (edges_at g.adj from) in
        let backward = remove_if (is_edge from rel) (edges_at g.radj to) in
        let q' = λ (r : Text) (w : W). q r w && not (r == rel) in
        ground (
          arith,
          edges_at-put from a forward g.adj,
          edges_at-put to b backward g.radj,
          count_to-remove_edge b to rel q (edges_at g.adj from),
          count_to-remove_edge a from rel q (edges_at g.radj to),
          v.mirror a b q,
          v.mirror a b q',
          int_eq.beq_iff from a,
          int_eq.beq_iff to b,
          int_eq.beq_iff a from,
          int_eq.beq_iff b to,
        );
  }

  -- The edges at `id` that the first loop of `remove_node` leaves in its reverse list.
  abbrev pub backward_at : DynamicGraph W → ℤ → List (Edge W)
  backward_at g id = edges_at (detach id (neighbors g id) g.radj) id

  pub count_to-neighbors-remove_node :
      (g : DynamicGraph W) (id a b : ℤ) (q : Text → W → Bool)
      → count_to b q (neighbors (remove_node g id) a) ≡ (
          if any_to a (backward_at g id) && b == id
          then 0
          else if id == a
          then 0
          else count_to b q (neighbors g a))
  unfolding remove_node neighbors count_to
  count_to-neighbors-remove_node g id a b q =
      count_to-detach id (backward_at g id) (Dict.erase id g.adj) a b q
      ∙ rw (edges_at-erase id a g.adj) (ground arith)

  pub count_to-reverse_neighbors-remove_node :
      (g : DynamicGraph W) (id a b : ℤ) (q : Text → W → Bool)
      → count_to a q (reverse_neighbors (remove_node g id) b) ≡ (
          if id == b
          then 0
          else if any_to b (neighbors g id) && a == id
          then 0
          else count_to a q (reverse_neighbors g b))
  unfolding remove_node neighbors reverse_neighbors count_to
  count_to-reverse_neighbors-remove_node g id a b q =
      rw (edges_at-erase id b (detach id (edges_at g.adj id) g.radj))
        (ground (arith, count_to-detach id (edges_at g.adj id) g.radj b a q))

  pub remove_node-IsMirrored :
      (g : DynamicGraph W) (id : ℤ) → IsMirrored g → IsMirrored (remove_node g id)
  unfolding reverse_neighbors
  remove_node-IsMirrored g id v = record {
    mirror = λ a b q. ground (
      arith,
      count_to-neighbors-remove_node g id a b q,
      count_to-reverse_neighbors-remove_node g id a b q,
      backward_zero a q,
      count_to-eq-zero b q (neighbors g id),
      v.mirror a b q,
      v.mirror a id q,
      v.mirror id b q,
      int_eq.beq_iff id a,
      int_eq.beq_iff id b,
      int_eq.beq_iff a id,
      int_eq.beq_iff b id,
    );
  }
    where
      backward_zero :
          (a : ℤ) (q : Text → W → Bool)
          → any_to a (backward_at g id) ≡ false
          → (a == id) ≡ false
          → count_to a q (reverse_neighbors g id) ≡ 0
      backward_zero a q h ne = ground (
        arith,
        count_to-eq-zero a q (backward_at g id) h,
        count_to-detach id (neighbors g id) g.radj id a q,
      )
