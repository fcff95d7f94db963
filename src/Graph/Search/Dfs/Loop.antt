-- ===== src/Graph/Search/Dfs/Loop.antt =====
-- The loop of `dfs_component` of src/graph/dfs.cpp and its fuel.
use fast_graph.Prelude.{
  ℕ, zero, suc, ◌+◌, ◌≤◌, ◌<◌, ◌≡◌, refl, ap, inl, inr, Bool, false, some, List, [], ◌∷◌, arith,
  if◌then◌else◌, List-cases, length, length-append, ℤ, nat_eq, int_eq, text_eq,
}
use fast_graph.Prelude.Dict.{Dict, find}
use fast_graph.Graph.Dynamic.{Edge, DynamicGraph, neighbors, edges_at, or_empty}
use fast_graph.Graph.Search.{marked, mark, marked-mark, tos, all_targets}
use fast_graph.Graph.Search.Dfs.{Dfs, push_unvisited, visit, loop}

module _ {W : Type 0} where
  length-tos : (es : List (Edge W)) → length (tos es) ≡ length es
  length-tos [] = refl
  length-tos (e ∷ es) = ap suc (length-tos es)

  length-push_unvisited-le :
      (m : Dict ℤ Bool) (es : List (Edge W)) (stack : List ℤ)
      → length (push_unvisited m es stack) ≤ length es + length stack
  unfolding push_unvisited
  length-push_unvisited-le m [] stack = omega arith
  length-push_unvisited-le m (e ∷ es) stack =
      ground (arith, length-push_unvisited-le m es (if marked m e.to then stack else e.to ∷ stack))

  -- The edges that leave nodes not yet visited.
  unfoldable pub open_edges : Dict ℤ Bool → Dict ℤ (List (Edge W)) → ℕ
  open_edges m [] = 0
  open_edges m ((k, es) ∷ adj) = (if marked m k then 0 else length es) + open_edges m adj

  pub open_edges-le :
      (m : Dict ℤ Bool) (adj : Dict ℤ (List (Edge W))) → open_edges m adj ≤ length (all_targets adj)
  unfolding open_edges
  open_edges-le m [] = omega arith
  open_edges-le m ((k, es) ∷ adj) =
      ground (arith, open_edges-le m adj, length-append (tos es) (all_targets adj), length-tos es)

  open_edges-mark-le :
      (m : Dict ℤ Bool) (u : ℤ) (adj : Dict ℤ (List (Edge W)))
      → open_edges (mark u m) adj ≤ open_edges m adj
  unfolding open_edges
  open_edges-mark-le m u [] = omega arith
  open_edges-mark-le m u ((k, es) ∷ adj) =
      ground (arith, open_edges-mark-le m u adj, marked-mark u k m)

  -- A visit closes the edges of the node.
  open_edges-mark :
      (m : Dict ℤ Bool) (u : ℤ) (adj : Dict ℤ (List (Edge W)))
      → marked m u ≡ false
      → open_edges (mark u m) adj + length (edges_at adj u) ≤ open_edges m adj
  unfolding open_edges edges_at find or_empty
  open_edges-mark m u [] h = omega arith
  open_edges-mark m u ((k, es) ∷ adj) h = ground (
    arith,
    open_edges-mark m u adj h,
    open_edges-mark-le m u adj,
    marked-mark u k m,
    int_eq.beq_iff u k,
    int_eq.beq_iff k u,
  )

  abbrev work : DynamicGraph W → Dfs → ℕ
  work g s = open_edges s.visited g.adj + length s.stack

  work-visit :
      (g : DynamicGraph W) (s : Dfs) (node : ℤ) (rest : List ℤ)
      → s.stack ≡ node ∷ rest
      → work g (visit g s node rest) < work g s
  unfolding visit neighbors
  work-visit g s node rest e = ground (
    arith,
    ap length e,
    open_edges-mark s.visited node g.adj,
    length-push_unvisited-le (mark node s.visited) (edges_at g.adj node) rest,
  )

  pub loop_ends :
      (g : DynamicGraph W) (fuel : ℕ) (s : Dfs)
      → work g s < fuel
      → (r : List ℤ) × (loop g fuel s ≡ some r)
  unfolding loop
  loop_ends g zero s h = absurd (omega arith)
  loop_ends g (suc fuel) s h = elim (List-cases s.stack) [
    | inl e ↦ (s.component, rw (e, loop))
    | inr (node, rest, e) ↦
        let (r, ends) =
          loop_ends g fuel (visit g s node rest) (omega (arith, work-visit g s node rest e)) in
        (r, rw (e, loop) ends)
  ]
