-- ===== src/Graph/Search/Bfs/Loop.antt =====
-- The loop of `bfs_component` of src/graph/bfs.cpp: its fuel and its invariant.
use fast_graph.Prelude.{
  ℕ, zero, suc, ◌+◌, ◌≤◌, ◌<◌, ◌≡◌, ap, inl, inr, Bool, false, some, List, [], ◌∷◌, ◌++◌, arith,
  if◌then◌else◌, List-cases, length, length-append, ℤ, nat_eq, int_eq, text_eq,
}
use fast_graph.Prelude.Dict.{Dict}
use fast_graph.Graph.Dynamic.{Edge, DynamicGraph, neighbors}
use fast_graph.Graph.Search.{count, marked, mark, marked-mark, tos, all_targets, count-all_targets}
use fast_graph.Graph.Search.Bfs.{Bfs, offer, scan, expand, loop}

-- How many entries of a list are not marked.
unfoldable pub unmarked : Dict ℤ Bool → List ℤ → ℕ
unmarked m [] = 0
unmarked m (x ∷ xs) = (if marked m x then 0 else 1) + unmarked m xs

pub unmarked-le : (m : Dict ℤ Bool) (xs : List ℤ) → unmarked m xs ≤ length xs
unfolding unmarked
unmarked-le m [] = omega arith
unmarked-le m (x ∷ xs) = ground (arith, unmarked-le m xs)

unmarked-mark :
    (m : Dict ℤ Bool) (v : ℤ) (xs : List ℤ)
    → marked m v ≡ false
    → unmarked (mark v m) xs + count v xs ≡ unmarked m xs
unfolding unmarked count
unmarked-mark m v [] h = omega arith
unmarked-mark m v (x ∷ xs) h =
    ground
      (arith, unmarked-mark m v xs h, marked-mark v x m, int_eq.beq_iff v x, int_eq.beq_iff x v)

abbrev pub work : List ℤ → Bfs → ℕ
work nodes s = unmarked s.visited nodes + length s.queue

module _ {W : Type 0} where
  -- Each node that is queued is marked.
  work-scan :
      (nodes : List ℤ) (s : Bfs) (es : List (Edge W))
      → ((v : ℤ) → 0 < count v (tos es) → 0 < count v nodes)
      → work nodes (scan s es) ≤ work nodes s
  unfolding scan offer count
  work-scan nodes s [] h = omega arith
  work-scan nodes s (e ∷ es) h = ground (
    arith,
    work-scan nodes (offer s e.to) es (λ v k. h v (omega arith)),
    unmarked-mark s.visited e.to nodes,
    length-append s.queue (e.to ∷ []),
    h e.to,
    int_eq.beq_iff e.to e.to,
  )

  pub loop_ends :
      (g : DynamicGraph W) (fuel : ℕ) (s : Bfs)
      → work (all_targets g.adj) s < fuel
      → (r : List ℤ) × (loop g fuel s ≡ some r)
  unfolding loop expand
  loop_ends g zero s h = absurd (omega arith)
  loop_ends g (suc fuel) s h = elim (List-cases s.queue) [
    | inl e ↦ (s.component, rw (e, loop))
    | inr (node, rest, e) ↦
        let next = record s { queue = rest; component = s.component ++ node ∷ [] } in
        let shrinks =
          work-scan (all_targets g.adj) next (neighbors g node)
            (λ v k. unfold neighbors in omega (arith, count-all_targets g.adj node v)) in
        let (r, ends) = loop_ends g fuel (expand g s node rest) (omega (arith, ap length e)) in
        (r, rw (e, loop) ends)
  ]
