-- ===== src/Graph/Dynamic/Lists.antt =====
-- Edge lists: how many edges lead to a node, after each change of a list or of a map of lists.
use fast_graph.Prelude.{
  ℕ, ◌+◌, ◌<◌, ◌≡◌, refl, ◌↔◌, Bool, true, false, not, ◌&&◌, List, [], ◌∷◌, ◌++◌, arith,
  if◌then◌else◌, ℤ, ◌==◌, nat_eq, int_eq, text_eq, Text,
}
use fast_graph.Prelude.Dict.{Dict, put, erase, find-put, find-erase}
use fast_graph.Graph.Dynamic.{Edge, edges_at, any_to, touch, push_edge, remove_if, is_edge, detach}

module _ {W : Type 0} where
  -- The edges to `b` whose relation and weight pass the test.
  unfoldable pub count_to : ℤ → (Text → W → Bool) → List (Edge W) → ℕ
  count_to b q [] = 0
  count_to b q (e ∷ es) = (if e.to == b && q e.rel_type e.weight then 1 else 0) + count_to b q es

  pub count_to-append :
      (b : ℤ) (q : Text → W → Bool) (es fs : List (Edge W))
      → count_to b q (es ++ fs) ≡ count_to b q es + count_to b q fs
  unfolding count_to
  count_to-append b q [] fs = omega arith
  count_to-append b q (e ∷ es) fs = omega (arith, count_to-append b q es fs)

  pub count_to-remove_edge :
      (b t : ℤ) (r : Text) (q : Text → W → Bool) (es : List (Edge W))
      → count_to b q (remove_if (is_edge t r) es)
        ≡ count_to b (λ rel w. q rel w && not (b == t && rel == r)) es
  unfolding count_to remove_if
  count_to-remove_edge b t r q [] = refl
  count_to-remove_edge b t r q (e ∷ es) = ground (
    arith,
    count_to-remove_edge b t r q es,
    int_eq.beq_iff e.to b,
    int_eq.beq_iff e.to t,
    int_eq.beq_iff b t,
  )

  pub count_to-remove_to :
      (b id : ℤ) (q : Text → W → Bool) (es : List (Edge W))
      → count_to b q (remove_if (λ e. e.to == id) es) ≡ (if b == id then 0 else count_to b q es)
  unfolding count_to remove_if
  count_to-remove_to b id q [] = ground arith
  count_to-remove_to b id q (e ∷ es) = ground (
    arith,
    count_to-remove_to b id q es,
    int_eq.beq_iff e.to b,
    int_eq.beq_iff e.to id,
    int_eq.beq_iff b id,
  )

  pub edges_at-put :
      (k j : ℤ) (es : List (Edge W)) (m : Dict ℤ (List (Edge W)))
      → edges_at (put k es m) j ≡ (if k == j then es else edges_at m j)
  unfolding edges_at
  edges_at-put k j es m = ground (arith, find-put k j es m)

  pub edges_at-erase :
      (k j : ℤ) (m : Dict ℤ (List (Edge W)))
      → edges_at (erase k m) j ≡ (if k == j then [] else edges_at m j)
  unfolding edges_at
  edges_at-erase k j m = ground (arith, find-erase k j m)

  pub edges_at-touch :
      (k j : ℤ) (m : Dict ℤ (List (Edge W))) → edges_at (touch k m) j ≡ edges_at m j
  unfolding edges_at touch
  edges_at-touch k j m = ground (arith, find-put k j [] m, int_eq.beq_iff k j)

  pub edges_at-push_edge :
      (k j : ℤ) (e : Edge W) (m : Dict ℤ (List (Edge W)))
      → edges_at (push_edge k e m) j ≡ (if k == j then edges_at m j ++ e ∷ [] else edges_at m j)
  unfolding push_edge
  edges_at-push_edge k j e m =
      ground (arith, edges_at-put k j (edges_at m k ++ e ∷ []) m, int_eq.beq_iff k j)

  -- After the loop of `remove_node` over the edges `es`, the lists at their targets have no edge to
  -- `id`, and all the others are as before.
  pub count_to-detach :
      (id : ℤ) (es : List (Edge W)) (m : Dict ℤ (List (Edge W))) (j b : ℤ) (q : Text → W → Bool)
      → count_to b q (edges_at (detach id es m) j)
        ≡ (if any_to j es && b == id then 0 else count_to b q (edges_at m j))
  unfolding detach any_to
  count_to-detach id [] m j b q = refl
  count_to-detach id (e ∷ es) m j b q =
      let m' = put e.to (remove_if (λ e'. e'.to == id) (edges_at m e.to)) m in
      ground (
        arith,
        count_to-detach id es m' j b q,
        edges_at-put e.to j (remove_if (λ e'. e'.to == id) (edges_at m e.to)) m,
        count_to-remove_to b id q (edges_at m e.to),
        int_eq.beq_iff e.to j,
      )

  pub any_to_iff :
      (b : ℤ) (es : List (Edge W)) → (any_to b es ≡ true) ↔ (0 < count_to b (λ _ _. true) es)
  unfolding any_to count_to
  any_to_iff b [] = ground arith
  any_to_iff b (e ∷ es) = ground (arith, any_to_iff b es)

  pub count_to-eq-zero :
      (b : ℤ) (q : Text → W → Bool) (es : List (Edge W)) → any_to b es ≡ false → count_to b q es ≡ 0
  unfolding any_to count_to
  count_to-eq-zero b q [] h = refl
  count_to-eq-zero b q (e ∷ es) h = ground (arith, count_to-eq-zero b q es)
