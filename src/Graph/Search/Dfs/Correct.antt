-- ===== src/Graph/Search/Dfs/Correct.antt =====
-- `dfs_component` of src/graph/dfs.cpp against reachability and `bfs_component`.
use fast_graph.Prelude.{
  ℕ, zero, suc, ◌+◌, ◌≤◌, ◌<◌, ◌≡◌, refl, ap, subst, ◌↔◌, ◌⊎◌, inl, inr, Bool, true, some, List, [],
  ◌∷◌, arith, ltb, if◌then◌else◌, Bool-cases, List-cases, length, ℤ, nat_eq, int_eq, text_eq,
  eq_refl,
}
use mathlib.Core.Logic.{∥∥₁_elim}
use native.Mathlib.Nat.{ℕ_set}
use fast_graph.Prelude.Dict.{Dict, find}
use fast_graph.Graph.Dynamic.{Edge, DynamicGraph, neighbors}
use fast_graph.Graph.Search.{
  count, count-append, marked, mark, marked-mark, tos, targets, all_targets, Reach, here, step,
}
use fast_graph.Graph.Search.Bfs.{bfs_component}
use fast_graph.Graph.Search.Bfs.Correct.{bfs_component-Reach}
use fast_graph.Graph.Search.Dfs.{Dfs, push_unvisited, visit, loop, start, dfs_component}
use fast_graph.Graph.Search.Dfs.Loop.{open_edges-le, loop_ends}

module _ {W : Type 0} where
  -- What the inner loop leaves on the stack.
  count-push_unvisited :
      (m : Dict ℤ Bool) (es : List (Edge W)) (stack : List ℤ) (v : ℤ)
      → count v (push_unvisited m es stack)
        ≡ (if marked m v then 0 else count v (tos es)) + count v stack
  unfolding push_unvisited count
  count-push_unvisited m [] stack v = ground arith
  count-push_unvisited m (e ∷ es) stack v = ground (
    arith,
    count-push_unvisited m es (if marked m e.to then stack else e.to ∷ stack) v,
    int_eq.beq_iff e.to v,
  )

module _ {W : Type 0} (g : DynamicGraph W) (source : ℤ) where
  record Inv (s : Dfs) : Type 0 where
    counted : (v : ℤ) → count v s.component ≡ (if marked s.visited v then 1 else 0)
    origin : (marked s.visited source ≡ true) ⊎ (0 < count source s.stack)
    sound : (v : ℤ) → marked s.visited v ≡ true → Reach g source v
    pending : (v : ℤ) → 0 < count v s.stack → Reach g source v
    closed :
        (u v : ℤ)
        → marked s.visited u ≡ true
        → 0 < count v (targets g u)
        → (marked s.visited v ≡ true) ⊎ (0 < count v s.stack)

  start-Inv : Inv (start source)
  unfolding count marked find
  start-Inv = record {
    counted = λ v. refl;
    origin = inr (rw (eq_refl source) (omega arith));
    sound = λ v m. cc;
    pending = λ v k.
        let e : source ≡ v = ground (arith, int_eq.beq_iff source v) in
        subst (Reach g source) e here;
    closed = λ u v h. cc;
  }

  visit-Inv :
      (s : Dfs) (node : ℤ) (rest : List ℤ)
      → s.stack ≡ node ∷ rest
      → Inv s
      → Inv (visit g s node rest)
  unfolding visit count
  visit-Inv s node rest e h = elim (Bool-cases (marked s.visited node)) [
    | inl old ↦ rw old (record {
      counted = h.counted;
      origin = ground (arith, h.origin, ap (count source) e, int_eq.beq_iff node source);
      sound = h.sound;
      pending = λ v k. h.pending v (ground (arith, ap (count v) e));
      closed = λ u v m k. ground (arith, h.closed u v m k, ap (count v) e, int_eq.beq_iff node v);
    })
    | inr new ↦
        let m' = mark node s.visited in
        let es = neighbors g node in
        let reached =
          h.pending node (ground (arith, ap (count node) e, int_eq.beq_iff node node)) in
        rw new (record {
          counted = λ v. ground (
            arith,
            h.counted v,
            count-append v s.component (node ∷ []),
            marked-mark node v s.visited,
            int_eq.beq_iff node v,
          );
          origin = ground (
            arith,
            h.origin,
            ap (count source) e,
            marked-mark node source s.visited,
            count-push_unvisited m' es rest source,
          );
          sound = λ v m. elim (Bool-cases (marked s.visited v)) [
            | inl old ↦ h.sound v old
            | inr fresh ↦
                let same : node ≡ v =
                  ground (arith, marked-mark node v s.visited, int_eq.beq_iff node v) in
                subst (Reach g source) same reached
          ];
          pending = λ v k. elim (Bool-cases (ltb 0 (count v rest))) [
            | inl old ↦ h.pending v (ground (arith, ap (count v) e))
            | inr fresh ↦ step reached (ground (arith, count-push_unvisited m' es rest v))
          ];
          closed = λ u v m k. ground (
            arith,
            h.closed u v,
            ap (count v) e,
            marked-mark node u s.visited,
            marked-mark node v s.visited,
            count-push_unvisited m' es rest v,
            int_eq.beq_iff node u,
            int_eq.beq_iff node v,
          );
        })
  ]

  loop-Inv :
      (fuel : ℕ) (s : Dfs) (r : List ℤ)
      → Inv s
      → loop g fuel s ≡ some r
      → (t : Dfs) × Inv t × (t.stack ≡ []) × (t.component ≡ r)
  unfolding loop
  loop-Inv zero s r h e = cc
  loop-Inv (suc fuel) s r h e = elim (List-cases s.stack) [
    | inl empty ↦ (s, h, empty, ground arith)
    | inr (node, rest, q) ↦
        loop-Inv fuel (visit g s node rest) r (visit-Inv s node rest q h) (rw (q, loop) at e)
  ]

  Reach-marked :
      (t : Dfs) → Inv t → t.stack ≡ [] → {v : ℤ} → Reach g source v → marked t.visited v ≡ true
  unfolding count
  Reach-marked t h e here = ground (arith, h.origin, ap (count source) e)
  Reach-marked t h e (step {u} {v} w k) =
      let m = Reach-marked t h e w in ground (arith, h.closed u v m k, ap (count v) e)

-- From every node of every graph `dfs_component` returns a list in which each node that some walk
-- leads to stands exactly once, and no other node stands.
pub dfs_component-Reach :
    {W : Type 0} (g : DynamicGraph W) (source : ℤ)
    → (r : List ℤ) × (dfs_component g source ≡ some r)
      × ((v : ℤ) → (count v r ≡ 1) ↔ ∥ Reach g source v ∥₁)
      × ((v : ℤ) → count v r ≤ 1)
unfolding dfs_component
dfs_component-Reach g source =
    let fuel = length (all_targets g.adj) + 2 in
    let (r, ends) = loop_ends g fuel (start source) (omega (arith, open_edges-le [] g.adj)) in
    let (t, h, empty, e) = loop-Inv g source fuel (start source) r (start-Inv g source) ends in
    let once : (v : ℤ) → count v r ≡ (if marked t.visited v then 1 else 0) =
      λ v. unfold count in ground (arith, h.counted v, ap (count v) e) in
    (
      r,
      ends,
      λ v. (
        λ k. ∣ h.sound v (ground (arith, once v)) ∣₁,
        λ w. rw (once v) (∥∥₁_elim w (ℕ_set _ _) (λ p. rw (Reach-marked g source t h empty p))),
      ),
      λ v. ground (arith, once v),
    )

-- The two searches return the same nodes, each as often, on every graph.
pub dfs_component-bfs_component :
    {W : Type 0} (g : DynamicGraph W) (source : ℤ)
    → (r s : List ℤ) × (dfs_component g source ≡ some r)
      × (bfs_component g source ≡ some s)
      × ((v : ℤ) → count v r ≡ count v s)
dfs_component-bfs_component g source =
    let (r, e, same, le) = dfs_component-Reach g source in
    let (s, e', same', le') = bfs_component-Reach g source in
    (
      r,
      s,
      e,
      e',
      λ v. ground (
        arith,
        le v,
        le' v,
        λ (p : count v r ≡ 1). (same' v).1 ((same v).0 p),
        λ (p : count v s ≡ 1). (same v).1 ((same' v).0 p),
      ),
    )
