-- ===== src/Graph/Search/Bfs/Correct.antt =====
-- `bfs_component` of src/graph/bfs.cpp against reachability.
use fast_graph.Prelude.{
  ℕ, zero, suc, ◌+◌, ◌≤◌, ◌<◌, ◌≡◌, refl, ap, subst, ◌↔◌, inl, inr, true, ◌||◌, some, List, [], ◌∷◌,
  ◌++◌, arith, ltb, if◌then◌else◌, Bool-cases, List-cases, length, ℤ, nat_eq, int_eq, text_eq,
  eq_refl,
}
use mathlib.Core.Logic.{∥∥₁_elim}
use native.Mathlib.Nat.{ℕ_set}
use fast_graph.Prelude.Dict.{find}
use fast_graph.Graph.Dynamic.{Edge, DynamicGraph, neighbors}
use fast_graph.Graph.Search.{
  count, count-append, marked, mark, marked-mark, tos, targets, all_targets, Reach, here, step,
}
use fast_graph.Graph.Search.Bfs.{Bfs, offer, scan, expand, loop, start, bfs_component}
use fast_graph.Graph.Search.Bfs.Loop.{unmarked-le, loop_ends}

-- A marked node stands once in the component or in the queue, and no other node stands there.
abbrev Counted : Bfs → Type 0
Counted s = (v : ℤ) → count v s.component + count v s.queue ≡ (if marked s.visited v then 1 else 0)

offer-Counted : (s : Bfs) (u : ℤ) → Counted s → Counted (offer s u)
unfolding offer count
offer-Counted s u h v =
    ground
      (arith, h v, marked-mark u v s.visited, count-append v s.queue (u ∷ []), int_eq.beq_iff u v)

module _ {W : Type 0} where
  scan-Counted : (s : Bfs) (es : List (Edge W)) → Counted s → Counted (scan s es)
  unfolding scan
  scan-Counted s [] h = h
  scan-Counted s (e ∷ es) h = scan-Counted (offer s e.to) es (offer-Counted s e.to h)

  component-scan : (s : Bfs) (es : List (Edge W)) → (scan s es).component ≡ s.component
  unfolding scan offer
  component-scan s [] = refl
  component-scan s (e ∷ es) = ground (arith, component-scan (offer s e.to) es)

  -- The marks of a round: those of before, and the targets of the edges.
  marked-scan :
      (s : Bfs) (es : List (Edge W)) (v : ℤ)
      → marked (scan s es).visited v ≡ (marked s.visited v || ltb 0 (count v (tos es)))
  unfolding scan offer count
  marked-scan s [] v = ground arith
  marked-scan s (e ∷ es) v =
      ground (
        arith,
        marked-scan (offer s e.to) es v,
        marked-mark e.to v s.visited,
        int_eq.beq_iff e.to v,
      )

module _ {W : Type 0} (g : DynamicGraph W) (source : ℤ) where
  record Inv (s : Bfs) : Type 0 where
    counted : Counted s
    origin : marked s.visited source ≡ true
    sound : (v : ℤ) → marked s.visited v ≡ true → Reach g source v
    closed :
        (u v : ℤ) → 0 < count u s.component → 0 < count v (targets g u) → marked s.visited v ≡ true

  start-Inv : Inv (start source)
  unfolding count marked find
  start-Inv = record {
    counted = λ v. ground (arith, marked-mark source v [], int_eq.beq_iff source v);
    origin = rw (marked-mark source source [], eq_refl source);
    sound = λ v m.
        let e : source ≡ v = ground (arith, marked-mark source v [], int_eq.beq_iff source v) in
        subst (Reach g source) e here;
    closed = λ u v h. absurd (omega arith);
  }

  expand-Inv :
      (s : Bfs) (node : ℤ) (rest : List ℤ)
      → s.queue ≡ node ∷ rest
      → Inv s
      → Inv (expand g s node rest)
  unfolding expand count
  expand-Inv s node rest e h =
      let s' : Bfs = record s { queue = rest; component = s.component ++ node ∷ [] } in
      let es = neighbors g node in
      let marks = λ (v : ℤ). marked-scan s' es v in
      let node_marked : marked s.visited node ≡ true =
        ground (arith, h.counted node, ap (count node) e, int_eq.beq_iff node node) in
      record {
        counted = scan-Counted s' es (λ v.
            ground (arith, h.counted v, count-append v s.component (node ∷ []), ap (count v) e));
        origin = rw (marks source, h.origin);
        sound = λ v m. elim (Bool-cases (marked s.visited v)) [
          | inl old ↦ h.sound v old
          | inr new ↦ step (h.sound node node_marked) (ground (arith, marks v))
        ];
        closed = λ u v hu hv. ground (
          arith,
          marks v,
          ap (count u) (component-scan s' es),
          count-append u s.component (node ∷ []),
          h.closed u v,
          int_eq.beq_iff node u,
        );
      }

  loop-Inv :
      (fuel : ℕ) (s : Bfs) (r : List ℤ)
      → Inv s
      → loop g fuel s ≡ some r
      → (t : Bfs) × Inv t × (t.queue ≡ []) × (t.component ≡ r)
  unfolding loop
  loop-Inv zero s r h e = cc
  loop-Inv (suc fuel) s r h e = elim (List-cases s.queue) [
    | inl empty ↦ (s, h, empty, ground arith)
    | inr (node, rest, q) ↦
        loop-Inv fuel (expand g s node rest) r (expand-Inv s node rest q h) (rw (q, loop) at e)
  ]

  -- At the end, where the queue is empty, a walk stays in the component.
  Reach-marked :
      (t : Bfs) → Inv t → t.queue ≡ [] → {v : ℤ} → Reach g source v → marked t.visited v ≡ true
  unfolding count
  Reach-marked t h e here = h.origin
  Reach-marked t h e (step {u} {v} w k) =
      let m = Reach-marked t h e w in h.closed u v (ground (arith, h.counted u, ap (count u) e)) k

-- From every node of every graph `bfs_component` returns a list in which each node that some walk
-- leads to stands exactly once, and no other node stands.
pub bfs_component-Reach :
    {W : Type 0} (g : DynamicGraph W) (source : ℤ)
    → (r : List ℤ) × (bfs_component g source ≡ some r)
      × ((v : ℤ) → (count v r ≡ 1) ↔ ∥ Reach g source v ∥₁)
      × ((v : ℤ) → count v r ≤ 1)
unfolding bfs_component
bfs_component-Reach g source =
    let fuel = length (all_targets g.adj) + 2 in
    let (r, ends) =
      loop_ends g fuel (start source)
        (omega (arith, unmarked-le (mark source []) (all_targets g.adj))) in
    let (t, h, empty, e) = loop-Inv g source fuel (start source) r (start-Inv g source) ends in
    let once : (v : ℤ) → count v r ≡ (if marked t.visited v then 1 else 0) =
      λ v. unfold count in ground (arith, h.counted v, ap (count v) empty, ap (count v) e) in
    (
      r,
      ends,
      λ v. (
        λ k. ∣ h.sound v (ground (arith, once v)) ∣₁,
        λ w. rw (once v) (∥∥₁_elim w (ℕ_set _ _) (λ p. rw (Reach-marked g source t h empty p))),
      ),
      λ v. ground (arith, once v),
    )
