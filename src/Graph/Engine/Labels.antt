-- ===== src/Graph/Engine/Labels.antt =====
-- `nodes_by_label` of src/graph/graph_engine.cpp, after nodes come and go.
use fast_graph.Prelude.{
  ℕ, ◌^◌, ◌<◌, ◌≡◌, refl, sym, ap, ◌≢◌, true, Option, none, some, [], ◌∷◌, arith, if◌then◌else◌,
  length, ℤ, ◌==◌, nat_eq, int_eq, text_eq, Text, eq_refl, ◌⊎◌,
}
use fast_graph.Prelude.Dict.{Dict, put, erase}
use fast_graph.Memory.StringPool.{StringPool, intern}
use fast_graph.Memory.StringPool.Pointers
use fast_graph.Memory.StringPool.Pointers.{Interns, intern-Interns}
use fast_graph.Graph.Dynamic
use fast_graph.Graph.Dynamic.{DynamicGraph, NodeMeta}
use fast_graph.Graph.Search.{count}
use fast_graph.Graph.Engine.{
  PropertyOps, GraphEngine, same_ptr, labelled, add_node, remove_node, nodes_by_label, Bool, thrown,
  false, ok, Option-cases, inl, inr,
}

same_ptr_refl : (p : Option ℕ) → same_ptr p p ≡ true
same_ptr_refl none = refl
same_ptr_refl (some q) = eq_refl q

count-labelled-put :
    (t : Option ℕ) (id j : ℤ) (m : NodeMeta) (ms : Dict ℤ NodeMeta)
    → (same_ptr m.label_ptr t ≡ true → 0 < count id (labelled t (put id m ms)))
      × (id ≢ j → count j (labelled t (put id m ms)) ≡ count j (labelled t ms))
unfolding labelled count put
count-labelled-put t id j m [] = (ground (arith, eq_refl id), ground (arith, int_eq.beq_iff id j))
count-labelled-put t id j m ((k, m') ∷ ms) =
    let (here, other) = count-labelled-put t id j m ms in
    (
      ground (arith, here, int_eq.beq_iff k id, eq_refl id),
      ground (arith, other, int_eq.beq_iff k id, int_eq.beq_iff k j),
    )

count-labelled-erase :
    (t : Option ℕ) (id j : ℤ) (ms : Dict ℤ NodeMeta)
    → count j (labelled t (erase id ms)) ≡ (if id == j then 0 else count j (labelled t ms))
unfolding labelled count erase
count-labelled-erase t id j [] = ground arith
count-labelled-erase t id j ((k, m) ∷ ms) = ground (
  arith,
  count-labelled-erase t id j ms,
  int_eq.beq_iff k id,
  int_eq.beq_iff k j,
  int_eq.beq_iff id j,
)

-- Interning a label again gives the same pointer.
intern-intern :
    (p : StringPool) (s : Text) (r : Option ℕ × StringPool)
    → r ≡ intern p s
    → Interns p s r
    → (intern r.1 s).0 ≡ r.0
unfolding intern
intern-intern p s (none, p') e (same, new) = rw same (sym (ap (λ r. r.0) e))
intern-intern p s (some q, p') e (v, f, kept) = rw (f, intern) refl

-- The node is known, and its label a null pointer.
abbrev pub has_null_label : {W I C : Type 0} → GraphEngine W I C → ℤ → Bool
has_null_label e id = elim (Dynamic.node_meta e.graph id) [
  | none ↦ false
  | some meta ↦ same_ptr meta.label_ptr none
]

module _ {W I C : Type 0} where
  -- After `add_node`, where the pool of labels is valid, the node is listed under its label, and every
  -- other node as often as before. This holds even if the pool has no room for the label.
  pub nodes_by_label-add_node :
      (e : GraphEngine W I C) (id : ℤ) (label props : Text)
      → Pointers.IsValid e.label_pool
      → length label < 2 ^ 61
      → (0 < count id (nodes_by_label (add_node e id label props) label).0)
        × ((j : ℤ)
            → id ≢ j
            → count j (nodes_by_label (add_node e id label props) label).0
              ≡ count j (nodes_by_label e label).0)
  unfolding nodes_by_label add_node Dynamic.add_node
  nodes_by_label-add_node e id label props v h =
      let r = intern e.label_pool label in
      let again = intern-intern e.label_pool label r refl (intern-Interns e.label_pool label v h) in
      let m : NodeMeta = record { label_ptr = r.0; props = props } in
      rw again (
        (count-labelled-put r.0 id id m e.graph.meta).0 (same_ptr_refl r.0),
        λ j. (count-labelled-put r.0 id j m e.graph.meta).1,
      )

  -- A call of `remove_node` throws exactly for a node whose label is a null pointer. Otherwise the node
  -- is then listed under no label, and every other node as often as before.
  pub nodes_by_label-remove_node :
      {Dbl : Type 0} (o : PropertyOps Dbl I) (e : GraphEngine W I C) (id : ℤ) (label : Text) (j : ℤ)
      → ((has_null_label e id ≡ true) × (remove_node o e id ≡ thrown o.null_what))
        ⊎ ((has_null_label e id ≡ false)
            × ((e' : GraphEngine W I C) × (remove_node o e id ≡ ok e')
                × (count j (nodes_by_label e' label).0
                    ≡ (if id == j then 0 else count j (nodes_by_label e label).0))))
  unfolding nodes_by_label remove_node Dynamic.remove_node
  nodes_by_label-remove_node o e id label j =
      let counts = count-labelled-erase (intern e.label_pool label).0 id j e.graph.meta in
      let g = Dynamic.remove_node e.graph id in
      elim (Option-cases (Dynamic.node_meta e.graph id)) [
        | inl new ↦
            inr (
              rw (new, has_null_label) refl,
              (record e { graph = g }, rw (new, remove_node), counts),
            )
        | inr (meta, known) ↦ elim (Option-cases meta.label_ptr) [
          | inl null ↦
              inl
                (rw (known, has_null_label) (rw null refl), rw (known, remove_node) (rw null refl))
          | inr (p, there) ↦ inr (
            rw (known, has_null_label) (rw there refl),
            (
              record e { prop_index = o.index_remove_node e.prop_index p id; graph = g },
              rw (known, remove_node) (rw there refl),
              counts,
            ),
          )
        ]
      ]
