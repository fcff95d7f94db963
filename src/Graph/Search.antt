-- ===== src/Graph/Search.antt =====
-- What the traversals of src/graph/bfs.cpp and src/graph/dfs.cpp share: the edges of a walk, and the
-- map `visited`.
pub mod Bfs
pub mod Dfs
use fast_graph.Prelude.{
  ℕ, zero, suc, ◌+◌, ◌-◌, ◌*◌, ◌/◌, ◌%◌, ◌^◌, ◌≤◌, ◌<◌, min, max, ◌≡◌, refl, sym, ap, subst, ◌∙◌,
  ◌≢◌, ◌↔◌, ◌⊎◌, inl, inr, ⊎_elim, Bool, true, false, not, ◌&&◌, ◌||◌, Option, none, some, List, [],
  ◌∷◌, ◌++◌, map, append-nil, append_assoc, arith, ltb, leb, if◌then◌else◌, Bool-cases,
  Option-cases, List-cases, length, get_elem?, get_or, set, take, drop, replicate, length-append,
  length-set, get_or-set_self, get_or-set_ne, length-take, length-drop, take-append_all,
  drop-append_all, ℤ, pos, negsuc, pos_part, neg_part, ◌+ℤ◌, ◌-ℤ◌, ◌≤ℤ◌, ◌<ℤ◌, ltb_ℤ, leb_ℤ,
  int_laws, Eq, ◌==◌, nat_eq, int_eq, text_eq, Text, eq_refl, eq_true, eq_false, eq_symm, ltb-true,
  ltb-false, leb-true, leb-false, drop-drop, get_or-drop, drop-append_of_length, drop-nil, take_all,
}
use fast_graph.Prelude.Dict.{Dict, find, put, find-put}
use fast_graph.Graph.Dynamic.{Edge, DynamicGraph, neighbors, or_empty, edges_at}

-- How often a node stands in a list.
unfoldable pub count : ℤ → List ℤ → ℕ
count v [] = 0
count v (x ∷ xs) = (if x == v then 1 else 0) + count v xs

pub count-append : (v : ℤ) (xs ys : List ℤ) → count v (xs ++ ys) ≡ count v xs + count v ys
unfolding count
count-append v [] ys = omega arith
count-append v (x ∷ xs) ys = omega (arith, count-append v xs ys)

-- `visited[v]`: a missing key reads as `false`.
unfoldable pub marked : Dict ℤ Bool → ℤ → Bool
marked m v = elim (find v m) [ none ↦ false | some b ↦ b ]

abbrev pub mark : ℤ → Dict ℤ Bool → Dict ℤ Bool
mark v m = put v true m

pub marked-mark :
    (u v : ℤ) (m : Dict ℤ Bool) → marked (mark u m) v ≡ (if u == v then true else marked m v)
unfolding marked
marked-mark u v m = ground (arith, find-put u v true m)

module _ {W : Type 0} where
  abbrev pub tos : List (Edge W) → List ℤ
  tos [] = []
  tos (e ∷ es) = e.to ∷ tos es

  abbrev pub targets : DynamicGraph W → ℤ → List ℤ
  targets g u = tos (neighbors g u)

  -- The nodes that a walk along edges leads to.
  pub data Reach (g : DynamicGraph W) (source : ℤ) : ℤ → Type 0 where
    here : Reach g source source
    step : {u v : ℤ} → Reach g source u → 0 < count v (targets g u) → Reach g source v

  -- Every edge of the forward lists, by its target.
  abbrev pub all_targets : Dict ℤ (List (Edge W)) → List ℤ
  all_targets [] = []
  all_targets ((k, es) ∷ m) = tos es ++ all_targets m

  pub count-all_targets :
      (m : Dict ℤ (List (Edge W))) (u v : ℤ)
      → count v (tos (edges_at m u)) ≤ count v (all_targets m)
  unfolding edges_at find count or_empty
  count-all_targets [] u v = omega arith
  count-all_targets ((k, es) ∷ m) u v =
      ground (arith, count-all_targets m u v, count-append v (tos es) (all_targets m))
