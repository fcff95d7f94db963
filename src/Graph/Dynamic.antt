-- ===== src/Graph/Dynamic.antt =====
-- src/graph/dynamic_graph.cpp: forward and reverse adjacency lists. An `int` is an integer, the
-- weight type `float` is a parameter, and a map that is read through `[]` has the empty list by
-- default.
pub mod Lists
pub mod Mirror
pub mod Counting
pub mod NodeRemoval
pub mod History
use fast_graph.Prelude.{
  ℕ, zero, suc, ◌+◌, ◌-◌, ◌*◌, ◌/◌, ◌%◌, ◌^◌, ◌≤◌, ◌<◌, min, max, ◌≡◌, refl, sym, ap, subst, ◌∙◌,
  ◌≢◌, ◌↔◌, ◌⊎◌, inl, inr, ⊎_elim, Bool, true, false, not, ◌&&◌, ◌||◌, Option, none, some, List, [],
  ◌∷◌, ◌++◌, map, append-nil, append_assoc, arith, ltb, leb, if◌then◌else◌, Bool-cases,
  Option-cases, List-cases, length, get_elem?, get_or, set, take, drop, replicate, length-append,
  length-set, get_or-set_self, get_or-set_ne, length-take, length-drop, take-append_all,
  drop-append_all, ℤ, pos, negsuc, pos_part, neg_part, ◌+ℤ◌, ◌-ℤ◌, ◌≤ℤ◌, ◌<ℤ◌, ltb_ℤ, leb_ℤ,
  int_laws, Eq, ◌==◌, nat_eq, int_eq, text_eq, Text, eq_refl, eq_true, eq_false, eq_symm, ltb-true,
  ltb-false, leb-true, leb-false, drop-drop, get_or-drop, drop-append_of_length, drop-nil, take_all,
}
use fast_graph.Prelude.Dict.{Dict, find, put, erase}

pub record Edge (W : Type 0) : Type 0 where
  pub to : ℤ
  pub rel_type : Text
  pub weight : W

-- A label pointer is an offset in the label pool, or null.
pub record NodeMeta : Type 0 where
  pub label_ptr : Option ℕ
  pub props : Text

pub record DynamicGraph (W : Type 0) : Type 0 where
  pub meta : Dict ℤ NodeMeta
  pub adj : Dict ℤ (List (Edge W))
  pub radj : Dict ℤ (List (Edge W))
  pub edge_count : ℤ
  pub max_node_id : ℤ
  pub dirty : Bool

unfoldable pub is_some {ℓ} : {A : Type ℓ} → Option A → Bool
is_some none = false
is_some (some a) = true

module _ {W : Type 0} where
  unfoldable pub or_empty : Option (List (Edge W)) → List (Edge W)
  or_empty none = []
  or_empty (some es) = es

  -- `m[id]`, and the same list where `m.find(id)` is the end
  unfoldable pub edges_at : Dict ℤ (List (Edge W)) → ℤ → List (Edge W)
  unfolding or_empty
  edges_at m id = or_empty (find id m)

  unfoldable pub neighbors : DynamicGraph W → ℤ → List (Edge W)
  neighbors g id = edges_at g.adj id

  unfoldable pub reverse_neighbors : DynamicGraph W → ℤ → List (Edge W)
  reverse_neighbors g id = edges_at g.radj id

  unfoldable pub node_meta : DynamicGraph W → ℤ → Option NodeMeta
  node_meta g id = find id g.meta

  unfoldable pub has_node : DynamicGraph W → ℤ → Bool
  unfolding is_some
  has_node g id = is_some (find id g.meta)

  unfoldable pub any_to : ℤ → List (Edge W) → Bool
  any_to to [] = false
  any_to to (e ∷ es) = if e.to == to then true else any_to to es

  unfoldable pub has_edge : DynamicGraph W → ℤ → ℤ → Bool
  unfolding any_to
  has_edge g from to = elim (find from g.adj) [ none ↦ false | some es ↦ any_to to es ]

  unfoldable pub touch : ℤ → Dict ℤ (List (Edge W)) → Dict ℤ (List (Edge W))
  unfolding is_some
  touch id m = if is_some (find id m) then m else put id [] m

  unfoldable pub empty : DynamicGraph W
  empty = record {
    meta = [];
    adj = [];
    radj = [];
    edge_count = pos 0;
    max_node_id = negsuc 0;
    dirty = false;
  }

  unfoldable pub add_node : DynamicGraph W → ℤ → Option ℕ → Text → DynamicGraph W
  unfolding touch
  add_node g id label_ptr props = record g {
    meta = put id (record { label_ptr = label_ptr; props = props }) g.meta;
    max_node_id = if ltb_ℤ g.max_node_id id then id else g.max_node_id;
    adj = touch id g.adj;
    radj = touch id g.radj;
    dirty = true;
  }

  -- `m[id].push_back(e)`
  unfoldable pub push_edge : ℤ → Edge W → Dict ℤ (List (Edge W)) → Dict ℤ (List (Edge W))
  unfolding edges_at
  push_edge id e m = put id (edges_at m id ++ e ∷ []) m

  unfoldable pub add_edge : DynamicGraph W → ℤ → ℤ → Text → W → DynamicGraph W
  unfolding push_edge
  add_edge g from to rel weight = record g {
    adj = push_edge from (record { to = to; rel_type = rel; weight = weight }) g.adj;
    radj = push_edge to (record { to = from; rel_type = rel; weight = weight }) g.radj;
    edge_count = g.edge_count +ℤ pos 1;
    dirty = true;
  }

  -- `std::remove_if` with `erase`: the edges that pass the test go
  unfoldable pub remove_if : (Edge W → Bool) → List (Edge W) → List (Edge W)
  remove_if test [] = []
  remove_if test (e ∷ es) = if test e then remove_if test es else e ∷ remove_if test es

  abbrev pub is_edge : ℤ → Text → Edge W → Bool
  is_edge target rel e = e.to == target && e.rel_type == rel

  -- What the lambda `remove_from` takes off `edge_count_`: one, if any edge goes.
  unfoldable pub removed : (Edge W → Bool) → List (Edge W) → ℤ
  removed test [] = pos 0
  removed test (e ∷ es) = if test e then pos 1 else removed test es

  unfoldable pub remove_edge : DynamicGraph W → ℤ → ℤ → Text → DynamicGraph W
  unfolding edges_at remove_if removed
  remove_edge g from to rel =
      let forward = edges_at g.adj from in
      let backward = edges_at g.radj to in
      record g {
        adj = put from (remove_if (is_edge to rel) forward) g.adj;
        radj = put to (remove_if (is_edge from rel) backward) g.radj;
        edge_count =
            g.edge_count -ℤ removed (is_edge to rel) forward -ℤ removed (is_edge from rel) backward;
        dirty = true;
      }

  -- The loop over one side's edges at `id`: on the other side the edges to `id` go.
  unfoldable pub detach : ℤ → List (Edge W) → Dict ℤ (List (Edge W)) → Dict ℤ (List (Edge W))
  unfolding edges_at remove_if
  detach id [] m = m
  detach id (e ∷ es) m = detach id es (put e.to (remove_if (λ e'. e'.to == id) (edges_at m e.to)) m)

  unfoldable pub remove_node : DynamicGraph W → ℤ → DynamicGraph W
  unfolding detach
  remove_node g id =
      let forward = edges_at g.adj id in
      let radj' = detach id forward g.radj in
      let backward = edges_at radj' id in
      record g {
        meta = erase id g.meta;
        adj = detach id backward (erase id g.adj);
        radj = erase id radj';
        edge_count = g.edge_count -ℤ pos (length forward) -ℤ pos (length backward);
        dirty = true;
      }
