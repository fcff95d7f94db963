-- ===== src/Kv/Engine.antt =====
-- src/kv/kv_engine.cpp: values in a map, deadlines in a `TTLManager`. The map is an interface; the
-- clock is an argument.
pub mod Visible
pub mod Eviction
pub mod Overdue
pub mod Listing
use fast_graph.Prelude.{
  ℕ, zero, suc, ◌+◌, ◌-◌, ◌*◌, ◌/◌, ◌%◌, ◌^◌, ◌≤◌, ◌<◌, min, max, ◌≡◌, refl, sym, ap, subst, ◌∙◌,
  ◌≢◌, ◌↔◌, ◌⊎◌, inl, inr, ⊎_elim, Bool, true, false, not, ◌&&◌, ◌||◌, Option, none, some, List, [],
  ◌∷◌, ◌++◌, map, append-nil, append_assoc, arith, ltb, leb, if◌then◌else◌, Bool-cases,
  Option-cases, List-cases, length, get_elem?, get_or, take, drop, replicate, length-append,
  length-set, get_or-set_self, get_or-set_ne, length-take, length-drop, take-append_all,
  drop-append_all, ℤ, pos, negsuc, pos_part, neg_part, ◌+ℤ◌, ◌-ℤ◌, ◌≤ℤ◌, ◌<ℤ◌, ltb_ℤ, leb_ℤ,
  int_laws, Eq, ◌==◌, nat_eq, int_eq, text_eq, Text, eq_refl, eq_true, eq_false, eq_symm, ltb-true,
  ltb-false, leb-true, leb-false, drop-drop, get_or-drop, drop-append_of_length, drop-nil, take_all,
}
use fast_graph.Kv.Ttl.{TtlManager, set_expiry, remove_expiry, get_expiry, evict_expired}

-- `RobinHoodMap` as the engine calls it: `set` and `del` return whether the key was new, or there.
pub record MapOps (M : Type 0) : Type 0 where
  pub map_set : M → Text → Text → Bool × M
  pub map_get : M → Text → Option Text
  pub map_del : M → Text → Bool × M
  pub map_size : M → ℕ

pub record KvEngine (M : Type 0) : Type 0 where
  pub map : M
  pub ttl : TtlManager

module _ {M : Type 0} (o : MapOps M) where
  unfoldable pub set : KvEngine M → ℤ → Text → Text → ℤ → Bool × KvEngine M
  set e now key val ttl_ms =
      let (inserted, map) = o.map_set e.map key val in
      (
        inserted,
        record {
          map = map;
          ttl =
              if ltb_ℤ (pos 0) ttl_ms
              then set_expiry e.ttl now key ttl_ms
              else remove_expiry e.ttl key;
        },
      )

  unfoldable pub get : KvEngine M → ℤ → Text → Option Text × KvEngine M
  get e now key =
      let exp = get_expiry e.ttl key in
      if leb_ℤ (pos 0) exp && leb_ℤ exp now
      then (none, record { map = (o.map_del e.map key).1; ttl = remove_expiry e.ttl key })
      else (o.map_get e.map key, e)

  unfoldable pub del : KvEngine M → Text → Bool × KvEngine M
  del e key =
      let (there, map) = o.map_del e.map key in
      (there, record { map = map; ttl = remove_expiry e.ttl key })

  abbrev pub has_value : Option Text → Bool
  has_value none = false
  has_value (some v) = true

  unfoldable pub exists : KvEngine M → ℤ → Text → Bool × KvEngine M
  unfolding get
  exists e now key = let (v, e') = get e now key in (has_value v, e')

  unfoldable pub expire : KvEngine M → ℤ → Text → ℤ → Bool × KvEngine M
  expire e now key ttl_ms = elim (o.map_get e.map key) [
    | none ↦ (false, e)
    | some v ↦ (true, record e { ttl = set_expiry e.ttl now key ttl_ms })
  ]

  unfoldable pub persist : KvEngine M → Text → Bool × KvEngine M
  persist e key =
      if ltb_ℤ (get_expiry e.ttl key) (pos 0)
      then (false, e)
      else (true, record e { ttl = remove_expiry e.ttl key })

  unfoldable pub ttl : KvEngine M → ℤ → Text → ℤ
  ttl e now key = elim (o.map_get e.map key) [
    | none ↦ negsuc 1
    | some v ↦
        let exp = get_expiry e.ttl key in
        let remaining = exp -ℤ now in
        if ltb_ℤ exp (pos 0) then negsuc 0 else if ltb_ℤ remaining (pos 0) then pos 0 else remaining
  ]

  -- The loop of `tick` over the evicted keys.
  unfoldable pub del_all : List Text → M → M
  del_all [] map = map
  del_all (key ∷ keys) map = del_all keys (o.map_del map key).1

  unfoldable pub tick : KvEngine M → ℤ → KvEngine M
  unfolding del_all
  tick e now =
      let (keys, ttl) = evict_expired e.ttl now in record { map = del_all keys e.map; ttl = ttl }

  unfoldable pub size : KvEngine M → ℕ
  size e = o.map_size e.map
