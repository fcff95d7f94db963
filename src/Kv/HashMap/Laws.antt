-- ===== src/Kv/HashMap/Laws.antt =====
-- `RobinHoodMap` of src/kv/hashmap.cpp behind the interface that the key-value engine uses.
use fast_graph.Prelude.{
  ◌≡◌, refl, sym, ap, subst, ◌∙◌, ◌≢◌, ◌↔◌, ◌⊎◌, inl, inr, Bool, false, Option, none, some,
  if◌then◌else◌, Bool-cases, ◌==◌, nat_eq, int_eq, text_eq, Text, eq_refl, eq_true,
}
use fast_graph.Kv.HashMap.{RobinHoodMap, get, set_key, del}
use fast_graph.Kv.HashMap.Grow.{IsMap, HasRoom}
use fast_graph.Kv.HashMap.Search.{In, get_lem}
use fast_graph.Kv.HashMap.Delete.{Removes, del_lem}
use fast_graph.Kv.HashMap.Methods.{set_key_lem}
use fast_graph.Kv.HashMap.Probe.{true-ne-false}
use fast_graph.Kv.Engine.{MapOps}
use fast_graph.Kv.Engine.Visible.{MapLaws}

-- The result of a loop that ends; the other value is never taken on a valid map.
abbrev pub settle {ℓ} : {A : Type ℓ} → A → Option A → A
settle other none = other
settle other (some a) = a

abbrev pub robin_hood : MapOps RobinHoodMap
robin_hood = record {
  map_set = λ m k v. settle (false, m) (set_key m k v);
  map_get = λ m k. settle none (get m k);
  map_del = λ m k. settle (false, m) (del m k);
  map_size = λ m. m.size;
}

-- Two results with the same values under `some` are equal.
Option_ext :
    {A : Type 0} (a b : Option A)
    → ((w : A) → a ≡ some w → b ≡ some w)
    → ((w : A) → b ≡ some w → a ≡ some w)
    → a ≡ b
Option_ext none none f g = refl
Option_ext none (some w) f g = g w refl
Option_ext (some w) none f g = sym (f w refl)
Option_ext (some w) (some x) f g = sym (f w refl)

pub map_get-In :
    (m : RobinHoodMap) → IsMap m → (k w : Text) → (robin_hood.map_get m k ≡ some w) ↔ In m k w
map_get-In m v k w =
    let (r, ends, same) = get_lem m v k in
    let e : robin_hood.map_get m k ≡ r = ap (settle none) ends in
    (λ f. (same w).0 (sym e ∙ f), λ p. e ∙ (same w).1 p)

set-In :
    (m : RobinHoodMap) (k v : Text)
    → IsMap m
    → HasRoom m
    → IsMap (robin_hood.map_set m k v).1
      × ((j w : Text)
          → In (robin_hood.map_set m k v).1 j w ↔ (((j ≢ k) × In m j w) ⊎ ((j ≡ k) × (w ≡ v))))
set-In m k v p small =
    let (b, m', ends, valid, same, _) = set_key_lem m k v p small in
    let e : m' ≡ (robin_hood.map_set m k v).1 =
      sym (ap (λ x. (settle {A = Bool × RobinHoodMap} (false, m) x).1) ends) in
    subst (λ x. IsMap x × ((j w : Text) → In x j w ↔ (((j ≢ k) × In m j w) ⊎ ((j ≡ k) × (w ≡ v)))))
      e (valid, same)

del-In :
    (m : RobinHoodMap) (k : Text)
    → IsMap m
    → IsMap (robin_hood.map_del m k).1 × Removes m (robin_hood.map_del m k).1 k
del-In m k p =
    let (b, m', ends, valid, gone, _, _) = del_lem m p k in
    let e : m' ≡ (robin_hood.map_del m k).1 =
      sym (ap (λ x. (settle {A = Bool × RobinHoodMap} (false, m) x).1) ends) in
    subst (λ x. IsMap x × Removes m x k) e (valid, gone)

get-set_lem :
    (m : RobinHoodMap) (k v j : Text)
    → IsMap m
    → HasRoom m
    → robin_hood.map_get (robin_hood.map_set m k v).1 j
      ≡ (if k == j then some v else robin_hood.map_get m j)
get-set_lem m k v j p small =
    let (valid, same) = set-In m k v p small in
    let m' = (robin_hood.map_set m k v).1 in
    elim (Bool-cases (k == j)) [
      | inl e ↦ rw e ((map_get-In m' valid j v).1 ((same j v).1 (inr (sym (eq_true k j e), refl))))
      | inr e ↦
          let differs : j ≢ k = λ q. true-ne-false (sym (rw q (eq_refl k)) ∙ e) in
          rw e (
            Option_ext (robin_hood.map_get m' j) (robin_hood.map_get m j)
              (λ w f. elim ((same j w).0 ((map_get-In m' valid j w).0 f)) [
                | inl (_, q) ↦ (map_get-In m p j w).1 q
                | inr (q, _) ↦ absurd (differs q)
              ])
              (λ w f.
                (map_get-In m' valid j w).1
                  ((same j w).1 (inl (differs, (map_get-In m p j w).0 f)))))
    ]

get-del_lem :
    (m : RobinHoodMap) (k j : Text)
    → IsMap m
    → robin_hood.map_get (robin_hood.map_del m k).1 j
      ≡ (if k == j then none else robin_hood.map_get m j)
get-del_lem m k j p =
    let (valid, gone) = del-In m k p in
    let m' = (robin_hood.map_del m k).1 in
    elim (Bool-cases (k == j)) [
      | inl e ↦ rw e (
          Option_ext (robin_hood.map_get m' j) none
            (λ w f.
              absurd ((gone.only j w ((map_get-In m' valid j w).0 f)).0 (sym (eq_true k j e))))
            (λ w f. cc))
      | inr e ↦
          let differs : j ≢ k = λ q. true-ne-false (sym (rw q (eq_refl k)) ∙ e) in
          rw e (
            Option_ext (robin_hood.map_get m' j) (robin_hood.map_get m j)
              (λ w f. (map_get-In m p j w).1 (gone.only j w ((map_get-In m' valid j w).0 f)).1)
              (λ w f.
                (map_get-In m' valid j w).1 (gone.kept j w differs ((map_get-In m p j w).0 f))))
    ]

-- `RobinHoodMap` obeys the laws of a map, for `set` on at most 2 ^ 24 slots: both `set` and `del` keep
-- the map valid; `get` reads what was set last under the key, and nothing after `del`; under other
-- keys it reads what it read before.
pub robin_hood-MapLaws : MapLaws robin_hood IsMap HasRoom
robin_hood-MapLaws = record {
  set-IsMap = λ m k v p small. (set-In m k v p small).0;
  del-IsMap = λ m k p. (del-In m k p).0;
  get-set = get-set_lem;
  get-del = get-del_lem;
}
