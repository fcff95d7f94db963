-- ===== src/Tests/KvTests.antt =====
-- Runs of the key-value engine, over the Robin Hood hash map.
use fast_graph.Prelude.{
  ◌≡◌, refl, true, none, some, arith, if◌then◌else◌, ℤ, pos, ◌+ℤ◌, ◌≤ℤ◌, ltb_ℤ, ◌==◌, nat_eq,
  int_eq, text_eq, Text, ◌^◌,
}
use fast_graph.Prelude.Dict.{find}
use fast_graph.Kv.Ttl.{TtlManager, evict_expired, get_expiry, empty, set_expiry, remove_expiry}
use fast_graph.Kv.Ttl.Index.{IsIndexed, deadline}
use fast_graph.Kv.Ttl.Expiry.{Updates, set_expiry-Updates, remove_expiry-Updates}
use fast_graph.Prelude.{◌+◌, ◌≢◌, ◌↔◌, ◌⊎◌, Option, Bool, false}
use fast_graph.Kv.HashMap.{RobinHoodMap, new, next_pow2, get, set_key, del}
use fast_graph.Kv.HashMap.Contents.{Absent}
use fast_graph.Kv.HashMap.Grow.{IsMap, HasRoom}
use fast_graph.Kv.HashMap.Search.{In, get_lem}
use fast_graph.Kv.HashMap.Delete.{Removes, del_lem}
use fast_graph.Kv.HashMap.Methods.{set_key_lem, new-IsMap}
use fast_graph.Kv.HashMap.Laws.{robin_hood, robin_hood-MapLaws}
use fast_graph.Kv.Engine
use fast_graph.Kv.Engine.{MapOps, KvEngine}
use fast_graph.Kv.Engine.Visible.{
  IsEngine, visible, unless_expired, set-visible, del-visible, get-visible,
}
use fast_graph.Kv.Engine.Eviction.{has, tick-visible}
use fast_graph.Kv.Engine.Overdue.{if_ahead, evict_expired_lem}
use fast_graph.Kv.Ttl.Order.{IsHeap}
use fast_graph.Kv.Ttl.Schedule.{set_expiry_lem}
use fast_graph.Kv.Engine.Listing.{Lists, all_entries, all_entries-visible}
use fast_graph.Dispatch.Exceptions.{codes}

empty-IsIndexed : IsIndexed empty
unfolding empty find
empty-IsIndexed = record { placed = λ k i f. cc; listed = λ i h. absurd (omega arith) }

abbrev two_keys : TtlManager
two_keys = set_expiry (set_expiry empty (pos 5) (codes "a") (pos 9)) (pos 5) (codes "b") (pos 2)

two_keys-IsIndexed : IsIndexed two_keys
two_keys-IsIndexed =
    (set_expiry-Updates (set_expiry empty (pos 5) (codes "a") (pos 9)) (pos 5) (codes "b") (pos 2)
      (set_expiry-Updates empty (pos 5) (codes "a") (pos 9) empty-IsIndexed).indexed).indexed

empty-IsHeap : IsHeap empty
unfolding empty
empty-IsHeap c p h = absurd (omega arith)

two_keys-IsHeap : IsHeap two_keys
two_keys-IsHeap =
    let one = set_expiry empty (pos 5) (codes "a") (pos 9) in
    let (u, ordered) =
      set_expiry_lem empty (pos 5) (codes "a") (pos 9) empty-IsIndexed empty-IsHeap in
    (set_expiry_lem one (pos 5) (codes "b") (pos 2) u.indexed ordered).1

set_expiry_lem_example :
    Updates two_keys
      (set_expiry two_keys (pos 6) (codes "b") (pos 30))
      (codes "b")
      (some (pos 6 +ℤ pos 30))
    × IsHeap (set_expiry two_keys (pos 6) (codes "b") (pos 30))
set_expiry_lem_example =
    set_expiry_lem two_keys (pos 6) (codes "b") (pos 30) two_keys-IsIndexed two_keys-IsHeap

evict_expired_lem_example :
    IsIndexed (evict_expired two_keys (pos 8)).1
    × IsHeap (evict_expired two_keys (pos 8)).1
    × ((k : Text)
        → deadline (evict_expired two_keys (pos 8)).1 k ≡ if_ahead (pos 8) (deadline two_keys k))
    × ((k : Text)
        → (has k (evict_expired two_keys (pos 8)).0 ≡ true)
          ↔ ((d : ℤ) × (deadline two_keys k ≡ some d) × (d ≤ℤ pos 8)))
evict_expired_lem_example = evict_expired_lem two_keys (pos 8) two_keys-IsIndexed two_keys-IsHeap

remove_expiry-Updates_example :
    Updates two_keys (remove_expiry two_keys (codes "b")) (codes "b") none
remove_expiry-Updates_example = remove_expiry-Updates two_keys (codes "b") two_keys-IsIndexed

sixteen : next_pow2 16 ≡ 2 ^ 4
unfolding next_pow2
sixteen = refl

-- One entry in a table of sixteen slots.
abbrev one_key : RobinHoodMap
one_key = (robin_hood.map_set (new 16) (codes "a") (codes "1")).1

new-room : HasRoom (new 16)
unfolding new next_pow2
new-room = omega arith

one_key-IsMap : IsMap one_key
one_key-IsMap =
    robin_hood-MapLaws.set-IsMap (new 16) (codes "a") (codes "1")
      (new-IsMap 16 4 sixteen (omega arith)).0 new-room

abbrev store : KvEngine RobinHoodMap
store = record { map = one_key; ttl = two_keys }

store-IsEngine : IsEngine IsMap store
store-IsEngine = record { values = one_key-IsMap; deadlines = two_keys-IsIndexed }

abbrev fresh : KvEngine RobinHoodMap
fresh = record { map = new 16; ttl = two_keys }

fresh-IsEngine : IsEngine IsMap fresh
fresh-IsEngine = record {
  values = (new-IsMap 16 4 sixteen (omega arith)).0;
  deadlines = two_keys-IsIndexed;
}

get_lem_example :
    (r : Option Text) × (get one_key (codes "a") ≡ some r)
    × ((w : Text) → (r ≡ some w) ↔ In one_key (codes "a") w)
get_lem_example = get_lem one_key one_key-IsMap (codes "a")

set_key_lem_example :
    (b : Bool) × (m' : RobinHoodMap) × (set_key (new 16) (codes "a") (codes "1") ≡ some (b, m'))
    × IsMap m'
    × ((k w : Text)
        → In m' k w ↔ (((k ≢ codes "a") × In (new 16) k w) ⊎ ((k ≡ codes "a") × (w ≡ codes "1"))))
    × (((b ≡ true) × ((w : Text) → ¬ (In (new 16) (codes "a") w)) × (m'.size ≡ (new 16).size + 1))
        ⊎ ((b ≡ false) × ((w : Text) × In (new 16) (codes "a") w) × (m'.size ≡ (new 16).size)))
set_key_lem_example =
    set_key_lem (new 16) (codes "a") (codes "1") (new-IsMap 16 4 sixteen (omega arith)).0 new-room

del_lem_example :
    (b : Bool) × (m' : RobinHoodMap) × (del one_key (codes "a") ≡ some (b, m'))
    × IsMap m'
    × Removes one_key m' (codes "a")
    × (m'.capacity ≡ one_key.capacity)
    × (((b ≡ true) × ((w : Text) × In one_key (codes "a") w) × (m'.size + 1 ≡ one_key.size))
        ⊎ ((b ≡ false) × Absent one_key.capacity one_key.entries (codes "a") × (m' ≡ one_key)))
del_lem_example = del_lem one_key one_key-IsMap (codes "a")

set-visible_example :
    IsEngine IsMap (Engine.set robin_hood fresh (pos 7) (codes "c") (codes "3") (pos 4)).1
    × ((later : ℤ) (j : Text)
        → visible robin_hood
            (Engine.set robin_hood fresh (pos 7) (codes "c") (codes "3") (pos 4)).1
            later
            j
          ≡ (if codes "c" == j
              then unless_expired
                  (if ltb_ℤ (pos 0) (pos 4) then some (pos 7 +ℤ pos 4) else none)
                  later
                  (some (codes "3"))
              else visible robin_hood fresh later j))
set-visible_example =
    set-visible robin_hood IsMap HasRoom robin_hood-MapLaws fresh (pos 7) (codes "c") (codes "3")
      (pos 4) fresh-IsEngine new-room

del-visible_example :
    IsEngine IsMap (Engine.del robin_hood store (codes "a")).1
    × ((later : ℤ) (j : Text)
        → visible robin_hood (Engine.del robin_hood store (codes "a")).1 later j
          ≡ (if codes "a" == j then none else visible robin_hood store later j))
del-visible_example =
    del-visible robin_hood IsMap HasRoom robin_hood-MapLaws store (codes "a") store-IsEngine

get-visible_example :
    ((Engine.get robin_hood store (pos 20) (codes "a")).0
      ≡ visible robin_hood store (pos 20) (codes "a"))
    × IsEngine IsMap (Engine.get robin_hood store (pos 20) (codes "a")).1
    × ((later : ℤ) (j : Text)
        → pos 20 ≤ℤ later
        → visible robin_hood (Engine.get robin_hood store (pos 20) (codes "a")).1 later j
          ≡ visible robin_hood store later j)
get-visible_example =
    get-visible robin_hood IsMap HasRoom robin_hood-MapLaws store (pos 20) (codes "a")
      store-IsEngine

no_deadline : (k : Text) → deadline empty k ≡ none
unfolding empty deadline find
no_deadline k = refl

two_keys-nonneg : (k : Text) (d : ℤ) → deadline two_keys k ≡ some d → pos 0 ≤ℤ d
unfolding ◌+ℤ◌
two_keys-nonneg k d e =
    let one = set_expiry-Updates empty (pos 5) (codes "a") (pos 9) empty-IsIndexed in
    let two =
      set_expiry-Updates (set_expiry empty (pos 5) (codes "a") (pos 9)) (pos 5) (codes "b") (pos 2)
        one.indexed in
    ground (arith, one.deadlines k, two.deadlines k, e, no_deadline k)

tick-visible_example :
    IsEngine IsMap (Engine.tick robin_hood store (pos 8))
    × ((later : ℤ) (j : Text)
        → pos 8 ≤ℤ later
        → visible robin_hood (Engine.tick robin_hood store (pos 8)) later j
          ≡ visible robin_hood store later j)
tick-visible_example =
    tick-visible robin_hood IsMap HasRoom robin_hood-MapLaws store (pos 8) store-IsEngine
      two_keys-nonneg

all_entries-visible_example : Lists (all_entries store (pos 8)) (codes "a") (codes "1") (pos 14) ↔ (
    (visible robin_hood store (pos 8) (codes "a") ≡ some (codes "1"))
    × (pos 14 ≡ get_expiry store.ttl (codes "a")))
all_entries-visible_example =
    all_entries-visible store (pos 8) store-IsEngine (codes "a") (codes "1") (pos 14)
