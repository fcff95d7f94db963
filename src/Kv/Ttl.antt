-- ===== src/Kv/Ttl.antt =====
-- src/kv/ttl.cpp: a binary heap of deadlines with an index from keys to positions. The clock
-- `now_ms()` is an argument of the operations that read it.
pub mod Index
pub mod Sift
pub mod Expiry
pub mod Order
pub mod Schedule
use fast_graph.Prelude.{
  ℕ, zero, suc, ◌+◌, ◌-◌, ◌*◌, ◌/◌, ◌%◌, ◌^◌, ◌≤◌, ◌<◌, min, max, ◌≡◌, refl, sym, ap, subst, ◌∙◌,
  ◌≢◌, ◌↔◌, ◌⊎◌, inl, inr, ⊎_elim, Bool, true, false, not, ◌&&◌, ◌||◌, Option, none, some, List, [],
  ◌∷◌, ◌++◌, map, append-nil, append_assoc, arith, ltb, leb, if◌then◌else◌, Bool-cases,
  Option-cases, List-cases, length, get_elem?, get_or, set, take, drop, replicate, length-append,
  length-set, get_or-set_self, get_or-set_ne, length-take, length-drop, take-append_all,
  drop-append_all, ℤ, pos, negsuc, pos_part, neg_part, ◌+ℤ◌, ◌-ℤ◌, ◌≤ℤ◌, ◌<ℤ◌, ltb_ℤ, leb_ℤ,
  int_laws, Eq, ◌==◌, nat_eq, int_eq, text_eq, Text, eq_refl, eq_true, eq_false, eq_symm, ltb-true,
  ltb-false, leb-true, leb-false, drop-drop, get_or-drop, drop-append_of_length, drop-nil, take_all,
}
use fast_graph.Prelude.Dict.{Dict, find, put, erase}

pub record TtlEntry : Type 0 where
  pub expires_at : ℤ
  pub key : Text
  pub heap_idx : ℕ

pub record TtlManager : Type 0 where
  pub heap : List TtlEntry
  pub index : Dict Text ℕ

unfoldable pub empty : TtlManager
empty = record { heap = []; index = [] }

-- What stands in for a read outside the heap, which no operation makes.
abbrev pub no_entry : TtlEntry
no_entry = record { expires_at = pos 0; key = []; heap_idx = 0 }

abbrev pub entry_at : List TtlEntry → ℕ → TtlEntry
entry_at heap i = get_or heap i no_entry

unfoldable pub swap_entries : TtlManager → ℕ → ℕ → TtlManager
swap_entries t a b =
    let x = entry_at t.heap a in
    let y = entry_at t.heap b in
    record {
      heap = set (set t.heap a (record y { heap_idx = a })) b (record x { heap_idx = b });
      index = put x.key b (put y.key a t.index);
    }

-- The parent of a position is smaller, so that `i` rounds are enough.
unfoldable pub sift_up : ℕ → ℕ → TtlManager → TtlManager
unfolding swap_entries
sift_up zero i t = t
sift_up (suc fuel) i t =
    let parent = (i - 1) / 2 in
    let rest = sift_up fuel parent (swap_entries t parent i) in
    if i == 0
    then t
    else if leb_ℤ (entry_at t.heap parent).expires_at (entry_at t.heap i).expires_at
    then t
    else rest

-- One of the two tests of `sift_down`: the child, if it is there and expires before `smallest`.
unfoldable pub earlier : List TtlEntry → ℕ → ℕ → ℕ
earlier heap child smallest =
    if ltb child (length heap)
      && ltb_ℤ (entry_at heap child).expires_at (entry_at heap smallest).expires_at
    then child
    else smallest

-- A child stands behind its parent, so that as many rounds as there are entries are enough.
unfoldable pub sift_down : ℕ → ℕ → TtlManager → TtlManager
unfolding earlier swap_entries
sift_down zero i t = t
sift_down (suc fuel) i t =
    let smallest = earlier t.heap (2 * i + 2) (earlier t.heap (2 * i + 1) i) in
    let rest = sift_down fuel smallest (swap_entries t i smallest) in
    if smallest == i then t else rest

-- `sift_up( idx )` and `sift_down( idx )`
unfoldable pub sift : ℕ → TtlManager → TtlManager
unfolding sift_up sift_down
sift i t = let t' = sift_up i i t in sift_down (length t'.heap) i t'

-- `heap_[idx].expires_at = deadline`
unfoldable pub set_deadline : ℕ → ℤ → TtlManager → TtlManager
set_deadline i deadline t = record t {
  heap = set t.heap i (record (entry_at t.heap i) { expires_at = deadline });
}

-- The entry and the index of a key that is new.
unfoldable pub push : Text → ℤ → TtlManager → TtlManager
push key deadline t =
    let n = length t.heap in
    record {
      heap = t.heap ++ record { expires_at = deadline; key = key; heap_idx = n } ∷ [];
      index = put key n t.index;
    }

unfoldable pub set_expiry : TtlManager → ℤ → Text → ℤ → TtlManager
unfolding sift set_deadline push
set_expiry t now key ttl_ms =
    let deadline = now +ℤ ttl_ms in
    elim (find key t.index) [
      | some i ↦ sift i (set_deadline i deadline t)
      | none ↦ sift_up (length t.heap) (length t.heap) (push key deadline t)
    ]

abbrev pub pop_back : List TtlEntry → List TtlEntry
pop_back heap = take (length heap - 1) heap

-- The last entry moves to `i`, and the key of the entry that stood there leaves the index.
unfoldable pub replace_by_last : ℕ → Text → TtlManager → TtlManager
replace_by_last i key t =
    let last = entry_at t.heap (length t.heap - 1) in
    record {
      heap = pop_back (set t.heap i (record last { heap_idx = i }));
      index = put last.key i (erase key t.index);
    }

unfoldable pub drop_last : Text → TtlManager → TtlManager
drop_last key t = record { heap = pop_back t.heap; index = erase key t.index }

unfoldable pub remove_expiry : TtlManager → Text → TtlManager
unfolding sift replace_by_last drop_last
remove_expiry t key = elim (find key t.index) [
  | none ↦ t
  | some i ↦
      if not (i == length t.heap - 1) then sift i (replace_by_last i key t) else drop_last key t
]

unfoldable pub get_expiry : TtlManager → Text → ℤ
get_expiry t key = elim (find key t.index) [
  | none ↦ negsuc 0
  | some i ↦ (entry_at t.heap i).expires_at
]

-- Each round removes an entry, so that as many rounds as there are entries are enough.
unfoldable pub evict_loop : ℕ → ℤ → TtlManager → List Text → List Text × TtlManager
unfolding remove_expiry
evict_loop zero now t expired = (expired, t)
evict_loop (suc fuel) now t expired =
    let first = entry_at t.heap 0 in
    let rest = evict_loop fuel now (remove_expiry t first.key) (expired ++ first.key ∷ []) in
    if not (length t.heap == 0) && leb_ℤ first.expires_at now then rest else (expired, t)

unfoldable pub evict_expired : TtlManager → ℤ → List Text × TtlManager
unfolding evict_loop
evict_expired t now = evict_loop (length t.heap) now t []

unfoldable pub next_expiry_in : TtlManager → ℤ → ℤ
next_expiry_in t now = elim t.heap [
  | [] ↦ negsuc 0
  | first ∷ _ ↦ let delta = first.expires_at -ℤ now in if ltb_ℤ delta (pos 0) then pos 0 else delta
]
