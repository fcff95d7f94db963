-- ===== src/Kv/HashMap.antt =====
-- src/kv/hashmap.cpp: `RobinHoodMap`, an open-addressing table with Robin Hood probing. `none` stands
-- for a loop whose fuel has run out. A distance `dib` is below the capacity, so that `dib++` is kept
-- exact. The product of the capacity with 0.75f is exact, and so is a size below 2 ^ 24 as a `float`:
-- the load is tested on integers.
pub mod Cycle
pub mod Table
pub mod Probe
pub mod Contents
pub mod Insert
pub mod Overwrite
pub mod Erase
pub mod Reinsert
pub mod Grow
pub mod Search
pub mod Delete
pub mod Methods
pub mod Laws
use fast_graph.Prelude.{
  ℕ, zero, suc, ◌+◌, ◌-◌, ◌*◌, ◌/◌, ◌%◌, ◌^◌, ◌≤◌, ◌<◌, min, max, ◌≡◌, refl, sym, ap, subst, ◌∙◌,
  ◌≢◌, ◌↔◌, ◌⊎◌, inl, inr, ⊎_elim, Bool, true, false, not, ◌&&◌, ◌||◌, Option, none, some, List, [],
  ◌∷◌, ◌++◌, map, append-nil, append_assoc, arith, ltb, leb, if◌then◌else◌, Bool-cases,
  Option-cases, List-cases, length, get_elem?, get_or, set, take, drop, replicate, length-append,
  length-set, get_or-set_self, get_or-set_ne, length-take, length-drop, take-append_all,
  drop-append_all, ℤ, pos, negsuc, pos_part, neg_part, ◌+ℤ◌, ◌-ℤ◌, ◌≤ℤ◌, ◌<ℤ◌, ltb_ℤ, leb_ℤ,
  int_laws, Eq, ◌==◌, nat_eq, int_eq, text_eq, Text, eq_refl, eq_true, eq_false, eq_symm, ltb-true,
  ltb-false, leb-true, leb-false, drop-drop, get_or-drop, drop-append_of_length, drop-nil, take_all,
}
use Prim.Native.Nat.{bit_and, bit_or, bit_xor}

-- `EMPTY`
abbrev pub empty_hash : ℕ
empty_hash = 4294967295

pub record Entry : Type 0 where
  pub hash : ℕ
  pub dib : ℕ
  pub key : Text
  pub val : Text

abbrev pub is_empty : Entry → Bool
is_empty e = e.hash == empty_hash

-- A slot after `clear_all`, or after the reset in `erase_at`.
abbrev pub no_entry : Entry
no_entry = record { hash = empty_hash; dib = 0; key = []; val = [] }

pub record RobinHoodMap : Type 0 where
  pub entries : List Entry
  pub size : ℕ
  pub capacity : ℕ
  pub mask : ℕ

-- `entries_[i]`
abbrev pub slot_at : List Entry → ℕ → Entry
slot_at es i = get_or es i no_entry

-- One round: `h ^= c ; h *= 16777619u`
unfoldable pub hash_bytes : ℕ → Text → ℕ
hash_bytes h [] = h
hash_bytes h (c ∷ cs) = hash_bytes (bit_xor h c * 16777619 % 2 ^ 32) cs

unfoldable pub hash : Text → ℕ
unfolding hash_bytes
hash key = let h = hash_bytes 2166136261 key in if h == empty_hash then h - 1 else h

unfoldable pub spread : ℕ → ℕ → ℕ
spread n shift = bit_or n (n / 2 ^ shift)

-- `n--` wraps at 0.
unfoldable pub next_pow2 : ℕ → ℕ
unfolding spread
next_pow2 n =
    (spread (spread (spread (spread (spread ((n + 2 ^ 64 - 1) % 2 ^ 64) 1) 2) 4) 8) 16 + 1) % 2 ^ 64

-- `new Entry[capacity]()` with `clear_all()`
abbrev pub cleared : ℕ → List Entry
cleared n = replicate n no_entry

unfoldable pub new : ℕ → RobinHoodMap
unfolding next_pow2
new initial =
    let capacity = next_pow2 initial in
    record {
      entries = cleared capacity;
      size = 0;
      capacity = capacity;
      mask = (capacity + 2 ^ 32 - 1) % 2 ^ 32;
    }

-- `( idx + 1 ) & mask_`
unfoldable pub next_idx : ℕ → ℕ → ℕ
next_idx mask idx = bit_and ((idx + 1) % 2 ^ 32) mask

abbrev pub same_key : Entry → ℕ → Text → Bool
same_key slot h key = slot.hash == h && slot.key == key

-- The loop that `get` and `del` share: the index of the key, or none.
unfoldable pub probe : ℕ → List Entry → ℕ → ℕ → Text → ℕ → ℕ → Option (Option ℕ)
unfolding next_idx
probe zero es mask h key idx dib = none
probe (suc fuel) es mask h key idx dib =
    let slot = slot_at es idx in
    let rest = probe fuel es mask h key (next_idx mask idx) (dib + 1) in
    if is_empty slot
    then some none
    else if ltb slot.dib dib
    then some none
    else if same_key slot h key
    then some (some idx)
    else rest

abbrev pub val_at : List Entry → Option ℕ → Option Text
val_at es none = none
val_at es (some idx) = some (slot_at es idx).val

unfoldable pub get : RobinHoodMap → Text → Option (Option Text)
unfolding probe hash
get m key = elim (probe m.capacity m.entries m.mask (hash key) key (bit_and (hash key) m.mask) 0) [
  | none ↦ none
  | some found ↦ some (val_at m.entries found)
]

abbrev pub bump : Entry → Entry
bump e = record e { dib = e.dib + 1 }

-- The loop of `set`, and with `check` false the one in `grow`, which has no test of the key.
unfoldable pub insert_loop : ℕ → Bool → List Entry → ℕ → ℕ → Entry → ℕ → Option (Bool × List Entry)
unfolding next_idx
insert_loop zero check es mask h incoming idx = none
insert_loop (suc fuel) check es mask h incoming idx =
    let slot = slot_at es idx in
    let swap = ltb slot.dib incoming.dib in
    let rest =
      insert_loop fuel check (if swap then set es idx incoming else es) mask h
        (bump (if swap then slot else incoming)) (next_idx mask idx) in
    if is_empty slot
    then some (true, set es idx incoming)
    else if check && same_key slot h incoming.key
    then some (false, set es idx (record slot { val = incoming.val }))
    else rest

-- The loop of `grow` over the old slots, with the new `size_`.
unfoldable pub reinsert : List Entry → ℕ → List Entry → ℕ → ℕ → Option (List Entry × ℕ)
unfolding insert_loop
reinsert [] fuel es mask size = some (es, size)
reinsert (old ∷ olds) fuel es mask size = elim (is_empty old) [
  | true ↦ reinsert olds fuel es mask size
  | false ↦
      elim (insert_loop fuel false es mask old.hash (record old { dib = 0 })
        (bit_and old.hash mask)) [
          | none ↦ none
          | some (_, es') ↦ reinsert olds fuel es' mask (size + 1)
        ]
]

unfoldable pub grow : RobinHoodMap → Option RobinHoodMap
unfolding reinsert
grow m =
    let capacity = m.capacity * 2 in
    let mask = (capacity + 2 ^ 32 - 1) % 2 ^ 32 in
    elim (reinsert m.entries capacity (cleared capacity) mask 0) [
      | none ↦ none
      | some (es, size) ↦
          some (record { entries = es; size = size; capacity = capacity; mask = mask })
    ]

-- `if ( size_ + 1 > capacity_ * MAX_LOAD ) grow()`
unfoldable pub make_room : RobinHoodMap → Option RobinHoodMap
unfolding grow
make_room m = if ltb (3 * m.capacity) (4 * (m.size + 1)) then grow m else some m

abbrev pub grown_by : RobinHoodMap → Option (Bool × List Entry) → Option (Bool × RobinHoodMap)
grown_by m none = none
grown_by m (some (true, es)) = some (true, record m { entries = es; size = m.size + 1 })
grown_by m (some (false, es)) = some (false, record m { entries = es })

-- `set` behind the test of the load.
unfoldable pub insert : RobinHoodMap → Text → Text → Option (Bool × RobinHoodMap)
unfolding insert_loop hash
insert m key val =
    let h = hash key in
    let incoming : Entry = record { hash = h; dib = 0; key = key; val = val } in
    grown_by m (insert_loop m.capacity true m.entries m.mask h incoming (bit_and h m.mask))

unfoldable pub set_key : RobinHoodMap → Text → Text → Option (Bool × RobinHoodMap)
unfolding make_room insert
set_key m key val = elim (make_room m) [ none ↦ none | some m' ↦ insert m' key val ]

-- The entry that is moved away stays behind until the next round writes over it.
unfoldable pub erase_at : ℕ → List Entry → ℕ → ℕ → Option (List Entry)
unfolding next_idx
erase_at zero es mask idx = none
erase_at (suc fuel) es mask idx =
    let next = next_idx mask idx in
    let nx = slot_at es next in
    let rest = erase_at fuel (set es idx (record nx { dib = nx.dib - 1 })) mask next in
    if is_empty nx || nx.dib == 0 then some (set es idx no_entry) else rest

abbrev pub shrunk_by : RobinHoodMap → Option (List Entry) → Option (Bool × RobinHoodMap)
shrunk_by m none = none
shrunk_by m (some es) = some (true, record m { entries = es; size = m.size - 1 })

unfoldable pub del : RobinHoodMap → Text → Option (Bool × RobinHoodMap)
unfolding probe erase_at hash
del m key = elim (probe m.capacity m.entries m.mask (hash key) key (bit_and (hash key) m.mask) 0) [
  | none ↦ none
  | some none ↦ some (false, m)
  | some (some idx) ↦ shrunk_by m (erase_at m.capacity m.entries m.mask idx)
]
