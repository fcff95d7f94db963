-- ===== src/Kv/HashMap/Cycle.antt =====
-- The positions of src/kv/hashmap.cpp as a cycle: `( idx + 1 ) & mask_` visits them all.
use fast_graph.Prelude.{
  ℕ, zero, suc, ◌+◌, ◌-◌, ◌%◌, ◌^◌, ◌<◌, ◌≡◌, refl, ap, ◌∙◌, inl, inr, arith, leb, if◌then◌else◌,
  Bool-cases, ◌==◌, nat_eq, int_eq, text_eq,
}
use Prim.Native.Nat.{bit_and}
use native.Mathlib.Nat.{mod-eq_of_lt, mod-lt, one-le-pow, mod_self}
use fast_graph.Prelude.Bits.{bit_and_low}
use fast_graph.Kv.HashMap.{next_idx}

-- `mask` is that of a table of `n` slots, which 32 bits can count.
pub record IsMask (n mask : ℕ) : Type 0 where
  pub width : ℕ
  pub power : n ≡ 2 ^ width
  pub low : mask ≡ n - 1
  pub small : n < 2 ^ 32

-- `d` steps from `i`.
unfoldable pub walk : ℕ → ℕ → ℕ → ℕ
walk mask i zero = i
walk mask i (suc d) = next_idx mask (walk mask i d)

module _ (n mask : ℕ) (m : IsMask n mask) where
  pub some_slot : 0 < n
  some_slot = let p = m.power in omega (arith, one-le-pow m.width 2)

  pub home-lt : (h : ℕ) → bit_and h mask < n
  home-lt h =
      rw (m.low, m.power)
        (rw (bit_and_low m.width h) (mod-lt h (one-le-pow m.width 2 (omega arith))))

  pub next_idx_lem : (i : ℕ) → i < n → next_idx mask i ≡ (if suc i == n then 0 else suc i)
  unfolding next_idx
  next_idx_lem i h =
      let fits : (i + 1) % 2 ^ 32 ≡ i + 1 =
        mod-eq_of_lt {n = i + 1} {m = 2 ^ 32} (let s = m.small in omega arith) in
      let masked : bit_and (i + 1) mask ≡ (i + 1) % n =
        rw (m.low, m.power) (bit_and_low m.width (i + 1)) in
      rw (fits, masked)
        (elim (Bool-cases (suc i == n)) [
          | inl e ↦ let same : i + 1 ≡ n = ground arith in rw (e, same) (mod_self n)
          | inr e ↦ rw e (mod-eq_of_lt {n = i + 1} {m = n} (ground arith) ∙ omega arith)
        ])

  pub next_idx-lt : (i : ℕ) → i < n → next_idx mask i < n
  next_idx-lt i h = ground (arith, next_idx_lem i h, some_slot)

  pub next_idx_inj : (i j : ℕ) → i < n → j < n → next_idx mask i ≡ next_idx mask j → i ≡ j
  next_idx_inj i j hi hj e = ground (arith, next_idx_lem i hi, next_idx_lem j hj)

  pub walk-lt : (d i : ℕ) → i < n → walk mask i d < n
  unfolding walk
  walk-lt zero i h = h
  walk-lt (suc d) i h = next_idx-lt (walk mask i d) (walk-lt d i h)

  pub walk-next_idx : (d i : ℕ) → walk mask (next_idx mask i) d ≡ walk mask i (suc d)
  unfolding walk
  walk-next_idx zero i = refl
  walk-next_idx (suc d) i = ap (next_idx mask) (walk-next_idx d i)

  pub walk-add : (a b i : ℕ) → walk mask i (a + b) ≡ walk mask (walk mask i a) b
  unfolding walk
  walk-add a zero i = let e : a + 0 ≡ a = omega arith in rw e
  walk-add a (suc b) i =
      let e : a + suc b ≡ suc (a + b) = omega arith in rw e (ap (next_idx mask) (walk-add a b i))

  walk_up : (d i : ℕ) → i + d < n → walk mask i d ≡ i + d
  unfolding walk
  walk_up zero i h = omega arith
  walk_up (suc d) i h =
      let e = walk_up d i (omega arith) in rw e (ground (arith, next_idx_lem (i + d) (omega arith)))

  walk_round : (i : ℕ) → i < n → walk mask i (n - i) ≡ 0
  unfolding walk
  walk_round i h =
      let e = walk_up (n - i - 1) i (omega arith) in
      let s : n - i ≡ suc (n - i - 1) = omega arith in
      rw s (rw e (ground (arith, next_idx_lem (i + (n - i - 1)) (omega arith))))

  -- Every position is reached from every other.
  pub walk_reaches : (i t : ℕ) → i < n → t < n → (d : ℕ) × (d < n) × (walk mask i d ≡ t)
  walk_reaches i t hi ht = elim (Bool-cases (leb i t)) [
    | inl e ↦ (t - i, ground arith, walk_up (t - i) i (ground arith) ∙ ground arith)
    | inr e ↦ (
      n - i + t,
      ground arith,
      walk-add (n - i) t i ∙ rw (walk_round i hi) (walk_up t 0 (omega arith) ∙ omega arith),
    )
  ]
