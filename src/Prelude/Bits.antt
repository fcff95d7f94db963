-- ===== src/Prelude/Bits.antt =====
-- `x & (2^k - 1)` and `x & ~(2^k - 1)` on words, as arithmetic at every width.
use Prim.Native.Nat.{bit_and, digits, bit_and-bitwise}
use native.Mathlib.Nat.{pow-suc, one-le-pow}
use fast_graph.Prelude.{
  ℕ, zero, suc, ◌+◌, ◌-◌, ◌*◌, ◌/◌, ◌%◌, ◌^◌, ◌≤◌, ◌<◌, min, ◌≡◌, refl, sym, ◌∙◌, arith,
}

-- The definition that `bit_and` stands for, with its fuel.
abbrev masked : ℕ → ℕ → ℕ → ℕ
masked fuel a b = digits (λ _. 0) min fuel a b

masked-zero : (fuel b : ℕ) → masked fuel 0 b ≡ 0
masked-zero zero b = refl
masked-zero (suc fuel) b = refl

-- Two fuels that both reach the number agree.
masked_enough : (a b n m : ℕ) → (a ≤ n) × (a ≤ m) → masked n a b ≡ masked m a b
masked_enough zero b n m h = masked-zero n b ∙ sym (masked-zero m b)
masked_enough (suc a) b zero m h = absurd (omega arith)
masked_enough (suc a) b (suc n) zero h = absurd (omega arith)
masked_enough (suc a) b (suc n) (suc m) h =
    let rest = masked_enough (suc a / 2) (b / 2) n m (omega arith, omega arith) in
    omega (arith, rest)

-- A conjunction is that of the halves, with that of the lowest digits behind it.
bit_and-halves : (a b : ℕ) → bit_and a b ≡ bit_and (a / 2) (b / 2) * 2 + min (a % 2) (b % 2)
bit_and-halves zero b = omega (arith, bit_and-bitwise 0 b, bit_and-bitwise 0 (b / 2))
bit_and-halves (suc a) b =
    let half = suc a / 2 in
    let same = masked_enough half (b / 2) a half (omega arith, omega arith) in
    omega (arith, same, bit_and-bitwise half (b / 2), bit_and-bitwise (suc a) b)

masked-nothing : (fuel a : ℕ) → masked fuel a 0 ≡ 0
masked-nothing zero a = refl
masked-nothing (suc fuel) zero = refl
masked-nothing (suc fuel) (suc a) = omega (arith, masked-nothing fuel (suc a / 2))

bit_and-zero : (word : ℕ) → bit_and word 0 ≡ 0
bit_and-zero word = bit_and-bitwise word 0 ∙ masked-nothing word word

-- A word that fits `w` bits is kept by a mask of `w` ones.
pub bit_and_ones : (w a : ℕ) → a < 2 ^ w → bit_and a (2 ^ w - 1) ≡ a
bit_and_ones zero a h = ground (arith, bit_and-zero a)
bit_and_ones (suc w) a h =
    ground
      (arith, bit_and-halves a (2 ^ suc w - 1), pow-suc 2 w, one-le-pow w 2, bit_and_ones w (a / 2))

-- One more power of two.
doubled : (n times : ℕ) → times * 2 ^ suc n ≡ 2 * (times * 2 ^ n)
doubled n times = grind (arith, pow-suc 2 n)

bit_and_high_fields :
    (k w q r : ℕ)
    → k ≤ w
    → r < 2 ^ k
    → q * 2 ^ k + r < 2 ^ w
    → bit_and (q * 2 ^ k + r) (2 ^ w - 2 ^ k) ≡ q * 2 ^ k
bit_and_high_fields zero w q r h s f =
    ground (arith, bit_and_ones w (q * 2 ^ 0 + r), bit_and_ones w q)
bit_and_high_fields (suc k) zero q r h s f = absurd (omega arith)
bit_and_high_fields (suc k) (suc w) q r h s f = ground (
  arith,
  bit_and-halves (q * 2 ^ suc k + r) (2 ^ suc w - 2 ^ suc k),
  doubled k q,
  pow-suc 2 k,
  pow-suc 2 w,
  one-le-pow k 2,
  bit_and_high_fields k w q (r / 2),
)

-- Clearing the `k` low bits of a `w`-bit word rounds it down to a multiple of `2 ^ k`.
pub bit_and_high : (k w a : ℕ) → k ≤ w → a < 2 ^ w → bit_and a (2 ^ w - 2 ^ k) ≡ a / 2 ^ k * 2 ^ k
bit_and_high k w a h f =
    ground (arith, one-le-pow k 2, bit_and_high_fields k w (a / 2 ^ k) (a % 2 ^ k))

bit_and_low_fields : (k q r : ℕ) → r < 2 ^ k → bit_and (q * 2 ^ k + r) (2 ^ k - 1) ≡ r
bit_and_low_fields zero q r below =
    let none_left : r ≡ 0 = omega arith in rw none_left (bit_and-zero (q * 1 + 0))
bit_and_low_fields (suc k) q r below = ground (
  arith,
  doubled k q,
  pow-suc 2 k,
  one-le-pow k 2,
  bit_and_low_fields k q (r / 2) (ground (arith, pow-suc 2 k)),
  bit_and-halves (q * 2 ^ suc k + r) (2 ^ suc k - 1),
)

-- Keeping the `k` low bits is the remainder by `2 ^ k`.
pub bit_and_low : (k a : ℕ) → bit_and a (2 ^ k - 1) ≡ a % 2 ^ k
bit_and_low k a =
    let low = bit_and_low_fields k (a / 2 ^ k) (a % 2 ^ k) in grind (arith, low, one-le-pow k 2)
