-- ===== src/Prelude/Keys.antt =====
-- `operator==` of the key types: numbers, integers and byte strings.
use Prim.Native.Nat.{ℕ}
use mathlib.Core.Path.{◌≡◌, refl}
use mathlib.Core.Logic.{◌≢◌, ◌↔◌, inl, inr}
use mathlib.Core.Bool.{Bool, true, false, ◌&&◌}
use mathlib.Core.List.{List, [], ◌∷◌}
use native.Mathlib.Omega.{arith}
use fast_graph.Prelude.Tests.{nat_beq, nat_beq_iff, Bool-cases}
use fast_graph.Prelude.Int.{ℤ, int_beq, int_beq_iff}

-- A test of equality, and that it is one.
pub record Eq {ℓ} (Key : Type ℓ) : Type ℓ where
  pub beq : (a b : Key) → Bool
  pub beq_iff : (a b : Key) → (beq a b ≡ true) ↔ (a ≡ b)

-- `==` of C++, below the arithmetic operators
infix 50 ◌==◌
abbrev pub ◌==◌ {ℓ} : {Key : Type ℓ} ⦃eq : Eq Key⦄ → (a b : Key) → Bool
◌==◌ ⦃eq⦄ a b = eq.beq a b

instance abbrev pub nat_eq : Eq ℕ
nat_eq = record { beq_iff = nat_beq_iff; beq = nat_beq }

instance abbrev pub int_eq : Eq ℤ
int_eq = record { beq_iff = int_beq_iff; beq = int_beq }

-- A `std::string` is the list of its bytes.
abbrev pub Text : Type 0
Text = List ℕ

unfoldable pub list_beq : Text → Text → Bool
list_beq [] [] = true
list_beq [] (y ∷ ys) = false
list_beq (x ∷ xs) [] = false
list_beq (x ∷ xs) (y ∷ ys) = nat_beq x y && list_beq xs ys

pub list_beq_iff : (a b : Text) → (list_beq a b ≡ true) ↔ (a ≡ b)
unfolding list_beq
list_beq_iff [] [] = ground arith
list_beq_iff [] (y ∷ ys) = ground arith
list_beq_iff (x ∷ xs) [] = ground arith
list_beq_iff (x ∷ xs) (y ∷ ys) = ground (arith, list_beq_iff xs ys)

instance abbrev pub text_eq : Eq Text
text_eq = record { beq = list_beq; beq_iff = list_beq_iff }

module _ {ℓ} {A : Type ℓ} ⦃e : Eq A⦄ where
  pub eq_refl : (a : A) → (a == a) ≡ true
  eq_refl a = (e.beq_iff a a).1 refl

  pub eq_true : (a b : A) → (a == b) ≡ true → a ≡ b
  eq_true a b h = (e.beq_iff a b).0 h

  pub eq_false : (a b : A) → a ≢ b → (a == b) ≡ false
  eq_false a b h = elim (Bool-cases (a == b)) [
    | inl same ↦ absurd (h (eq_true a b same))
    | inr other ↦ other
  ]

  pub eq_symm : (a b : A) → (a == b) ≡ (b == a)
  eq_symm a b = ground (arith, e.beq_iff a b, e.beq_iff b a)
