-- ===== src/Dispatch/Exceptions.antt =====
-- Exceptions as values, and the conversions of the C++ library that throw them.
use fast_graph.Prelude.{
  ℕ, ◌-◌, ◌^◌, Bool, false, ◌&&◌, Option, none, some, [], ◌∷◌, ltb, leb, if◌then◌else◌, ℤ, pos,
  pos_part, neg_part, ◌-ℤ◌, ◌==◌, nat_eq, int_eq, text_eq, Text,
}
use Prim.Native.Char.{code}
use Prim.Native.String.{String}
use fast_graph.Protocol.Decimal.{is_digit, skip_spaces, read_digits}

-- A value, or an exception with its `what()`.
pub data Throws {ℓ} (A : Type ℓ) : Type ℓ where
  ok : A → Throws A
  thrown : Text → Throws A

infixl 5 ◌>>=◌
abbrev pub ◌>>=◌ {ℓ κ} : {A : Type ℓ} {B : Type κ} → Throws A → (A → Throws B) → Throws B
ok a >>= f = f a
thrown m >>= f = thrown m

-- The bytes of an ASCII literal.
abbrev pub codes : String → Text
codes String.[] = []
codes (String.◌∷◌ c s) = code c ∷ codes s

-- `toupper` in the C locale, on each byte
unfoldable pub to_upper : Text → Text
to_upper [] = []
to_upper (c ∷ cs) = (if leb b'a' c && leb c b'z' then c - 32 else c) ∷ to_upper cs

abbrev pub starts_digit : Text → Bool
starts_digit [] = false
starts_digit (c ∷ cs) = is_digit c

-- The number at the start of a text behind white space and a sign, if there is one.
unfoldable pub read_int : Text → Option ℤ
read_int [] = none
read_int (c ∷ cs) =
    if c == b'-'
    then if starts_digit cs then some (pos 0 -ℤ pos (read_digits 0 cs)) else none
    else if c == b'+'
    then if starts_digit cs then some (pos (read_digits 0 cs)) else none
    else if is_digit c
    then some (pos (read_digits 0 (c ∷ cs)))
    else none

-- A conversion to a signed type of range [-limit, limit) that throws by the name `what`.
unfoldable pub convert : Text → ℕ → Text → Throws ℤ
unfolding read_int
convert what limit s = elim (read_int (skip_spaces s)) [
  | none ↦ thrown what
  | some n ↦ if ltb (pos_part n) limit && leb (neg_part n) limit then ok n else thrown what
]

unfoldable pub stoi : Text → Throws ℤ
unfolding convert
stoi s = convert (codes "stoi") (2 ^ 31) s

unfoldable pub stoll : Text → Throws ℤ
unfolding convert
stoll s = convert (codes "stoll") (2 ^ 63) s

-- The reply to a call that returned a value and a new state.
abbrev pub answer {ℓ} : {A : Type ℓ} {S : Type 0} → (A → Text) → A × S → Throws (Text × S)
answer encode (a, s) = ok (encode a, s)
