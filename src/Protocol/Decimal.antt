-- ===== src/Protocol/Decimal.antt =====
-- `std::to_string` and `std::atoi` of the C++ library, on bytes, and `int`. A value outside `int`, for
-- which `atoi` is undefined, is cut to 32 bits, so that the result is an `int` in any case.
pub mod RoundTrip
use fast_graph.Prelude.{
  ℕ, zero, suc, ◌+◌, ◌-◌, ◌*◌, ◌/◌, ◌%◌, ◌^◌, Bool, true, false, ◌&&◌, ◌||◌, List, [], ◌∷◌, ◌++◌,
  ltb, leb, Text, ◌==◌, nat_eq, ℤ, pos, negsuc, ◌-ℤ◌, if◌then◌else◌,
}

unfoldable pub dec_digits : ℕ → ℕ → Text
dec_digits zero n = []
dec_digits (suc f) n = elim (ltb n 10) [
  | true ↦ (48 + n) ∷ []
  | false ↦ dec_digits f (n / 10) ++ (48 + n % 10) ∷ []
]

-- `std::to_string(n)`; a number has fewer digits than its successor counts
unfoldable pub to_string : ℕ → Text
unfolding dec_digits
to_string n = dec_digits (suc n) n

unfoldable pub to_string_ℤ : ℤ → Text
unfolding to_string
to_string_ℤ (pos n) = to_string n
to_string_ℤ (negsuc n) = b'-' ∷ to_string (suc n)

abbrev pub is_digit : ℕ → Bool
is_digit c = leb b'0' c && leb c b'9'

abbrev pub is_space : ℕ → Bool
is_space c = leb 9 c && leb c 13 || c == 32

unfoldable pub skip_spaces : Text → Text
skip_spaces [] = []
skip_spaces (c ∷ cs) = if is_space c then skip_spaces cs else c ∷ cs

unfoldable pub read_digits : ℕ → Text → ℕ
read_digits acc [] = acc
read_digits acc (c ∷ cs) = elim (is_digit c) [
  | true ↦ read_digits (acc * 10 + (c - 48)) cs
  | false ↦ acc
]

unfoldable pub read_signed : Text → ℤ
unfolding read_digits
read_signed [] = pos 0
read_signed (c ∷ cs) =
    if c == b'-'
    then pos 0 -ℤ pos (read_digits 0 cs)
    else if c == b'+'
    then pos (read_digits 0 cs)
    else pos (read_digits 0 (c ∷ cs))

-- `(int)`: the value of the low 32 bits
unfoldable pub to_int : ℤ → ℤ
to_int (pos n) = let m = n % 2 ^ 32 in if ltb m (2 ^ 31) then pos m else negsuc (2 ^ 32 - 1 - m)
to_int (negsuc n) = let m = n % 2 ^ 32 in if ltb m (2 ^ 31) then negsuc m else pos (2 ^ 32 - 1 - m)

unfoldable pub atoi : Text → ℤ
unfolding skip_spaces read_signed to_int
atoi s = to_int (read_signed (skip_spaces s))
