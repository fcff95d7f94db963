-- ===== src/Protocol/Encoder.antt =====
-- src/protocol/encoder.cpp.
use fast_graph.Prelude.{List, [], ◌∷◌, ◌++◌, Text, length, ℤ}
use fast_graph.Protocol.Decimal.{to_string, to_string_ℤ}

abbrev pub crlf : Text
crlf = b'\r' ∷ b'\n' ∷ []

unfoldable pub simple_string : Text → Text
simple_string s = b'+' ∷ s ++ crlf

unfoldable pub error : Text → Text
error msg = b'-' ∷ b'E' ∷ b'R' ∷ b'R' ∷ b' ' ∷ msg ++ crlf

unfoldable pub integer : ℤ → Text
integer n = b':' ∷ to_string_ℤ n ++ crlf

unfoldable pub bulk_string : Text → Text
bulk_string s = b'$' ∷ to_string (length s) ++ (crlf ++ (s ++ crlf))

unfoldable pub null_bulk : Text
null_bulk = b'$' ∷ b'-' ∷ b'1' ∷ crlf

-- The loop that appends the items.
unfoldable pub bulk_strings : List Text → Text
bulk_strings [] = []
bulk_strings (item ∷ items) = bulk_string item ++ bulk_strings items

unfoldable pub array : List Text → Text
unfolding bulk_strings
array items = b'*' ∷ to_string (length items) ++ (crlf ++ bulk_strings items)

unfoldable pub empty_array : Text
empty_array = b'*' ∷ b'0' ∷ crlf
