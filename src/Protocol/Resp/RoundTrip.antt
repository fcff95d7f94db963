-- ===== src/Protocol/Resp/RoundTrip.antt =====
-- `RespParser::parse` of src/protocol/resp.cpp on what `RespEncoder::array` writes, and on negative
-- lengths.
use fast_graph.Prelude.{
  ℕ, suc, ◌+◌, ◌-◌, ◌%◌, ◌^◌, ◌<◌, ◌≡◌, refl, ap, ◌∙◌, true, false, List, [], ◌∷◌, ◌++◌, append-nil,
  append_assoc, arith, ltb, leb, length, get_or, take, drop, length-drop, length-append, ◌≤◌,
  drop-append_all, pos, negsuc, ◌-ℤ◌, ◌==◌, nat_eq, int_eq, text_eq, Text, ltb-false, leb-false,
  drop-drop, get_or-drop, take_all,
}
use fast_graph.Protocol.Decimal.{to_string, atoi}
use fast_graph.Protocol.Decimal.RoundTrip.{to_string-AreDigits, atoi-to_string}
use fast_graph.Protocol.Encoder.{crlf, bulk_string, bulk_strings, array}
use fast_graph.Protocol.Resp.{
  complete, find_crlf, parse_bulk, argument, parse_bulks, parse_array, parse,
}
use fast_graph.Protocol.Resp.Scan.{
  HasNoCr-of_digits, find_crlf-header, drop_header, parse_bulk-bulk_string, length-bulk_string,
  length-crlf,
}

parse_bulks-bulk_strings :
    (xs : List Text) (buf : Text) (at : ℕ) (args : List Text) (rest : Text)
    → drop at buf ≡ bulk_strings xs ++ rest
    → length buf < 2 ^ 31
    → parse_bulks (length xs) buf at args ≡ complete (args ++ xs) rest
unfolding parse_bulks bulk_strings
parse_bulks-bulk_strings [] buf at args rest h small = rw (append-nil, h)
parse_bulks-bulk_strings (x ∷ xs) buf at args rest h small =
    let more = bulk_strings xs ++ rest in
    let here : drop at buf ≡ bulk_string x ++ more =
      h ∙ append_assoc (bulk_string x) (bulk_strings xs) rest in
    let next : drop (at + length (bulk_string x)) buf ≡ more =
      rw (drop-drop at (length (bulk_string x)) buf, here) (drop-append_all (bulk_string x) more) in
    rw (parse_bulk-bulk_string buf at x more here small, parse_bulks)
      (parse_bulks-bulk_strings xs buf _ (args ++ x ∷ []) rest next small ∙ rw append_assoc)

pub parse_array-header :
    (buf : Text) (n at : ℕ)
    → find_crlf buf 0 ≡ pos at
    → atoi (drop 1 buf) ≡ pos (suc n)
    → parse_array buf ≡ parse_bulks (suc n) buf (at + 2) []
unfolding parse_array
parse_array-header buf n at found value = rw (found, parse_array) (rw value)

length-bulk_strings : (xs : List Text) → length xs ≤ length (bulk_strings xs)
unfolding bulk_strings
length-bulk_strings [] = omega arith
length-bulk_strings (x ∷ xs) =
    let n = length-bulk_strings xs in
    let l = length-append (bulk_string x) (bulk_strings xs) in
    let b = length-bulk_string x in omega arith

-- A short array has few items.
few :
    (x : Text) (xs : List Text) (rest : Text)
    → length (array (x ∷ xs) ++ rest) < 2 ^ 31
    → length (x ∷ xs) < 2 ^ 31
unfolding array
few x xs rest small =
    let n = length-bulk_strings (x ∷ xs) in
    let l = length-append (array (x ∷ xs)) rest in
    let c = length-crlf (to_string (length (x ∷ xs))) (bulk_strings (x ∷ xs)) in omega arith

-- A buffer shorter than 2 ^ 31 that starts with an encoded array of one item or more is parsed into the
-- items, and exactly its bytes are consumed. The items may hold any bytes, CR and LF too.
pub parse-array :
    (x : Text) (xs : List Text) (rest : Text)
    → length (array (x ∷ xs) ++ rest) < 2 ^ 31
    → parse (array (x ∷ xs) ++ rest) ≡ complete (x ∷ xs) rest
unfolding parse array
parse-array x xs rest small =
    let ds = to_string (length (x ∷ xs)) in
    let body = bulk_strings (x ∷ xs) ++ rest in
    let buf = array (x ∷ xs) ++ rest in
    let shape : buf ≡ (b'*' ∷ ds) ++ (crlf ++ body) = simp append_assoc in
    let found : find_crlf buf 0 ≡ pos (0 + length (b'*' ∷ ds)) =
      find_crlf-header buf 0 (b'*' ∷ ds) body shape
        (refl, HasNoCr-of_digits ds (to_string-AreDigits (length (x ∷ xs)))) small in
    let value : atoi (drop 1 buf) ≡ pos (length (x ∷ xs)) =
      rw shape (atoi-to_string (length (x ∷ xs)) b'\r' (b'\n' ∷ body) (few x xs rest small) refl) in
    parse_array-header buf (length xs) (0 + length (b'*' ∷ ds)) found value
    ∙ parse_bulks-bulk_strings (x ∷ xs) buf (0 + length (b'*' ∷ ds) + 2) [] rest
        (drop_header buf 0 (b'*' ∷ ds) body shape) small

minus_one : (t : Text) → atoi (b'-' ∷ b'1' ∷ crlf ++ t) ≡ negsuc 0
unfolding atoi ◌-ℤ◌
minus_one t = refl

-- A bulk header with a negative length, at a position that wraps to `next`.
pub parse_bulk_wrapped :
    (buf : Text) (at c k next : ℕ)
    → leb (length buf) at ≡ false
    → (get_or buf at 0 == b'$') ≡ true
    → find_crlf buf at ≡ pos c
    → atoi (drop (at + 1) buf) ≡ negsuc k
    → (c + 2 + (2 ^ 64 - 1 - k % 2 ^ 64) + 2) % 2 ^ 64 ≡ next
    → ltb (length buf) next ≡ false
    → parse_bulk buf at ≡ argument (take (2 ^ 64 - 1 - k % 2 ^ 64) (drop (c + 2) buf)) next
unfolding parse_bulk
parse_bulk_wrapped buf at c k next inside dollar found value e fits =
    rw (inside, dollar, found, parse_bulk) (rw value (rw (e, fits)))

-- A bulk header with the length -1 takes all the rest of the buffer for its argument, and moves on
-- by a single byte.
pub parse_bulk_negative :
    (buf : Text) (at : ℕ) (b : ℕ) (body : Text)
    → drop at buf ≡ (b'$' ∷ b'-' ∷ b'1' ∷ []) ++ (crlf ++ b ∷ body)
    → length buf < 2 ^ 31
    → parse_bulk buf at ≡ argument (b ∷ body) (at + 6)
unfolding parse_bulk
parse_bulk_negative buf at b body e small =
    let total : length buf - at ≡ 6 + length body =
      omega (arith, length-drop at buf, ap length e) in
    let inside : leb (length buf) at ≡ false = leb-false _ _ (omega arith) in
    let dollar : (get_or buf at 0 == b'$') ≡ true = rw (get_or-drop at buf 0, e) in
    let found : find_crlf buf at ≡ pos (at + 3) =
      find_crlf-header buf at (b'$' ∷ b'-' ∷ b'1' ∷ []) (b ∷ body) e (refl, (refl, (refl, tt)))
        small in
    let value : atoi (drop (at + 1) buf) ≡ negsuc 0 = rw (drop-drop at 1 buf, e) (minus_one _) in
    let next : (at + 3 + 2 + (2 ^ 64 - 1) + 2) % 2 ^ 64 ≡ at + 6 = omega arith in
    let fits : ltb (length buf) (at + 6) ≡ false = ltb-false _ _ (omega arith) in
    let after = drop_header buf at (b'$' ∷ b'-' ∷ b'1' ∷ []) (b ∷ body) e in
    let all = take_all (2 ^ 64 - 1) (b ∷ body) (omega arith) in
    parse_bulk_wrapped buf at (at + 3) 0 (at + 6) inside dollar found value next fits
    ∙ rw after (rw all)
