-- ===== src/Protocol/Resp/Scan.antt =====
-- `find_crlf` and one round of `parse_array` of src/protocol/resp.cpp on encoded items.
use mathlib.Core.Path.{ap₂}
use fast_graph.Protocol.Decimal.{atoi}
use fast_graph.Prelude.{
  ℕ, suc, ◌+◌, ◌-◌, ◌%◌, ◌^◌, ◌≤◌, ◌<◌, ◌≡◌, refl, ap, ◌∙◌, true, false, some, [], ◌∷◌, ◌++◌,
  append_assoc, arith, ltb, leb, length, get_or, take, drop, length-append, length-drop,
  take-append_all, drop-append_all, pos, ◌==◌, nat_eq, int_eq, text_eq, Text, ltb-false, leb-false,
  drop-drop, get_or-drop,
}
use fast_graph.Protocol.Decimal.{to_string, atoi}
use fast_graph.Protocol.Decimal.RoundTrip.{
  to_int-pos, AreDigits, to_string-AreDigits, atoi-to_string,
}
use fast_graph.Protocol.Encoder.{crlf, bulk_string}
use fast_graph.Protocol.Resp.{scan_crlf, find_crlf, parse_bulk, argument}

-- No byte is a carriage return.
abbrev pub HasNoCr : Text → Type 0
HasNoCr [] = Unit
HasNoCr (c ∷ cs) = ((c == b'\r') ≡ false) × HasNoCr cs

pub HasNoCr-of_digits : (ds : Text) → AreDigits ds → HasNoCr ds
HasNoCr-of_digits [] h = tt
HasNoCr-of_digits (c ∷ cs) h = (ground arith, HasNoCr-of_digits cs h.1)

pub scan_crlf-header :
    (h rest : Text) → HasNoCr h → scan_crlf (h ++ (crlf ++ rest)) ≡ some (length h)
unfolding scan_crlf
scan_crlf-header [] rest n = refl
scan_crlf-header (c ∷ []) rest n = ground arith
scan_crlf-header (c ∷ d ∷ ds) rest n = rw (n.0, scan_crlf-header (d ∷ ds) rest n.1)

pub length-crlf : (x y : Text) → length (x ++ (crlf ++ y)) ≡ length x + 2 + length y
length-crlf x y = omega (arith, length-append x (crlf ++ y))

pub find_crlf-header :
    (buf : Text) (at : ℕ) (h rest : Text)
    → drop at buf ≡ h ++ (crlf ++ rest)
    → HasNoCr h
    → length buf < 2 ^ 31
    → find_crlf buf at ≡ pos (at + length h)
unfolding find_crlf
find_crlf-header buf at h rest e n small =
    let total = length-drop at buf in
    let parts = ap length e ∙ length-crlf h rest in
    rw (e, find_crlf) (rw (scan_crlf-header h rest n) (to_int-pos (at + length h) (omega arith)))

pub drop_header :
    (buf : Text) (at : ℕ) (h rest : Text)
    → drop at buf ≡ h ++ (crlf ++ rest)
    → drop (at + length h + 2) buf ≡ rest
drop_header buf at h rest e = rw (
  drop-drop (at + length h) 2 buf,
  drop-drop at (length h) buf,
  e,
  drop-append_all h (crlf ++ rest),
)

-- What a round of the loop returns where a bulk header and enough bytes stand at the position.
parse_bulk-parts :
    (buf : Text) (at : ℕ) (ds body : Text) (n : ℕ)
    → drop at buf ≡ (b'$' ∷ ds) ++ (crlf ++ body)
    → HasNoCr ds
    → atoi (drop (at + 1) buf) ≡ pos n
    → n + 2 ≤ length body
    → length buf < 2 ^ 31
    → parse_bulk buf at ≡ argument (take n body) (at + (1 + length ds + 2 + n + 2))
unfolding parse_bulk
parse_bulk-parts buf at ds body n e clean value long small =
    let total : length buf - at ≡ 1 + length ds + 2 + length body =
      omega (arith, length-drop at buf, ap length e, length-crlf ds body) in
    let start = at + suc (length ds) + 2 in
    let next : (start + n % 2 ^ 64 + 2) % 2 ^ 64 ≡ at + (1 + length ds + 2 + n + 2) = omega arith in
    let inside : leb (length buf) at ≡ false = leb-false _ _ (omega arith) in
    let dollar : (get_or buf at 0 == b'$') ≡ true = rw (get_or-drop at buf 0, e) in
    let found : find_crlf buf at ≡ pos (at + suc (length ds)) =
      find_crlf-header buf at (b'$' ∷ ds) body e (refl, clean) small in
    let fits : ltb (length buf) (at + (1 + length ds + 2 + n + 2)) ≡ false =
      ltb-false _ _ (omega arith) in
    let after : drop start buf ≡ body = drop_header buf at (b'$' ∷ ds) body e in
    let width : n % 2 ^ 64 ≡ n = omega arith in
    rw (inside, dollar, found, parse_bulk) (rw (value) (rw (next, fits) (rw (width, after))))

pub length-bulk_string :
    (x : Text) → length (bulk_string x) ≡ 1 + length (to_string (length x)) + 2 + length x + 2
unfolding bulk_string
length-bulk_string x =
    omega (arith, length-crlf (to_string (length x)) (x ++ crlf), length-append x crlf)

-- The bytes at a position are `$`, a length, CR LF, as many bytes, CR LF: the round reads them.
pub parse_bulk-bulk_string :
    (buf : Text) (at : ℕ) (x more : Text)
    → drop at buf ≡ bulk_string x ++ more
    → length buf < 2 ^ 31
    → parse_bulk buf at ≡ argument x (at + length (bulk_string x))
unfolding bulk_string
parse_bulk-bulk_string buf at x more h small =
    let ds = to_string (length x) in
    let body = x ++ (crlf ++ more) in
    let clean = HasNoCr-of_digits ds (to_string-AreDigits (length x)) in
    let shape : drop at buf ≡ (b'$' ∷ ds) ++ (crlf ++ body) = h ∙ simp append_assoc in
    let value : atoi (drop (at + 1) buf) ≡ pos (length x) =
      rw (drop-drop at 1 buf, shape)
        (atoi-to_string (length x) b'\r' (b'\n' ∷ body)
          (omega
            (arith, length-drop at buf, ap length shape, length-crlf ds body, length-crlf x more))
          refl) in
    parse_bulk-parts buf at ds body (length x) shape clean value (omega (arith, length-crlf x more))
      small
    ∙ ap₂ argument (take-append_all x (crlf ++ more)) (omega (arith, length-bulk_string x))
