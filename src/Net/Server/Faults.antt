-- ===== src/Net/Server/Faults.antt =====
-- `Server::try_parse` of src/net/server.cpp on malformed input.
use fast_graph.Prelude.{
  ℕ, zero, suc, ◌+◌, ◌-◌, ◌^◌, ◌≤◌, ◌<◌, ◌≡◌, refl, ap, ◌∙◌, true, List, [], ◌∷◌, ◌++◌, arith, ltb,
  length, drop, length-append, pos, negsuc, ◌-ℤ◌, nat_eq, int_eq, text_eq, Text, ltb-true,
  ltb-false, leb-false, take_all,
}
use fast_graph.Protocol.Encoder
use fast_graph.Protocol.Decimal.{atoi, to_int}
use fast_graph.Protocol.Resp.{
  parse, complete, error, parse_bulk, argument, find_crlf, parse_array, parse_bulks,
}
use fast_graph.Protocol.Resp.RoundTrip.{parse_bulk_wrapped, parse_array-header}
use fast_graph.Dispatch.Exceptions.{Throws, ok, codes}
use fast_graph.Net.Server.{
  Conn, writing, closing, done, out_of_fuel, ask_to_write, parse_loop, try_parse,
}

-- `*1`, CR LF, `$-12`, CR LF: a length that leads back to the start of the buffer.
abbrev pub endless : Text
endless = b'*' ∷ b'1' ∷ 13 ∷ 10 ∷ b'$' ∷ b'-' ∷ b'1' ∷ b'2' ∷ 13 ∷ 10 ∷ []

find_crlf-endless :
    (rest : Text)
    → (find_crlf (endless ++ rest) 0 ≡ pos 2) × (find_crlf (endless ++ rest) 4 ≡ pos 8)
unfolding find_crlf to_int
find_crlf-endless rest = (refl, refl)

atoi-endless :
    (rest : Text)
    → (atoi (drop 1 (endless ++ rest)) ≡ pos 1) × (atoi (drop 5 (endless ++ rest)) ≡ negsuc 11)
unfolding atoi to_int ◌-ℤ◌
atoi-endless rest = (refl, refl)

-- The bulk item of such a buffer is all the bytes behind it, and the next position is 0.
parse_bulk-endless :
    (rest : Text) → length rest < 2 ^ 62 → parse_bulk (endless ++ rest) 4 ≡ argument rest 0
parse_bulk-endless rest small =
    parse_bulk_wrapped (endless ++ rest) 4 8 11 0 (leb-false _ _ (omega arith)) refl
      ((find_crlf-endless rest).1) ((atoi-endless rest).1) refl (ltb-false _ _ (omega arith))
    ∙ ap (λ t. argument t 0) (take_all (2 ^ 64 - 12) rest (omega arith))

one_round :
    (buf : Text) (at : ℕ) (arg : Text) (next : ℕ)
    → parse_bulk buf at ≡ argument arg next
    → parse_bulks 1 buf at [] ≡ complete (arg ∷ []) (drop next buf)
unfolding parse_bulks
one_round buf at arg next e = rw (e, parse_bulks)

star : (t : Text) → parse (b'*' ∷ t) ≡ parse_array (b'*' ∷ t)
unfolding parse
star t = refl

-- The parser takes a command off such a buffer and consumes nothing.
pub parse-endless :
    (rest : Text)
    → length rest < 2 ^ 62
    → parse (endless ++ rest) ≡ complete (rest ∷ []) (endless ++ rest)
parse-endless rest small =
    let (found, _) = find_crlf-endless rest in
    let (value, _) = atoi-endless rest in
    star (drop 1 (endless ++ rest))
    ∙ parse_array-header (endless ++ rest) 0 2 found value
    ∙ one_round (endless ++ rest) 4 rest 0 (parse_bulk-endless rest small)

length-error : (msg : Text) → length (Encoder.error msg) ≡ 5 + length (msg ++ b'\r' ∷ b'\n' ∷ [])
unfolding Encoder.error
length-error msg = omega arith

module _ {S : Type 0} (dispatch : List Text → S → Throws (Text × S)) where
  -- If the dispatcher answers, in every state, the command whose only argument is the bytes behind
  -- such a header, the loop of `try_parse` never ends on the buffer: no number of rounds is enough.
  pub try_parse-endless :
      (rest : Text) (answers : (s : S) → (r : Text × S) × (dispatch (rest ∷ []) s ≡ ok r))
      (fuel : ℕ) (c : Conn) (s : S)
      → length rest < 2 ^ 62
      → c.read_buf ≡ endless ++ rest
      → try_parse dispatch fuel c s ≡ out_of_fuel
  unfolding try_parse
  try_parse-endless rest answers fuel c s small e = rw (spins fuel c s e)
    where
      spins :
          (fuel : ℕ) (c : Conn) (s : S)
          → c.read_buf ≡ endless ++ rest
          → parse_loop dispatch fuel c s ≡ out_of_fuel
      spins zero c s e = refl
      spins (suc fuel) c s e =
          let ((reply, s'), d) = answers s in
          let p : parse c.read_buf ≡ complete (rest ∷ []) (endless ++ rest) =
            rw e (parse-endless rest small) in
          rw (p, parse_loop) (rw (d) (spins fuel _ s' refl))

  -- Where the parser reports an error, `try_parse` leaves the connection waiting to write, not
  -- closing: the state that the loop sets is overwritten.
  pub try_parse-error :
      (fuel : ℕ) (c : Conn) (s : S) (buf : Text)
      → c.write_offset ≤ length c.write_buf
      → parse c.read_buf ≡ error buf
      → (c' : Conn) × (try_parse dispatch (suc fuel) c s ≡ done c' s)
        × (c'.state ≡ writing)
        × (c'.want_write ≡ true)
  unfolding try_parse
  try_parse-error fuel c s buf h e =
      let reply = Encoder.error (codes "protocol error") in
      let c₁ : Conn = record c {
        read_buf = buf;
        write_buf = c.write_buf ++ reply;
        state = closing;
      } in
      let more : ltb c₁.write_offset (length c₁.write_buf) ≡ true =
        ltb-true _ _
          (omega (arith, length-append c.write_buf reply, length-error (codes "protocol error"))) in
      (
        record c₁ { state = writing; want_write = true },
        rw (e, parse_loop) (rw (more, ask_to_write)),
        refl,
        refl,
      )
