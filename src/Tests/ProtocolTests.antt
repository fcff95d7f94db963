-- ===== src/Tests/ProtocolTests.antt =====
-- Runs of the encoder and the parser.
use fast_graph.Prelude.{
  ◌^◌, ◌<◌, ◌≡◌, refl, false, [], ◌∷◌, ◌++◌, arith, length, nat_eq, int_eq, text_eq,
}
use fast_graph.Protocol.Decimal.{to_string, is_digit}
use fast_graph.Protocol.Encoder.{array, bulk_string}
use fast_graph.Protocol.Resp.{parse, complete}
use fast_graph.Protocol.Resp.RoundTrip.{parse-array}
use fast_graph.Dispatch.Exceptions.{codes}

space-not_digit : is_digit b' ' ≡ false
space-not_digit = refl

get_short : length (array (codes "GET" ∷ codes "k" ∷ []) ++ codes "*1") < 2 ^ 31
unfolding array to_string bulk_string
get_short = omega arith

parse-array_example :
    parse (array (codes "GET" ∷ codes "k" ∷ []) ++ codes "*1")
    ≡ complete (codes "GET" ∷ codes "k" ∷ []) (codes "*1")
parse-array_example = parse-array (codes "GET") (codes "k" ∷ []) (codes "*1") get_short
