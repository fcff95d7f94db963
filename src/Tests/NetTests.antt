-- ===== src/Tests/NetTests.antt =====
-- Runs of the connection handlers.
use fast_graph.Prelude.{
  ℕ, suc, ◌^◌, ◌<◌, ◌≡◌, refl, true, List, [], ◌∷◌, ◌++◌, arith, length, nat_eq, int_eq, text_eq,
  Text, list_beq,
}
use fast_graph.Protocol.Decimal.{to_string, atoi, to_int}
use fast_graph.Protocol.Encoder.{array, bulk_string, simple_string}
use fast_graph.Protocol.Resp.{parse, error}
use fast_graph.Dispatch.{dispatch}
use fast_graph.Dispatch.Kv.{handle_kv}
use fast_graph.Tests.Data.{floats, engines}
use fast_graph.Dispatch.Exceptions.{Throws, ok, codes, to_upper}
use fast_graph.Net.Server.{
  Conn, accepted, writing, done, out_of_fuel, parse_loop, try_parse, do_write, room, write_again,
}
use fast_graph.Net.Server.Pipeline.{encode_all, none_left, next, parse_loop-Replies}
use fast_graph.Net.Server.Faults.{endless, try_parse-endless, try_parse-error}
use fast_graph.Net.Server.Stream.{pending, do_write-pending}

-- It replies with the number of calls so far, and never throws.
abbrev counter : List Text → ℕ → Throws (Text × ℕ)
counter args s = ok (s ∷ [], suc s)

abbrev commands : List (Text × List Text)
commands = (codes "GET", codes "k" ∷ []) ∷ (codes "PING", []) ∷ []

abbrev loaded : Conn
loaded = record accepted { read_buf = encode_all commands }

loaded_short : length loaded.read_buf < 2 ^ 31
unfolding array to_string bulk_string
loaded_short = omega arith

parse_loop-Replies_example :
    parse_loop counter 3 loaded 7 ≡ done (record loaded { read_buf = []; write_buf = 7 ∷ 8 ∷ [] }) 9
parse_loop-Replies_example =
    parse_loop-Replies counter commands 3 loaded (next refl (next refl none_left)) refl loaded_short
      (omega arith)

ping_run : (s : ℕ) → (r : Text × ℕ) × (dispatch floats engines (codes "PING" ∷ []) s ≡ ok r)
unfolding dispatch handle_kv list_beq to_upper
ping_run s = ((simple_string (codes "PONG"), s), refl)

try_parse-endless_example :
    try_parse
      (dispatch floats engines)
      1000
      (record accepted { read_buf = endless ++ codes "PING" })
      0
    ≡ out_of_fuel
try_parse-endless_example =
    try_parse-endless (dispatch floats engines) (codes "PING") ping_run 1000
      (record accepted { read_buf = endless ++ codes "PING" }) 0 (omega arith) refl

abbrev bad : Conn
bad = record accepted { read_buf = codes "*0" ++ (13 ∷ 10 ∷ []) }

bad_run : parse bad.read_buf ≡ error bad.read_buf
unfolding parse atoi to_int
bad_run = refl

try_parse-error_example :
    (c' : Conn) × (try_parse counter 1 bad 0 ≡ done c' 0)
    × (c'.state ≡ writing)
    × (c'.want_write ≡ true)
try_parse-error_example = try_parse-error counter 0 bad 0 bad.read_buf (omega arith) bad_run

abbrev replying : Conn
replying = record accepted { state = writing; write_buf = codes "+PONG"; write_offset = 1 }

do_write-pending_example :
    (do_write (room 1 ∷ write_again ∷ []) replying).1
      ++ pending (do_write (room 1 ∷ write_again ∷ []) replying).0
    ≡ codes "PONG"
do_write-pending_example = do_write-pending (room 1 ∷ write_again ∷ []) replying
