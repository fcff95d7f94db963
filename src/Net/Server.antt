-- ===== src/Net/Server.antt =====
-- src/net/server.cpp and src/net/conn.hpp: reading, parsing, replying and writing on a connection.
-- What the sockets return is a list of results; the dispatcher is a function of the engines' state.
pub mod Pipeline
pub mod Faults
pub mod Stream
use fast_graph.Prelude.{
  ℕ, zero, suc, ◌+◌, ◌-◌, ◌*◌, ◌/◌, ◌%◌, ◌^◌, ◌≤◌, ◌<◌, min, max, ◌≡◌, refl, sym, ap, subst, ◌∙◌,
  ◌≢◌, ◌↔◌, ◌⊎◌, inl, inr, ⊎_elim, Bool, true, false, not, ◌&&◌, ◌||◌, Option, none, some, List, [],
  ◌∷◌, ◌++◌, map, append-nil, append_assoc, arith, ltb, leb, if◌then◌else◌, Bool-cases,
  Option-cases, List-cases, length, get_elem?, get_or, set, take, drop, replicate, length-append,
  length-set, get_or-set_self, get_or-set_ne, length-take, length-drop, take-append_all,
  drop-append_all, ℤ, pos, negsuc, pos_part, neg_part, ◌+ℤ◌, ◌-ℤ◌, ◌≤ℤ◌, ◌<ℤ◌, ltb_ℤ, leb_ℤ,
  int_laws, Eq, ◌==◌, nat_eq, int_eq, text_eq, Text, eq_refl, eq_true, eq_false, eq_symm, ltb-true,
  ltb-false, leb-true, leb-false, drop-drop, get_or-drop, drop-append_of_length, drop-nil, take_all,
}
use fast_graph.Protocol.Encoder
use fast_graph.Protocol.Resp.{parse, complete, incomplete, error}
use fast_graph.Dispatch.Exceptions.{Throws, ok, thrown, codes}

pub data ConnState : Type 0 where
  reading writing closing : ConnState

-- `want_write` is the interest in EPOLLOUT that the reactor holds for the descriptor.
pub record Conn : Type 0 where
  pub state : ConnState
  pub read_buf : Text
  pub write_buf : Text
  pub write_offset : ℕ
  pub want_write : Bool

-- `explicit Conn(int fd)`, registered with EPOLLIN
abbrev pub accepted : Conn
accepted = record {
  state = reading;
  read_buf = [];
  write_buf = [];
  write_offset = 0;
  want_write = false;
}

-- What a handler leaves: the connection and the engines, an exception that nobody catches, or a loop
-- whose fuel has run out.
pub data Outcome (S : Type 0) : Type 0 where
  done : Conn → S → Outcome S
  uncaught : Text → Outcome S
  out_of_fuel : Outcome S

-- The end of `try_parse`.
unfoldable pub ask_to_write : Conn → Conn
ask_to_write c =
    if ltb c.write_offset (length c.write_buf)
    then record c { state = writing; want_write = true }
    else c

-- What `read` returns: bytes, the end of the stream, EAGAIN, or another error.
pub data ReadResult : Type 0 where
  received : Text → ReadResult
  end_of_stream read_again read_failed : ReadResult

module _ {S : Type 0} (dispatch : List Text → S → Throws (Text × S)) where
  -- The loop of `try_parse`.
  unfoldable pub parse_loop : ℕ → Conn → S → Outcome S
  parse_loop zero c s = out_of_fuel
  parse_loop (suc fuel) c s = elim (parse c.read_buf) [
    | incomplete ↦ done c s
    | error buf ↦
        done
          (record c {
            read_buf = buf;
            write_buf = c.write_buf ++ Encoder.error (codes "protocol error");
            state = closing;
          })
          s
    | complete args rest ↦ elim (dispatch args s) [
      | thrown what ↦ uncaught what
      | ok (reply, s') ↦
          parse_loop fuel (record c { read_buf = rest; write_buf = c.write_buf ++ reply }) s'
    ]
  ]

  abbrev then_ask : Outcome S → Outcome S
  then_ask (done c s) = done (ask_to_write c) s
  then_ask (uncaught what) = uncaught what
  then_ask out_of_fuel = out_of_fuel

  unfoldable pub try_parse : ℕ → Conn → S → Outcome S
  unfolding parse_loop ask_to_write
  try_parse fuel c s = then_ask (parse_loop fuel c s)

  -- The loop of `do_read` over the results of `read`; the last of them is EAGAIN at the latest.
  unfoldable pub do_read : ℕ → List ReadResult → Conn → S → Outcome S
  unfolding try_parse
  do_read fuel [] c s = try_parse fuel c s
  do_read fuel (received bytes ∷ rs) c s =
      do_read fuel rs (record c { read_buf = c.read_buf ++ bytes }) s
  do_read fuel (end_of_stream ∷ rs) c s = done (record c { state = closing }) s
  do_read fuel (read_again ∷ rs) c s = try_parse fuel c s
  do_read fuel (read_failed ∷ rs) c s = done (record c { state = closing }) s

-- What `write` does: the socket has room for so many bytes and one more, EAGAIN, or another error.
pub data WriteResult : Type 0 where
  room : ℕ → WriteResult
  write_again write_failed : WriteResult

-- `n > 0` bytes were written.
unfoldable pub advance : Conn → ℕ → Conn
advance c n =
    if c.write_offset + n == length c.write_buf
    then record c { write_buf = []; write_offset = 0 }
    else record c { write_offset = c.write_offset + n }

-- Behind the loop of `do_write`.
unfoldable pub back_to_reading : Conn → Conn
back_to_reading c = elim c.state [
  | closing ↦ c
  | _ ↦ record c { state = reading; want_write = false }
]

-- `do_write`: the connection, and the bytes that went out.
unfoldable pub do_write : List WriteResult → Conn → Conn × Text
unfolding advance back_to_reading
do_write [] c = if ltb c.write_offset (length c.write_buf) then (c, []) else (back_to_reading c, [])
do_write (r ∷ rs) c =
    let pending = drop c.write_offset c.write_buf in
    if ltb c.write_offset (length c.write_buf)
    then elim r [
      | write_again ↦ (c, [])
      | write_failed ↦ (record c { state = closing }, [])
      | room k ↦
          let n = min (suc k) (length pending) in
          let (c', sent) = do_write rs (advance c n) in (c', take n pending ++ sent)
    ]
    else (back_to_reading c, [])
