-- ===== src/Net/Server/Pipeline.antt =====
-- The loop of `Server::try_parse` of src/net/server.cpp on commands that arrive together.
use fast_graph.Prelude.{
  ℕ, zero, suc, ◌^◌, ◌<◌, ◌≡◌, refl, subst, ◌∙◌, List, [], ◌∷◌, ◌++◌, append-nil, append_assoc,
  arith, length, length-append, nat_eq, int_eq, text_eq, Text,
}
use fast_graph.Protocol.Encoder.{array}
use fast_graph.Protocol.Resp.{parse, complete, incomplete}
use fast_graph.Protocol.Resp.RoundTrip.{parse-array}
use fast_graph.Dispatch.Exceptions.{Throws, ok}
use fast_graph.Net.Server.{Conn, done, parse_loop}

-- Commands as the client encodes them, one behind the other. A command has a name at least.
abbrev pub encode_all : List (Text × List Text) → Text
encode_all [] = []
encode_all ((name, args) ∷ cmds) = array (name ∷ args) ++ encode_all cmds

module _ {S : Type 0} (dispatch : List Text → S → Throws (Text × S)) where
  -- Running the commands one after the other yields these replies and this state.
  pub data Replies : List (Text × List Text) → S → Text → S → Type 0 where
    none_left : {s : S} → Replies [] s [] s
    next :
        {name : Text} {args : List Text} {cmds : List (Text × List Text)} {s s' s'' : S}
        {reply replies : Text}
        → dispatch (name ∷ args) s ≡ ok (reply, s')
        → Replies cmds s' replies s''
        → Replies ((name, args) ∷ cmds) s (reply ++ replies) s''

  -- A read buffer that holds encoded commands, with no bytes behind them, is emptied; the engines
  -- run the commands in order, and the replies are appended to the write buffer in that order.
  pub parse_loop-Replies :
      (cmds : List (Text × List Text)) (fuel : ℕ) (c : Conn) {s s' : S} {replies : Text}
      → Replies cmds s replies s'
      → c.read_buf ≡ encode_all cmds
      → length c.read_buf < 2 ^ 31
      → length cmds < fuel
      → parse_loop dispatch fuel c s
        ≡ done (record c { read_buf = []; write_buf = c.write_buf ++ replies }) s'
  unfolding parse_loop
  parse_loop-Replies cmds zero c r e small h = absurd (omega arith)
  parse_loop-Replies [] (suc fuel) c none_left e small h =
      let p : parse c.read_buf ≡ incomplete = rw e (unfold parse in refl) in
      ground (arith, p, e, append-nil c.write_buf)
  parse_loop-Replies ((name, args) ∷ cmds) (suc fuel) c (next {reply = reply} d r) e small h =
      let small' = subst (λ (t : Text). length t < 2 ^ 31) e small in
      let p : parse c.read_buf ≡ complete (name ∷ args) (encode_all cmds) =
        rw e (parse-array name args (encode_all cmds) small') in
      let c' = record c { read_buf = encode_all cmds; write_buf = c.write_buf ++ reply } in
      let rest =
        parse_loop-Replies cmds fuel c' r refl
          (omega (arith, small', length-append (array (name ∷ args)) (encode_all cmds)))
          (omega arith) in
      rw (p, parse_loop) (rw (d) (rest ∙ rw append_assoc))
