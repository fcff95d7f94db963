-- ===== src/Dispatch/ZSet.antt =====
-- `Dispatcher::handle_zset` of src/dispatch/dispatcher.cpp, with the three branches for snapshots that stand at its end.
use fast_graph.Prelude.{
  Bool, true, ◌&&◌, Option, none, some, List, [], ◌∷◌, leb, if◌then◌else◌, length, ◌==◌, nat_eq,
  int_eq, text_eq, Text,
}
use fast_graph.Protocol.Encoder.{simple_string, bulk_string, null_bulk, integer, array}
use fast_graph.Protocol.Encoder
use fast_graph.Dispatch.Exceptions.{Throws, ok, ◌>>=◌, answer, codes, to_upper, stoi}
use fast_graph.Dispatch.Interface.{Engines, Floats}
use fast_graph.Dispatch.Kv.{arg_at, bool_integer, unknown}
use fast_graph.Dispatch.GraphCommands.{catch_errors}

module _ {Flt Dbl S : Type 0} (f : Floats Flt Dbl) (e : Engines Flt Dbl S) where
  -- Each member, with its score behind it if scores are asked for.
  unfoldable pub score_fields : Bool → List (Dbl × Text) → List Text
  score_fields with_scores [] = []
  score_fields with_scores ((score, member) ∷ rs) =
      let rest = score_fields with_scores rs in
      member ∷ (if with_scores then f.to_string_dbl score ∷ rest else rest)

  abbrev pub score_reply : Option Dbl → Text
  score_reply none = null_bulk
  score_reply (some score) = bulk_string (f.to_string_dbl score)

  unfoldable pub zset_commands : Text → List Text → S → Throws (Text × S)
  unfolding score_fields
  zset_commands cmd args s =
      let n = length args in
      let key = arg_at args 1 in
      if cmd == codes "ZADD" && leb 4 n
      then f.stod (arg_at args 2) >>= (λ score. answer integer (e.zadd s key score (arg_at args 3)))
      else if cmd == codes "ZREM" && leb 3 n
      then answer bool_integer (e.zrem s key (arg_at args 2))
      else if cmd == codes "ZSCORE" && leb 3 n
      then ok (score_reply (e.zscore s key (arg_at args 2)), s)
      else if cmd == codes "ZRANGE" && leb 4 n
      then stoi (arg_at args 2) >>= (λ start. stoi (arg_at args 3) >>= (λ stop. ok (
        array (
            score_fields (leb 5 n && to_upper (arg_at args 4) == codes "WITHSCORES")
              (e.zrange s key start stop)),
        s,
      )))
      else if cmd == codes "ZRANGEBYSCORE" && leb 4 n
      then f.stod (arg_at args 2) >>= (λ lo.
        f.stod (arg_at args 3)
        >>= (λ hi. ok (array (score_fields true (e.zrangebyscore s key lo hi)), s)))
      else if cmd == codes "ZCARD" && leb 2 n
      then ok (integer (e.zcard s key), s)
      else if cmd == codes "ZRANK" && leb 3 n
      then ok (integer (e.zrank s key (arg_at args 2)), s)
      else if cmd == codes "BGSAVE"
      then answer (λ _. simple_string (codes "Background saving started")) (e.bgsave s)
      else if cmd == codes "BGRESTORE"
      then answer
          (λ done.
            if done
            then simple_string (codes "OK")
            else Encoder.error (codes "no snapshot file found"))
          (e.load s)
      else if cmd == codes "SAVE"
      then answer
          (λ done. if done then simple_string (codes "OK") else Encoder.error (codes "save failed"))
          (e.save s)
      else unknown args s

  unfoldable pub handle_zset : Text → List Text → S → Text × S
  unfolding zset_commands
  handle_zset cmd args s = catch_errors s (zset_commands cmd args s)
