-- ===== src/Tests/DispatchTests.antt =====
-- Runs of the dispatcher.
use fast_graph.Prelude.{◌≡◌, refl, inl, [], ◌∷◌, ◌++◌, nat_eq, int_eq, text_eq}
use fast_graph.Prelude.{list_beq}
use fast_graph.Protocol.Decimal.{skip_spaces}
use fast_graph.Protocol.Encoder
use fast_graph.Dispatch.{dispatch}
use fast_graph.Dispatch.Exceptions.{ok, thrown, codes, to_upper, stoll}
use fast_graph.Dispatch.Errors.{
  dispatch_snapshot, Converts, dispatch_thrown, dispatch_expire_thrown,
}
use fast_graph.Tests.Data.{floats, engines}

save_word : to_upper (codes "save") ≡ codes "SAVE"
unfolding to_upper
save_word = refl

dispatch_snapshot_example :
    dispatch floats engines (codes "save" ∷ []) 0
    ≡ ok (Encoder.error (codes "unknown command '" ++ (codes "save" ++ codes "'")), 0)
dispatch_snapshot_example = dispatch_snapshot floats engines (codes "save") [] 0 (inl save_word)

expire_word : to_upper (codes "expire") ≡ codes "EXPIRE"
unfolding to_upper
expire_word = refl

soon : stoll (codes "soon") ≡ thrown (codes "stoll")
unfolding stoll skip_spaces
soon = refl

dispatch_expire_thrown_example :
    dispatch floats engines (codes "expire" ∷ codes "k" ∷ codes "soon" ∷ []) 0
    ≡ thrown (codes "stoll")
dispatch_expire_thrown_example =
    dispatch_expire_thrown floats engines (codes "expire") (codes "k") (codes "soon") [] 0
      (codes "stoll") (inl expire_word) soon

expire_run :
    dispatch floats engines (codes "EXPIRE" ∷ codes "k" ∷ codes "soon" ∷ []) 0
    ≡ thrown (codes "stoll")
unfolding dispatch list_beq to_upper stoll skip_spaces
expire_run = refl

dispatch_thrown_example : Converts (to_upper (codes "EXPIRE")) × (codes "stoll" ≡ codes "stoll")
dispatch_thrown_example =
    dispatch_thrown floats engines (codes "EXPIRE") (codes "k" ∷ codes "soon" ∷ []) 0
      (codes "stoll") expire_run
