-- ===== src/Dispatch.antt =====
-- src/dispatch/dispatcher.cpp: commands to engine calls and replies.
pub mod Exceptions
pub mod Interface
pub mod Kv
pub mod GraphCommands
pub mod ZSet
pub mod Errors
use fast_graph.Prelude.{
  ℕ, zero, suc, ◌+◌, ◌-◌, ◌*◌, ◌/◌, ◌%◌, ◌^◌, ◌≤◌, ◌<◌, min, max, ◌≡◌, refl, sym, ap, subst, ◌∙◌,
  ◌≢◌, ◌↔◌, ◌⊎◌, inl, inr, ⊎_elim, Bool, true, false, not, ◌&&◌, ◌||◌, Option, none, some, List, [],
  ◌∷◌, ◌++◌, map, append-nil, append_assoc, arith, ltb, leb, if◌then◌else◌, Bool-cases,
  Option-cases, List-cases, length, get_elem?, get_or, set, take, drop, replicate, length-append,
  length-set, get_or-set_self, get_or-set_ne, length-take, length-drop, take-append_all,
  drop-append_all, ℤ, pos, negsuc, pos_part, neg_part, ◌+ℤ◌, ◌-ℤ◌, ◌≤ℤ◌, ◌<ℤ◌, ltb_ℤ, leb_ℤ,
  int_laws, Eq, ◌==◌, nat_eq, int_eq, text_eq, Text, eq_refl, eq_true, eq_false, eq_symm, ltb-true,
  ltb-false, leb-true, leb-false, drop-drop, get_or-drop, drop-append_of_length, drop-nil, take_all,
}
use fast_graph.Protocol.Encoder
use fast_graph.Dispatch.Exceptions.{Throws, ok, thrown, codes, to_upper}
use fast_graph.Dispatch.Interface.{Engines, Floats}
use fast_graph.Dispatch.Kv.{handle_kv}
use fast_graph.Dispatch.GraphCommands.{handle_graph}
use fast_graph.Dispatch.ZSet.{handle_zset}

module _ {Flt Dbl S : Type 0} (f : Floats Flt Dbl) (e : Engines Flt Dbl S) where
  unfoldable pub dispatch : List Text → S → Throws (Text × S)
  unfolding handle_kv handle_graph handle_zset
  dispatch [] s = ok (Encoder.error (codes "empty command"), s)
  dispatch (arg ∷ args) s =
      let cmd = to_upper arg in
      if take 6 cmd == codes "GRAPH."
      then ok (handle_graph f e cmd (arg ∷ args) s)
      else if get_or cmd 0 0 == b'Z'
      then ok (handle_zset f e cmd (arg ∷ args) s)
      else handle_kv e cmd (arg ∷ args) s
