-- ===== src/SortedSet/Rank.antt =====
-- `zrank` and `zrange` of src/sorted_set/sorted_set_engine.cpp.
use fast_graph.Prelude.{nat_eq, int_eq, text_eq}
use fast_graph.Index.SkipList.{SkipList}
