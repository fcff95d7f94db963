-- ===== src/Graph.antt =====
-- src/graph: the dynamic graph and the traversals over it.
pub mod Dynamic
pub mod Search
pub mod Engine
