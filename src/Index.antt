-- ===== src/Index.antt =====
-- The ordered indexes of src/index.
pub mod SkipList
