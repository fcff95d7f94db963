-- ===== src/Memory.antt =====
-- src/memory: the bump arena, the string pool over it, and the free lists of the slab and pool allocators.
pub mod Arena
pub mod StringPool
pub mod Slab
pub mod Pool
