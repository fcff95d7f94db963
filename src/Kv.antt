-- ===== src/Kv.antt =====
-- The key-value store of src/kv.
pub mod Ttl
pub mod HashMap
pub mod Engine
