-- ===== src/Net.antt =====
-- src/net: connections of the event loop.
pub mod Server
