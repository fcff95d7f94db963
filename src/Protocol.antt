-- ===== src/Protocol.antt =====
-- src/protocol: the RESP encoder and parser over byte strings.
pub mod Decimal
pub mod Encoder
pub mod Resp
