-- ===== src/Tests.antt =====
-- Runs at concrete inputs.
pub mod Data
pub mod ProtocolTests
pub mod MemoryTests
pub mod GraphTests
pub mod DispatchTests
pub mod NetTests
pub mod IndexTests
pub mod KvTests
pub mod EngineTests
pub mod SlabTests
pub mod PoolTests
