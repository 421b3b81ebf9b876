-- ===== src/Protocol.antt =====
-- protocol.c: the reader of input lines and the executor of realtime commands.
pub mod Line
pub mod Override
pub mod Hold
pub mod Cycle
pub mod Realtime
mod Tests
