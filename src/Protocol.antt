-- ===== src/Protocol.antt =====
-- The shared wire formats of protocol/: one module for each C file.
pub mod Crc32
pub mod Bridge
pub mod Gateway
pub mod Id48
pub mod Replay
