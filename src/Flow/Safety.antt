-- ===== src/Flow/Safety.antt =====
-- The flow parsers on any datagram (api/src/flow).
pub mod Fields
pub mod Sets
pub mod Message
pub mod Datagram
