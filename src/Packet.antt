-- ===== src/Packet.antt =====
-- The packet decoder (api/src/packet): names of protocol numbers, addresses, headers, frames.
pub mod Names
pub mod Addresses
pub mod Headers
pub mod Link
pub mod Network
pub mod Transport
pub mod Decode
pub mod Safety
pub mod WellFormed
pub mod Bare
pub mod Layering
mod Tests
