-- ===== src/Net.antt =====
-- IP prefixes as operators write them (api/src/net/prefix.ts).
pub mod Prefix
pub mod Laws
mod Tests
