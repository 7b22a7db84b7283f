-- ===== src/Intel.antt =====
-- Threat intelligence (api/src/intel/match.ts): addresses and names in the form that indicators are
-- compared in, and the set of indicators.
pub mod Address
pub mod Names
pub mod Indicators
pub mod Loading
pub mod Matching
pub mod Domains
pub mod Ranges
pub mod Assess
mod Tests
