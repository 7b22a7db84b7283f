-- ===== src/Detect.antt =====
-- Detection (api/src/packet/detect, api/src/flow/detect.ts): windows and bounded tables, findings,
-- and the detectors that use them.
pub mod Window
pub mod Cooldown
pub mod Finding
pub mod Attempt
pub mod Dns
pub mod Scan
pub mod FlowFinding
pub mod FlowScan
pub mod IntelFinding
pub mod ThreatIntel
pub mod Engine
pub mod FlowEngine
pub mod NewDevice
pub mod ArpSpoof
mod Tests
mod DeviceTests
mod FlowTests
mod DnsTests
mod IntelTests
mod EngineTests
