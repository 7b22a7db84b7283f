-- ===== src/Notify.antt =====
-- Notification of findings (api/src/notify): what is sent, when, and in which form.
pub mod Types
pub mod Digest
pub mod Notifier
pub mod World
pub mod Cef
mod Tests
mod CefTests
