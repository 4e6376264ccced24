-- ===== src/Net.antt =====
-- src/ice/src/ice/net and its headers, for Linux.
pub mod Endpoint
pub mod Event
pub mod Options
pub mod Overlapped
pub mod Service
pub mod Socket
pub mod Tcp
mod Tests
