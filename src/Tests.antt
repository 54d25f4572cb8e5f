-- ===== src/Tests.antt =====
-- Concrete instances of the interfaces, and the theorems applied at concrete inputs.
pub mod Inodes
pub mod World
pub mod Preload
pub mod Files
pub mod Messages
pub mod Mounted
pub mod Crypto
pub mod Shutdown
pub mod Requests
pub mod Loading
pub mod Http
pub mod Traces
pub mod Action
pub mod Registry
pub mod Sharing
pub mod Wiring
