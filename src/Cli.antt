-- ===== src/Cli.antt =====
-- cli/cli.go: the actions on keys and messages, and the event loop of the mount action.
pub mod Host
pub mod Message
pub mod Convert
pub mod Mount
pub mod Shutdown
pub mod Settings
pub mod Commands
pub mod Wiring
pub mod Profile
