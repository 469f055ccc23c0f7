-- ===== src/Client.antt =====
-- crates/client: the parts of the desktop client that keep a state of their own.
pub mod LogPanel
pub mod Bridge
pub mod Quic
pub mod Tunnel
pub mod CmdSender
pub mod Config
pub mod Discovery
pub mod App
pub mod ViewerUrl
pub mod Packet
pub mod LobbyPanel
pub mod Wizard
pub mod Settings
pub mod Timeline
pub mod Logging
pub mod Tests
