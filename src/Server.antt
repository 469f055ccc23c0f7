-- ===== src/Server.antt =====
-- crates/server: the lobby's state, the handlers of its connections, and the tunnels.
pub mod Channel
pub mod Time
pub mod State
pub mod Tunnel
pub mod Ws
pub mod System
pub mod Origin
pub mod Tests
pub mod Entry
