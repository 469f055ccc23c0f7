-- ===== src/Protocol.antt =====
-- crates/protocol: the messages and rules that the client and the server share.
pub mod AddrSafety
pub mod Messages
pub mod War3
pub mod Tests
