-- ===== src/Spike.antt =====
-- The two experiments of the repository: crates/spike-packet and crates/spike-raw-udp.
pub mod Checksum
pub mod Packet
pub mod Proxy
pub mod Tests
