-- ===== src/Server/Tests.antt =====
-- The theorems about crates/server at concrete inputs: a lobby with two players and a room.
pub mod Lobby
pub mod Tunnels
pub mod Ends
pub mod Joined
pub mod Joins
pub mod Tasks
pub mod Origins
