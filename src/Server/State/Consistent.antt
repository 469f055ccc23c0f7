-- ===== src/Server/State/Consistent.antt =====
-- What holds of `AppState` between two handlers: who hosts which room, and how full each room is.

pub mod Players
pub mod Hosting
pub mod Closing
pub mod Rooms
pub mod Leaving
use war3_battle_tool.Prelude.{
  ℕ, ◌+◌, ◌≤◌, ◌≡◌, String, Bool, false, Option, none, some, ◌==◌, string_eq,
}
use war3_battle_tool.HashMap.{get, count}
use war3_battle_tool.HashMap.Unique.{HasUniqueKeys}
use war3_battle_tool.Server.State.{AppState, ConnectedPlayer, Room}

-- `o == Some(room_id)`
abbrev pub names : Option String → String → Bool
names none room_id = false
names (some j) room_id = j == room_id

abbrev pub is_in : String → ConnectedPlayer → Bool
is_in room_id p = names p.joined_room room_id

-- One room: its key, its host, and its players, the host counted in.
pub record IsSound (a : AppState) (room_id : String) (r : Room) : Type 0 where
  pub keyed : r.room_id ≡ room_id
  pub host : ConnectedPlayer
  pub host_found : get r.host_player_id a.players ≡ some host
  pub host_hosts : host.hosting_room ≡ some room_id
  pub occupancy : r.current_players ≡ 1 + count (is_in room_id) a.players
  pub not_overfull : r.current_players ≤ r.max_players
  pub small : r.max_players ≤ 12

pub record IsConsistent (a : AppState) : Type 0 where
  pub players_unique : HasUniqueKeys a.players
  pub rooms_unique : HasUniqueKeys a.rooms
  pub player_keyed :
      (id : String) (p : ConnectedPlayer) → get id a.players ≡ some p → p.player_id ≡ id
  pub room_sound :
      (room_id : String) (r : Room) → get room_id a.rooms ≡ some r → IsSound a room_id r
  pub room_of_host :
      (id : String) (p : ConnectedPlayer) (room_id : String)
      → get id a.players ≡ some p
      → p.hosting_room ≡ some room_id
      → (r : Room) × (get room_id a.rooms ≡ some r) × (r.host_player_id ≡ id)
