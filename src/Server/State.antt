-- ===== src/Server/State.antt =====
-- crates/server/src/state.rs: the players, the rooms and the connections of each address. Each
-- function below is one section under a lock; `mpsc::Sender` is a channel's number.

pub mod Consistent
pub mod Connections
pub mod Broadcast
use war3_battle_tool.Prelude.{
  ℕ, String, Bool, true, false, Option, none, some, List, [], ◌∷◌, ◌+◌, ◌-◌, ◌++◌, not, leb, ltb,
  ◌&&◌, ◌||◌, min, if◌then◌else◌, is_some, is_none, starts_with, filter, map, string_eq, nat_eq,
  ◌==◌,
}
use mathlib.Core.Option
use war3_battle_tool.HashMap.{HashMap, empty, get, insert, remove, modify, values}
use war3_battle_tool.Protocol.AddrSafety.{IpAddr, ip_eq}
use war3_battle_tool.Protocol.War3.{War3Version}
use war3_battle_tool.Protocol.Messages.{
  PlayerInfo, RoomInfo, ServerMessage, player_update, room_update,
}
use war3_battle_tool.Server.Channel.{Sender, Channels, try_send, can_send}
use war3_battle_tool.Server.Time.{Instant, elapsed}

abbrev pub max_connections_per_ip : ℕ
max_connections_per_ip = 10

pub record ConnectedPlayer : Type 0 where
  pub player_id : String
  pub nickname : String
  pub war3_version : War3Version
  pub client_ip : IpAddr
  pub last_heartbeat : Instant
  pub tx : Sender
  pub hosting_room : Option String
  pub joined_room : Option String
  pub disconnected_at : Option Instant

pub record Room : Type 0 where
  pub room_id : String
  pub host_player_id : String
  pub host_nickname : String
  pub room_name : String
  pub map_name : String
  pub max_players : ℕ
  pub current_players : ℕ
  pub war3_version : War3Version
  pub gameinfo : List ℕ

pub record AppState : Type 0 where
  pub players : HashMap String ConnectedPlayer
  pub rooms : HashMap String Room
  pub connections_per_ip : HashMap IpAddr ℕ

abbrev pub new : AppState
new = record { players = empty; rooms = empty; connections_per_ip = empty }

-- `conns.entry(ip).or_insert(0)` leaves an entry behind also where the limit refuses; it then holds
-- what it held.
unfoldable pub acquire : ℕ → IpAddr → HashMap IpAddr ℕ → HashMap IpAddr ℕ × Bool
acquire limit ip conns =
    let count = Option.get_or (get ip conns) 0 in
    if leb limit count then (insert ip count conns, false) else (insert ip (count + 1) conns, true)

-- `saturating_sub(1)`, and an entry that falls to 0 is removed.
unfoldable pub release : IpAddr → HashMap IpAddr ℕ → HashMap IpAddr ℕ
release ip conns = elim (get ip conns) [
  | none ↦ conns
  | some count ↦ if (count - 1) == 0 then remove ip conns else modify ip (λ n. n - 1) conns
]

unfoldable pub try_acquire_connection : IpAddr → AppState → AppState × Bool
unfolding acquire
try_acquire_connection ip s =
    let (conns, acquired) = acquire max_connections_per_ip ip s.connections_per_ip in
    (record s { connections_per_ip = conns }, acquired)

unfoldable pub release_connection : IpAddr → AppState → AppState
unfolding release
release_connection ip s = record s { connections_per_ip = release ip s.connections_per_ip }

unfoldable pub is_listed : ConnectedPlayer → Bool
is_listed p = is_none p.disconnected_at && not (starts_with p.nickname "__web-viewer-")

unfoldable pub player_info : ConnectedPlayer → PlayerInfo
player_info p = record {
  player_id = p.player_id;
  nickname = p.nickname;
  war3_version = p.war3_version;
  is_hosting = is_some p.hosting_room;
}

-- A room is shown while its host is connected.
unfoldable pub is_open : HashMap String ConnectedPlayer → Room → Bool
is_open players r = elim (get r.host_player_id players) [
  | none ↦ false
  | some p ↦ is_none p.disconnected_at
]

unfoldable pub room_info : Room → RoomInfo
room_info r = record {
  room_id = r.room_id;
  host_nickname = r.host_nickname;
  room_name = r.room_name;
  map_name = r.map_name;
  max_players = r.max_players;
  current_players = r.current_players;
  war3_version = r.war3_version;
}

unfoldable pub player_snapshot : AppState → ServerMessage
unfolding is_listed player_info
player_snapshot s = player_update (map player_info (filter is_listed (values s.players)))

unfoldable pub room_snapshot : AppState → ServerMessage
unfolding is_open room_info
room_snapshot s = room_update (map room_info (filter (is_open s.players) (values s.rooms)))

-- Both snapshots go to each connected player, in turn; what does not fit is dropped.
unfoldable pub send_snapshots :
    ServerMessage → ServerMessage → List ConnectedPlayer → Channels → Channels
unfolding try_send
send_snapshots ps rs [] channels = channels
send_snapshots ps rs (p ∷ players) channels =
    send_snapshots ps rs players
      (if is_none p.disconnected_at then try_send p.tx rs (try_send p.tx ps channels) else channels)

unfoldable pub broadcast_state : AppState → Channels → Channels
unfolding send_snapshots player_snapshot room_snapshot
broadcast_state s = send_snapshots (player_snapshot s) (room_snapshot s) (values s.players)

unfoldable pub mark_disconnected : String → Instant → AppState → AppState
mark_disconnected player_id now s = record s {
  players = modify player_id (λ p. record p { disconnected_at = some now }) s.players;
}

-- `room.current_players.saturating_sub(1)`
abbrev pub leave : Room → Room
leave r = record r { current_players = r.current_players - 1 }

-- `if let Some(room_id) = o && let Some(room) = rooms.get_mut(&room_id)`
unfoldable pub leave_room : Option String → HashMap String Room → HashMap String Room
leave_room none rooms = rooms
leave_room (some room_id) rooms = modify room_id leave rooms

unfoldable pub remove_room : Option String → HashMap String Room → HashMap String Room
remove_room none rooms = rooms
remove_room (some room_id) rooms = remove room_id rooms

unfoldable pub remove_player : String → AppState → AppState
unfolding leave_room remove_room
remove_player player_id s = elim (get player_id s.players) [
  | none ↦ s
  | some p ↦ record s {
    players = remove player_id s.players;
    rooms = leave_room p.joined_room (remove_room p.hosting_room s.rooms);
  }
]

unfoldable pub is_expired : Instant → ℕ → ℕ → ConnectedPlayer → Bool
is_expired now heartbeat_timeout grace_period p = elim p.disconnected_at [
  | none ↦ ltb heartbeat_timeout (elapsed now p.last_heartbeat)
  | some dc_at ↦ ltb grace_period (elapsed now dc_at)
]

-- The ids of the expired players.
unfoldable pub expired_ids : Instant → ℕ → ℕ → HashMap String ConnectedPlayer → List String
unfolding is_expired
expired_ids now heartbeat_timeout grace_period [] = []
expired_ids now heartbeat_timeout grace_period ((id, p) ∷ players) =
    let rest = expired_ids now heartbeat_timeout grace_period players in
    if is_expired now heartbeat_timeout grace_period p then id ∷ rest else rest

unfoldable pub find_expired : Instant → ℕ → ℕ → AppState → List String
unfolding expired_ids
find_expired now heartbeat_timeout grace_period s =
    expired_ids now heartbeat_timeout grace_period s.players
