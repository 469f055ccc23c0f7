-- ===== src/Server/Ws/Join.antt =====
-- The `JoinRoom` message of ws.rs. Its sections under a lock are functions of their own, in the
-- order in which the handler runs them.
pub mod Occupancy
pub mod Reserving
pub mod Needs
pub mod Outcome
pub mod Dropped
use war3_battle_tool.Prelude.{
  ℕ, String, Bool, true, false, Option, none, some, List, not, ◌+◌, leb, ltb, min, if◌then◌else◌,
  is_some, is_none, is_empty, string_eq, ◌==◌,
}
use war3_battle_tool.HashMap.{HashMap, get, modify}
use war3_battle_tool.Protocol.AddrSafety.{IpAddr}
use war3_battle_tool.Protocol.War3.{War3Version, version_eq}
use war3_battle_tool.Protocol.Messages.{
  ServerMessage, stun_info, join_result, player_joined, error, join_failure,
}
use war3_battle_tool.Server.Channel.{Sender}
use war3_battle_tool.Server.State.{AppState, ConnectedPlayer, Room, leave_room}
use war3_battle_tool.Server.Time.{Instant, elapsed}
use war3_battle_tool.Server.Tunnel.{register_token}
use war3_battle_tool.Server.Ws.{
  Env, Session, Server, send, broadcast, set_players, set_rooms, is_barred, join_cooldown,
}

unfoldable pub is_cooling_down : Instant → Session → Bool
is_cooling_down now s = elim s.last_join_at [
  | none ↦ false
  | some last ↦ ltb (elapsed now last) join_cooldown
]

-- Step 2: the joiner and the host, where both are there and play the room's version.
unfoldable pub find_players :
    String
    → String
    → War3Version
    → HashMap String ConnectedPlayer
    → Option (Option (ConnectedPlayer × ConnectedPlayer))
find_players player_id host_player_id room_version players = elim (get player_id players) [
  | none ↦ none
  | some joiner ↦
      if not (joiner.war3_version == room_version)
      then some none
      else elim (get host_player_id players) [
        | none ↦ some none
        | some host ↦ if is_none host.disconnected_at then some (some (joiner, host)) else some none
      ]
]

-- `current_players.saturating_add(1)` on a `u8`
abbrev pub enter : Room → Room
enter r = record r { current_players = min (r.current_players + 1) 255 }

-- Step 3: the test and the increment under one lock.
unfoldable pub try_reserve : String → HashMap String Room → HashMap String Room × Bool
try_reserve room_id rooms = elim (get room_id rooms) [
  | none ↦ (rooms, false)
  | some r ↦
      if leb r.max_players r.current_players
      then (rooms, false)
      else (modify room_id enter rooms, true)
]

abbrev pub joined_in : String → ConnectedPlayer → ConnectedPlayer
joined_in room_id p = record p { joined_room = some room_id }

abbrev pub joined : Option ConnectedPlayer → Option String
joined none = none
joined (some p) = p.joined_room

-- Step 5: `replace` the joined room and leave the old one.
unfoldable pub move_player : String → String → AppState → AppState
unfolding leave_room
move_player player_id room_id a =
    let old_room = joined (get player_id a.players) in
    record a {
      players = modify player_id (joined_in room_id) a.players;
      rooms = leave_room old_room a.rooms;
    }

-- Step 4: the messages to the joiner and to the host.
unfoldable pub announce :
    Env → String → String → List ℕ → Session → ConnectedPlayer → ConnectedPlayer → Server → Server
unfolding send
announce env token room_id gameinfo s joiner host w =
    let w1 = send s.tx (stun_info (env.show_ip host.client_ip)) w in
    let w2 = send host.tx (stun_info (env.show_ip s.client_ip)) w1 in
    let info = if is_empty gameinfo then none else some gameinfo in
    let w3 = send s.tx (join_result true (some room_id) (some token) info) w2 in
    send host.tx (player_joined joiner.nickname token) w3

-- Steps 4 and 5, with the slot reserved.
unfoldable pub complete_join :
    Env
    → Instant
    → String
    → String
    → List ℕ
    → ConnectedPlayer
    → ConnectedPlayer
    → Session
    → Server
    → Session × Server
unfolding announce move_player broadcast register_token
complete_join env now token room_id gameinfo joiner host s w =
    let w1 : Server = record w {
      tunnel = register_token token host.client_ip s.client_ip s.player_id now w.tunnel;
    } in
    let w2 = announce env token room_id gameinfo s joiner host w1 in
    let w3 : Server = record w2 { app = move_player s.player_id room_id w2.app } in
    (record s { last_join_at = some now }, broadcast w3)

-- The handler where no other task comes between its sections; Server/Ws/Tasks lets others come between
-- them, and Server/Ws/Join/Dropped ends it between two of them. `token` is the tunnel token that the
-- handler draws.
unfoldable pub handle_join_room :
    Env → Instant → String → String → Session → Server → Session × Server
unfolding is_cooling_down find_players try_reserve complete_join send
handle_join_room env now token room_id s w =
    if is_barred s
    then (s, w)
    else if is_cooling_down now s
    then (s, send s.tx (error "加入太頻繁，請稍後再試") w)
    else elim (get room_id w.app.rooms) [
      | none ↦ (s, send s.tx join_failure w)
      | some r ↦ elim (find_players s.player_id r.host_player_id r.war3_version w.app.players) [
        | none ↦ (s, w)
        | some none ↦ (s, send s.tx join_failure w)
        | some (some (joiner, host)) ↦
            let (rooms, reserved) = try_reserve room_id w.app.rooms in
            if reserved
            then complete_join env now token room_id r.gameinfo joiner host s (set_rooms rooms w)
            else (s, send s.tx join_failure w)
      ]
    ]
