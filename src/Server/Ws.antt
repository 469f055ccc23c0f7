-- ===== src/Server/Ws.antt =====
-- crates/server/src/ws.rs: what the server does with a message of a connection. A handler takes the
-- time, the connection's own variables (`Session`) and the shared state (`Server`), and the random
-- identifier that it draws, if it draws one.
pub mod Upnp
pub mod Join
pub mod Loop
pub mod Keeps
pub mod Expiry
pub mod Rate
pub mod Sections
pub mod Tasks
use war3_battle_tool.Prelude.{
  ℕ, String, Bool, true, false, Option, none, some, List, [], ◌∷◌, ◌+◌, ◌-◌, not, leb, ltb, ◌&&◌,
  ◌||◌, if◌then◌else◌, is_some, is_none, is_empty, starts_with, string_eq, nat_eq, ◌==◌, Result, ok,
  err,
}
use war3_battle_tool.HashMap as HashMap
use war3_battle_tool.HashMap.{HashMap, get, insert, remove, modify, values}
use war3_battle_tool.Protocol.AddrSafety.{IpAddr, SocketAddr, ip_eq, is_safe_external_addr}
use war3_battle_tool.Protocol.War3.{War3Version, version_eq}
use war3_battle_tool.Protocol.Messages.{
  ClientMessage, register, heartbeat, create_room, close_room, join_room, ping, upnp_mapped,
  ServerMessage, welcome, join_result, player_joined, stun_info, pong, peer_upnp_addr,
  your_observed_addr, error, join_failure, validate,
}
use war3_battle_tool.Server.Channel.{Sender, Channels, try_send}
use war3_battle_tool.Server.State.{
  AppState, ConnectedPlayer, Room, broadcast_state, leave_room, remove_player, mark_disconnected,
}
use war3_battle_tool.Server.Time.{Instant, elapsed, from_secs}
use war3_battle_tool.Server.Tunnel.{TunnelState, register_token, lookup_upnp_pending}

abbrev pub max_messages_per_second : ℕ
max_messages_per_second = 10

abbrev pub max_message_size : ℕ
max_message_size = 4096

abbrev pub max_total_players : ℕ
max_total_players = 500

abbrev pub max_total_rooms : ℕ
max_total_rooms = 200

abbrev pub join_cooldown : ℕ
join_cooldown = from_secs 5

abbrev pub web_viewer_timeout : ℕ
web_viewer_timeout = from_secs 120

abbrev pub web_viewer_prefix : String
web_viewer_prefix = "__web-viewer-"

-- What the handlers call and do not define: `serde_json::from_str`, and the parser and the printer
-- of addresses.
pub record Env : Type 0 where
  pub parse_message : String → Option ClientMessage
  pub parse_socket_addr : String → Option SocketAddr
  pub show_ip : IpAddr → String

pub record RateLimiter : Type 0 where
  pub tokens : ℕ
  pub last_refill : Instant

abbrev pub new_limiter : Instant → RateLimiter
new_limiter now = record { tokens = max_messages_per_second; last_refill = now }

-- `as_secs_f64() >= 1.0` is `elapsed >= 1s`.
unfoldable pub refill : Instant → RateLimiter → RateLimiter
refill now l =
    if leb (from_secs 1) (elapsed now l.last_refill)
    then record { tokens = max_messages_per_second; last_refill = now }
    else l

unfoldable pub allow : Instant → RateLimiter → RateLimiter × Bool
unfolding refill
allow now l =
    let l' = refill now l in
    if ltb 0 l'.tokens then (record l' { tokens = l'.tokens - 1 }, true) else (l', false)

-- The variables of `handle_socket`. `viewer_since` is when the web viewer's countdown began.
pub record Session : Type 0 where
  pub player_id : String
  pub tx : Sender
  pub client_ip : IpAddr
  pub registered : Bool
  pub is_web_viewer : Bool
  pub rate_limiter : RateLimiter
  pub last_join_at : Option Instant
  pub viewer_since : Option Instant

abbrev pub new_session : String → Sender → IpAddr → Instant → Session
new_session player_id tx client_ip now = record {
  player_id = player_id;
  tx = tx;
  client_ip = client_ip;
  registered = false;
  is_web_viewer = false;
  rate_limiter = new_limiter now;
  last_join_at = none;
  viewer_since = none;
}

-- `AppState` and `TunnelState`, and the queues of all connections.
pub record Server : Type 0 where
  pub app : AppState
  pub tunnel : TunnelState
  pub channels : Channels

unfoldable pub send : Sender → ServerMessage → Server → Server
send tx m w = record w { channels = try_send tx m w.channels }

unfoldable pub broadcast : Server → Server
broadcast w = record w { channels = broadcast_state w.app w.channels }

abbrev pub set_players : HashMap String ConnectedPlayer → Server → Server
set_players players w = record w { app = record w.app { players = players } }

abbrev pub set_rooms : HashMap String Room → Server → Server
set_rooms rooms w = record w { app = record w.app { rooms = rooms } }

-- `!registered || is_web_viewer`
abbrev pub is_barred : Session → Bool
is_barred s = not s.registered || s.is_web_viewer

unfoldable pub new_player : Instant → String → War3Version → Session → ConnectedPlayer
new_player now nickname war3_version s = record {
  player_id = s.player_id;
  nickname = nickname;
  war3_version = war3_version;
  client_ip = s.client_ip;
  last_heartbeat = now;
  tx = s.tx;
  hosting_room = none;
  joined_room = none;
  disconnected_at = none;
}

-- The sender of the countdown is taken once; only the first registration comes this far.
unfoldable pub registered_session : Instant → String → Session → Session
registered_session now nickname s =
    let is_viewer = starts_with nickname web_viewer_prefix in
    record s {
      registered = true;
      is_web_viewer = is_viewer;
      viewer_since = if is_viewer && is_none s.viewer_since then some now else s.viewer_since;
    }

unfoldable pub handle_register :
    Env → Instant → String → War3Version → Session → Server → Session × Server
unfolding new_player registered_session send broadcast
handle_register env now nickname war3_version s w =
    if s.registered
    then (s, send s.tx (error "已經註冊過了") w)
    else if leb max_total_players (HashMap.len w.app.players)
    then (s, send s.tx (error "伺服器已滿") w)
    else let player = new_player now nickname war3_version s in
      let s' = registered_session now nickname s in
      let w1 = set_players (insert s.player_id player w.app.players) w in
      let w2 = send s.tx (welcome s.player_id) w1 in
      let w3 =
        if s'.is_web_viewer
        then w2
        else send s.tx (your_observed_addr (env.show_ip s.client_ip)) w2 in
      (s', broadcast w3)

unfoldable pub handle_heartbeat : Instant → Session → Server → Session × Server
handle_heartbeat now s w =
    (s, set_players (modify s.player_id (λ p. record p { last_heartbeat = now }) w.app.players) w)

unfoldable pub new_room : String → String → String → ℕ → List ℕ → String → ConnectedPlayer → Room
new_room room_id room_name map_name max_players gameinfo player_id host = record {
  room_id = room_id;
  host_player_id = player_id;
  host_nickname = host.nickname;
  room_name = room_name;
  map_name = map_name;
  max_players = max_players;
  current_players = 1;
  war3_version = host.war3_version;
  gameinfo = gameinfo;
}

abbrev pub host_in : String → ConnectedPlayer → ConnectedPlayer
host_in room_id p = record p { hosting_room = some room_id }

-- `room_id` is the identifier that the handler draws.
unfoldable pub handle_create_room :
    String → String → String → ℕ → List ℕ → Session → Server → Session × Server
unfolding new_room send broadcast
handle_create_room room_id room_name map_name max_players gameinfo s w =
    if is_barred s then (s, w) else elim (get s.player_id w.app.players) [
      | none ↦ (s, w)
      | some p ↦
          if is_some p.hosting_room
          then (s, send s.tx (error "已有房間，請先關閉") w)
          else if leb max_total_rooms (HashMap.len w.app.rooms)
          then (s, send s.tx (error "伺服器房間已滿") w)
          else let room = new_room room_id room_name map_name max_players gameinfo s.player_id p in
            let w1 = set_rooms (insert room_id room w.app.rooms) w in
            let w2 = set_players (modify s.player_id (host_in room_id) w1.app.players) w1 in
            (s, broadcast w2)
    ]

abbrev pub host_nothing : ConnectedPlayer → ConnectedPlayer
host_nothing p = record p { hosting_room = none }

-- The room that the player hosts, which `take` leaves empty.
abbrev pub hosted : Option ConnectedPlayer → Option String
hosted none = none
hosted (some p) = p.hosting_room

unfoldable pub handle_close_room : Session → Server → Session × Server
unfolding broadcast
handle_close_room s w =
    if is_barred s
    then (s, w)
    else let w1 = set_players (modify s.player_id host_nothing w.app.players) w in
      elim (hosted (get s.player_id w.app.players)) [
        | none ↦ (s, w1)
        | some room_id ↦ (s, broadcast (set_rooms (remove room_id w1.app.rooms) w1))
      ]

unfoldable pub handle_ping : ℕ → Session → Server → Session × Server
unfolding send
handle_ping ts s w = (s, send s.tx (pong ts) w)
