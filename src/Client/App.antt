-- ===== src/Client/App.antt =====
-- `War3App` of crates/client/src/app.rs: its state, and what events of the network and of the tunnels
-- and the user do to it. A task that is spawned has a number, and runs until it is aborted or ends.
pub mod Server
pub mod Network
pub mod Frame
pub mod Keep
pub mod Pending
pub mod Connected
pub mod Tunnels
pub mod Ghosts
pub mod Capture
pub mod Creating
pub mod FirstRun
pub mod Addresses
pub mod Banner
use war3_battle_tool.Prelude.{
  ℕ, ◌+◌, String, List, [], ◌∷◌, ◌++◌, Option, none, some, Bool, true, false, not, filter, is_some,
  any, is_empty, ◌==◌, ◌&&◌, nat_eq, string_eq, if◌then◌else◌,
}
use war3_battle_tool.Protocol.AddrSafety.{IpAddr, SocketAddr}
use war3_battle_tool.Protocol.Messages.{ClientMessage, register, PlayerInfo, RoomInfo}
use war3_battle_tool.Client.CmdSender.{CmdSender, send_or_warn}
use war3_battle_tool.Client.Config.{AppConfig, is_configured}
use war3_battle_tool.Client.Quic.{StrategyResult}
use war3_battle_tool.Client.Tunnel.{Transport}

pub data ConnectionState : Type 0 where
  disconnected : ConnectionState
  connected : ConnectionState
  -- attempt
  reconnecting : ℕ → ConnectionState

pub data PendingAction : Type 0 where
  -- room_name
  joining : String → PendingAction
  join_success : PendingAction
  -- reason
  join_failed : String → PendingAction
  -- room_name
  creating_room : String → PendingAction
  -- message
  server_error : String → PendingAction

unfoldable pub is_in_flight : PendingAction → Bool
is_in_flight (joining room_name) = true
is_in_flight (creating_room room_name) = true
is_in_flight _ = false

pub data Role : Type 0 where
  joiner host : Role

-- A tunnel task with its arguments.
pub record TunnelTask : Type 0 where
  pub id : ℕ
  pub role : Role
  pub tunnel_token : String
  pub peer_addr : Option IpAddr
  pub observed_ip : Option IpAddr

pub record War3App : Type 0 where
  pub config : AppConfig
  pub cmd_tx : CmdSender
  pub connection_state : ConnectionState
  pub ever_connected : Bool
  pub my_player_id : Option String
  pub players : List PlayerInfo
  pub rooms : List RoomInfo
  pub wizard : Bool
  pub pending_action : Option PendingAction
  pub pending_gameinfo : Option (List ℕ)
  pub injection_handle : Option ℕ
  pub tunnel_handle : Option ℕ
  pub tunnel_latency_ms : ℕ
  pub my_observed_ip : Option IpAddr
  pub peer_addr : Option IpAddr
  pub transport : Option Transport
  -- the tunnel task that has the other end
  pub upnp_addr_sender : Option ℕ
  pub connection_diagnostics : List StrategyResult
  -- the runtime: the number of the next task, the tunnels and injections that run, the bytes that
  -- each injection was started with, the addresses that were sent to a tunnel, and the number of
  -- players of each GAMEINFO capture that was started
  pub next_task : ℕ
  pub tunnels : List TunnelTask
  pub injections : List (ℕ × List ℕ)
  pub handed : List (ℕ × SocketAddr)
  pub captures : List ℕ

-- `War3App::new`
unfoldable pub new : AppConfig → CmdSender → War3App
new config cmd_tx = record {
  config = config;
  cmd_tx = cmd_tx;
  connection_state = disconnected;
  ever_connected = false;
  my_player_id = none;
  players = [];
  rooms = [];
  wizard = not (is_configured config);
  pending_action = none;
  pending_gameinfo = none;
  injection_handle = none;
  tunnel_handle = none;
  tunnel_latency_ms = 0;
  my_observed_ip = none;
  peer_addr = none;
  transport = none;
  upnp_addr_sender = none;
  connection_diagnostics = [];
  next_task = 0;
  tunnels = [];
  injections = [];
  handed = [];
  captures = [];
}

abbrev pub is_registered : War3App → Bool
is_registered a = is_some a.my_player_id

unfoldable pub is_hosting : War3App → Bool
is_hosting a = elim a.my_player_id [
  | none ↦ false
  | some my_id ↦ any (λ p. p.player_id == my_id && p.is_hosting) a.players
]

abbrev pub client_version : String
client_version = "0.4.2"

unfoldable pub send_register : War3App → War3App
unfolding send_or_warn
send_register a =
    let (_, cmd_tx) =
      send_or_warn (register a.config.nickname a.config.war3_version (some client_version))
        a.cmd_tx in
    record a { cmd_tx = cmd_tx }

-- `h.abort()` for a handle of a tunnel, and of an injection.
abbrev pub without_tunnel : ℕ → List TunnelTask → List TunnelTask
without_tunnel id = filter (λ t. not (t.id == id))

abbrev pub without_injection : ℕ → List (ℕ × List ℕ) → List (ℕ × List ℕ)
without_injection id = filter (λ t. not (t.0 == id))

unfoldable pub abort_tunnel : War3App → War3App
abort_tunnel a = elim a.tunnel_handle [
  | none ↦ a
  | some id ↦ record a { tunnel_handle = none; tunnels = without_tunnel id a.tunnels }
]

unfoldable pub abort_injection : War3App → War3App
abort_injection a = elim a.injection_handle [
  | none ↦ a
  | some id ↦ record a { injection_handle = none; injections = without_injection id a.injections }
]

-- `rt_handle.spawn` of a tunnel, with what both starts do around it.
abbrev pub spawn_tunnel : Role → String → War3App → War3App
spawn_tunnel role tunnel_token a = record a {
  connection_diagnostics = [];
  peer_addr = none;
  tunnel_latency_ms = 0;
  tunnel_handle = some a.next_task;
  next_task = a.next_task + 1;
  tunnels =
      record {
        id = a.next_task;
        role = role;
        tunnel_token = tunnel_token;
        peer_addr = a.peer_addr;
        observed_ip = a.my_observed_ip;
      }
      ∷ a.tunnels;
}

unfoldable pub start_joiner_tunnel : String → List ℕ → War3App → War3App
unfolding abort_tunnel
start_joiner_tunnel tunnel_token gameinfo a =
    let a' = abort_tunnel a in
    record (spawn_tunnel joiner tunnel_token a') {
      upnp_addr_sender = some a'.next_task;
      pending_gameinfo = some gameinfo;
    }

unfoldable pub start_host_tunnel : String → War3App → War3App
unfolding abort_tunnel
start_host_tunnel tunnel_token a = spawn_tunnel host tunnel_token (abort_tunnel a)

-- After the abort of the injection before.
abbrev pub inject_pending : War3App → War3App
inject_pending a = elim a.pending_gameinfo [
  | none ↦ a
  | some gameinfo ↦ if is_empty gameinfo then record a { pending_gameinfo = none } else record a {
    pending_gameinfo = none;
    injection_handle = some a.next_task;
    next_task = a.next_task + 1;
    injections = (a.next_task, gameinfo) ∷ a.injections;
  }
]

unfoldable pub start_gameinfo_injection : War3App → War3App
unfolding abort_injection
start_gameinfo_injection a = inject_pending (abort_injection a)
