-- ===== src/Client/Tests/Apps.antt =====
-- The app over a few frames: a connection, a room, and a join.
use war3_battle_tool.Prelude.{
  ℕ, String, List, [], ◌∷◌, ◌++◌, Option, none, some, true, false, ◌≡◌, ◌==◌, refl, trim,
  is_whitespace, length, string_eq, ok, err, done, if◌then◌else◌,
}
use war3_battle_tool.Protocol.AddrSafety.{IpAddr, v4, SocketAddr, is_safe_external_addr}
use war3_battle_tool.Protocol.Messages.{
  RoomInfo, welcome, room_update, join_result, peer_upnp_addr, tunnel_ready,
}
use war3_battle_tool.Protocol.War3.{v127}
use war3_battle_tool.Client.CmdSender.{CmdSender}
use war3_battle_tool.Client.Config.{AppConfig}
use war3_battle_tool.Client.Discovery.{NetEvent, server_message}
use war3_battle_tool.Client.Discovery.Backoff.{accepts}
use war3_battle_tool.Client.Tunnel.{
  Ends, Mapping, Connect, refused, TunnelEvent, proxy_ready, finished, run_host_tunnel,
  run_joiner_tunnel,
}
use war3_battle_tool.Client.Quic.{quic_direct, upnp_not_attempted}
use war3_battle_tool.Client.App.{War3App, TunnelTask, host, new, start_host_tunnel}
use war3_battle_tool.Client.App.Server.{is_joining}
use war3_battle_tool.Client.App.Network.{on_net_events, on_tunnel_event, on_tunnel_events}
use war3_battle_tool.Client.App.Frame.{Ui, idle, join, FrameInput, run, update, capture}
use war3_battle_tool.Client.App.Addresses.{AllSafe, NoneTwice, handed_safe_once}
use war3_battle_tool.Client.App.Capture.{IsReported, packet, capture_reports}
use war3_battle_tool.Client.App.Connected.{is_connected, net_of, joining-connected}
use war3_battle_tool.Client.App.Ghosts.{
  IsHeld, Moment, net, told, finishes, live, running-IsHeld, late_finished-two_tunnels,
}
use war3_battle_tool.Client.App.Pending.{IsIdle, joining_is_answered}
use war3_battle_tool.Client.App.Tunnels.{NoTunnel, tunnel_run_cleans_up}

abbrev config : AppConfig
config = record {
  nickname = "ann";
  war3_version = v127;
  server_url = "wss://war3.example/ws";
  log_buffer_size = 2000;
}

abbrev sender : CmdSender
sender = record { open_end = true; queue = [] }

abbrev peer : SocketAddr
peer = record { ip = v4 93 184 216 34; port = 19870 }

abbrev parse_ip : String → Option IpAddr
parse_ip s = none

abbrev parse_addr : String → Option SocketAddr
parse_addr s = if s == "93.184.216.34:19870" then some peer else none

abbrev show_addr : SocketAddr → String
show_addr addr = "93.184.216.34:19870"

abbrev room : RoomInfo
room = record {
  room_id = "r1";
  host_nickname = "bob";
  room_name = "dota";
  map_name = "map";
  max_players = 10;
  current_players = 1;
  war3_version = v127;
}

abbrev frame : List NetEvent → Ui → FrameInput
frame events ui = record { inbox = record { net = events; mapped = []; tunnel = [] }; ui = ui }

-- The user joins the one room of the list.
abbrev asked : List FrameInput
asked =
    frame (NetEvent.connected ∷ server_message (welcome "p1") ∷ []) idle
    ∷ frame (server_message (room_update (room ∷ [])) ∷ []) (join 0)
    ∷ []

-- The server agrees, and sends the address of the host twice.
abbrev answered : List NetEvent
answered =
    server_message (join_result true (some "r1") (some "token") (some (0 ∷ [])))
    ∷ server_message (peer_upnp_addr "93.184.216.34:19870")
    ∷ server_message (peer_upnp_addr "93.184.216.34:19870")
    ∷ []

abbrev after_join : List FrameInput
after_join = asked ++ frame answered idle ∷ []

handed_safe_once_example :
    AllSafe (run parse_ip parse_addr show_addr after_join (new config sender)).handed
    × NoneTwice (run parse_ip parse_addr show_addr after_join (new config sender)).handed
handed_safe_once_example = handed_safe_once parse_ip parse_addr show_addr config sender after_join

one_handed : length (run parse_ip parse_addr show_addr after_join (new config sender)).handed ≡ 1
unfolding run update new is_safe_external_addr trim is_whitespace
one_handed = refl

asked_accepted : accepts false (net_of asked) ≡ some true
unfolding accepts
asked_accepted = refl

asked_joining :
    is_joining (run parse_ip parse_addr show_addr asked (new config sender)).pending_action ≡ true
unfolding run update new trim is_whitespace
asked_joining = refl

joining-connected_example :
    is_connected (run parse_ip parse_addr show_addr asked (new config sender)).connection_state
    ≡ true
joining-connected_example =
    joining-connected parse_ip parse_addr show_addr config sender asked asked_accepted asked_joining

joining_is_answered_example : IsIdle (
    on_net_events parse_ip parse_addr
      ([] ++ NetEvent.disconnected ∷ (NetEvent.reconnecting 0 ∷ []))
      (run parse_ip parse_addr show_addr asked (new config sender)))
joining_is_answered_example =
    joining_is_answered parse_ip parse_addr [] (NetEvent.reconnecting 0 ∷ []) NetEvent.disconnected
      (run parse_ip parse_addr show_addr asked (new config sender)) refl

-- Two tunnels, one after the other.
abbrev moments : List Moment
moments =
    net (server_message (tunnel_ready "one"))
    ∷ finishes none
    ∷ net (server_message (tunnel_ready "two"))
    ∷ told proxy_ready refl
    ∷ []

running-IsHeld_example : IsHeld (live parse_ip parse_addr moments (new config sender))
running-IsHeld_example = running-IsHeld parse_ip parse_addr config sender moments

abbrev second : TunnelTask
second = record { id = 1; role = host; tunnel_token = "two"; peer_addr = none; observed_ip = none }

abbrev swapped : War3App
swapped = record (new config sender) {
  tunnel_handle = some 1;
  tunnels = second ∷ [];
  next_task = 2;
}

late_finished-two_tunnels_example :
    length (start_host_tunnel "three" (on_tunnel_event (finished none) swapped)).tunnels ≡ 2
late_finished-two_tunnels_example = late_finished-two_tunnels none "three" second swapped refl

-- No mapping, and no connection of the other side.
abbrev no_mapping : ℕ → Mapping
no_mapping port = record { outcome = err upnp_not_attempted; in_time = true }

abbrev no_peer : Connect
no_peer = refused "timed out" 5

abbrev ends : Ends
ends = record {
  listener = ok tt;
  web_socket = ok tt;
  game = true;
  bridge = err "set_nodelay";
  told_after = some 1;
}

tunnel_run_cleans_up_example :
    NoTunnel
      (on_tunnel_events (run_host_tunnel "one" (err "in use") no_mapping no_peer ends) swapped)
    × NoTunnel
        (on_tunnel_events (run_joiner_tunnel (λ addr. no_peer) none none quic_direct ends) swapped)
tunnel_run_cleans_up_example =
    tunnel_run_cleans_up "one" (err "in use") no_mapping no_peer (λ addr. no_peer) none none
      quic_direct ends swapped

capture_reports_example :
    (room_name : String) × (map_name : String) × (e : TunnelEvent) × (capture
        (λ bytes. bytes)
        (λ text. "text")
        10
        (some (1 ∷ 2 ∷ []))
      ≡ done e)
    × IsReported room_name map_name 10
        (packet (some (1 ∷ 2 ∷ [])))
        (new config sender)
        (on_tunnel_event e (new config sender))
capture_reports_example =
    capture_reports (λ bytes. bytes) (λ text. "text") 10 (some (1 ∷ 2 ∷ [])) (new config sender)
