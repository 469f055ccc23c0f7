-- ===== src/Client/App/Network.antt =====
-- `process_network_events` of crates/client/src/app.rs: the three channels, in order.
use war3_battle_tool.Prelude.{
  String, List, [], ◌∷◌, Option, none, some, true, is_empty, not, if◌then◌else◌, ◌&&◌,
}
use war3_battle_tool.Protocol.AddrSafety.{IpAddr, SocketAddr}
use war3_battle_tool.Protocol.Messages.{create_room, upnp_mapped}
use war3_battle_tool.Client.CmdSender.{send_or_warn}
use war3_battle_tool.Client.Config.{is_configured}
use war3_battle_tool.Client.Discovery.{NetEvent, server_message}
use war3_battle_tool.Client.Tunnel.{
  direct, TunnelEvent, proxy_ready, transport_selected, transport_upgraded, finished,
  gameinfo_captured, strategy_results,
}
use war3_battle_tool.Client.App.{
  War3App, ConnectionState, PendingAction, server_error, is_in_flight, is_registered, send_register,
  abort_injection, start_gameinfo_injection,
}
use war3_battle_tool.Client.App.Server.{handle_server_message}

-- An action in flight never gets its answer when the connection is lost.
unfoldable pub cancel_in_flight : Option PendingAction → Option PendingAction
unfolding is_in_flight
cancel_in_flight none = none
cancel_in_flight (some action) =
    if is_in_flight action then some (server_error "與伺服器中斷連線，操作已取消") else some action

-- A connection clears what its loss has set.
unfoldable pub clear_error : Option PendingAction → Option PendingAction
clear_error (some (server_error message)) = none
clear_error pending = pending

module _ (parse_ip : String → Option IpAddr) (parse_addr : String → Option SocketAddr) where
  unfoldable pub on_net_event : NetEvent → War3App → War3App
  unfolding clear_error cancel_in_flight send_register handle_server_message is_configured
  on_net_event NetEvent.connected a =
      let a' : War3App = record a {
        connection_state = ConnectionState.connected;
        ever_connected = true;
        pending_action = clear_error a.pending_action;
      } in
      if not (is_registered a') && is_configured a'.config then send_register a' else a'
  on_net_event NetEvent.disconnected a = record a {
    connection_state = ConnectionState.disconnected;
    my_player_id = none;
    players = [];
    rooms = [];
    pending_action = cancel_in_flight a.pending_action;
  }
  on_net_event (NetEvent.reconnecting attempt) a = record a {
    connection_state = ConnectionState.reconnecting attempt;
    pending_action = cancel_in_flight a.pending_action;
  }
  on_net_event (server_message msg) a = handle_server_message parse_ip parse_addr msg a

  unfoldable pub on_net_events : List NetEvent → War3App → War3App
  unfolding on_net_event
  on_net_events [] a = a
  on_net_events (e ∷ es) a = on_net_events es (on_net_event e a)

-- The notices of mapped ports; after one that cannot be sent the others wait. `show_addr` is
-- `addr.to_string()`.
unfoldable pub on_mapped : (SocketAddr → String) → List (String × SocketAddr) → War3App → War3App
unfolding send_or_warn
on_mapped show_addr [] a = a
on_mapped show_addr ((token, addr) ∷ notices) a =
    let (sent, cmd_tx) = send_or_warn (upnp_mapped (show_addr addr) token) a.cmd_tx in
    let a' : War3App = record a { cmd_tx = cmd_tx } in
    let next = on_mapped show_addr notices a' in if sent then next else a'

-- Both arms of `Finished`.
abbrev pub tunnel_over : War3App → War3App
tunnel_over a = record (abort_injection a) {
  tunnel_handle = none;
  transport = none;
  tunnel_latency_ms = 0;
}

unfoldable pub on_tunnel_event : TunnelEvent → War3App → War3App
unfolding start_gameinfo_injection abort_injection send_or_warn
on_tunnel_event proxy_ready a = start_gameinfo_injection a
on_tunnel_event (transport_selected t) a = record a { transport = some t }
on_tunnel_event transport_upgraded a = record a { transport = some direct }
on_tunnel_event (finished error) a = tunnel_over a
on_tunnel_event (strategy_results results) a = record a { connection_diagnostics = results }
on_tunnel_event (gameinfo_captured room_name map_name max_players gameinfo) a =
    if is_empty gameinfo
    then record a { pending_action = none }
    else let (sent, cmd_tx) =
        send_or_warn (create_room room_name map_name max_players gameinfo) a.cmd_tx in
      record a { cmd_tx = cmd_tx; pending_action = if sent then a.pending_action else none }

unfoldable pub on_tunnel_events : List TunnelEvent → War3App → War3App
unfolding on_tunnel_event
on_tunnel_events [] a = a
on_tunnel_events (e ∷ es) a = on_tunnel_events es (on_tunnel_event e a)

-- What waits in the three channels.
pub record Inbox : Type 0 where
  pub net : List NetEvent
  pub mapped : List (String × SocketAddr)
  pub tunnel : List TunnelEvent

unfoldable pub process_network_events :
    (String → Option IpAddr)
    → (String → Option SocketAddr)
    → (SocketAddr → String)
    → Inbox
    → War3App
    → War3App
unfolding on_net_events on_mapped on_tunnel_events
process_network_events parse_ip parse_addr show_addr inbox a =
    on_tunnel_events inbox.tunnel
      (on_mapped show_addr inbox.mapped (on_net_events parse_ip parse_addr inbox.net a))
