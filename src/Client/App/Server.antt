-- ===== src/Client/App/Server.antt =====
-- `handle_server_message` of crates/client/src/app.rs. How the standard library reads an address from
-- text is a parameter.
use war3_battle_tool.Prelude.{
  ℕ, String, List, ◌∷◌, Option, none, some, Bool, true, false, if◌then◌else◌,
}
use war3_battle_tool.Protocol.AddrSafety.{IpAddr, SocketAddr, is_safe_external_addr}
use war3_battle_tool.Protocol.Messages.{
  ServerMessage, welcome, player_update, room_update, join_result, player_joined, tunnel_ready,
  stun_info, pong, peer_upnp_addr, your_observed_addr, error, unknown,
}
use war3_battle_tool.Client.App.{
  War3App, PendingAction, joining, join_success, join_failed, creating_room, server_error,
  start_joiner_tunnel, start_host_tunnel,
}

-- `sender.send(addr)`, whether or not the tunnel still waits for it.
unfoldable pub hand_addr : SocketAddr → War3App → War3App
hand_addr addr a = elim a.upnp_addr_sender [
  | none ↦ a
  | some id ↦ record a { upnp_addr_sender = none; handed = (id, addr) ∷ a.handed }
]

-- A `JoinResult` while joining.
unfoldable pub join_ended : Bool → Option String → Option (List ℕ) → War3App → War3App
unfolding start_joiner_tunnel
join_ended true (some token) (some gi) a =
    start_joiner_tunnel token gi (record a { pending_action = some join_success })
join_ended true _ _ a = record a { pending_action = some join_success }
join_ended false _ _ a = record a { pending_action = some (join_failed "房間可能已關閉") }

abbrev pub is_joining : Option PendingAction → Bool
is_joining (some (joining room_name)) = true
is_joining _ = false

abbrev pub is_creating : Option PendingAction → Bool
is_creating (some (creating_room room_name)) = true
is_creating _ = false

-- What an error does to the action that is pending.
unfoldable pub surface : String → Option PendingAction → Option PendingAction
surface message (some (joining room_name)) = some (join_failed message)
surface message (some (creating_room room_name)) = some (server_error message)
surface message none = some (server_error message)
surface message (some existing) = some existing

module _ (parse_ip : String → Option IpAddr) (parse_addr : String → Option SocketAddr) where
  unfoldable pub handle_server_message : ServerMessage → War3App → War3App
  unfolding hand_addr join_ended surface start_host_tunnel
  handle_server_message (welcome player_id) a = record a { my_player_id = some player_id }
  handle_server_message (your_observed_addr ip) a = elim (parse_ip ip) [
    | none ↦ a
    | some addr ↦ record a { my_observed_ip = some addr }
  ]
  handle_server_message (player_update players) a = record a { players = players }
  handle_server_message (room_update rooms) a = record a {
    pending_action = if is_creating a.pending_action then none else a.pending_action;
    rooms = rooms;
  }
  handle_server_message (join_result success room_id tunnel_token gameinfo) a =
      if is_joining a.pending_action then join_ended success tunnel_token gameinfo a else a
  handle_server_message (player_joined nickname tunnel_token) a = start_host_tunnel tunnel_token a
  handle_server_message (tunnel_ready tunnel_token) a = start_host_tunnel tunnel_token a
  handle_server_message (stun_info peer_addr) a = elim (parse_ip peer_addr) [
    | none ↦ a
    | some ip ↦ record a { peer_addr = some ip }
  ]
  handle_server_message (peer_upnp_addr external_addr) a = elim (parse_addr external_addr) [
    | none ↦ a
    | some addr ↦ if is_safe_external_addr addr.ip then hand_addr addr a else a
  ]
  handle_server_message (pong ts) a = a
  handle_server_message (error message) a = record a {
    pending_action = surface message a.pending_action;
  }
  handle_server_message unknown a = a
