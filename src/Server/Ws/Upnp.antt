-- ===== src/Server/Ws/Upnp.antt =====
-- The `UPnPMapped` message of ws.rs: the host of a tunnel tells its joiner where to connect.
pub mod Forward
use war3_battle_tool.Prelude.{
  String, Bool, true, false, Option, none, some, List, [], ◌∷◌, not, ◌&&◌, if◌then◌else◌, is_none,
  string_eq, ◌==◌,
}
use war3_battle_tool.HashMap.{values}
use war3_battle_tool.Protocol.AddrSafety.{SocketAddr, is_safe_external_addr}
use war3_battle_tool.Protocol.Messages.{peer_upnp_addr}
use war3_battle_tool.Server.State.{ConnectedPlayer}
use war3_battle_tool.Server.Tunnel.{lookup_upnp_pending}
use war3_battle_tool.Server.Ws.{Env, Session, Server, send, is_barred}

-- The first connected player with the id, where `any` stops.
unfoldable pub find_connected : String → List ConnectedPlayer → Option ConnectedPlayer
find_connected id [] = none
find_connected id (p ∷ players) =
    if p.player_id == id && is_none p.disconnected_at then some p else find_connected id players

unfoldable pub forward_addr : String → String → Server → Server
unfolding find_connected send
forward_addr external_addr joiner_player_id w =
    elim (find_connected joiner_player_id (values w.app.players)) [
      | none ↦ w
      | some p ↦ send p.tx (peer_upnp_addr external_addr) w
    ]

unfoldable pub handle_upnp_mapped : Env → String → String → Session → Server → Session × Server
unfolding forward_addr lookup_upnp_pending
handle_upnp_mapped env external_addr tunnel_token s w =
    if is_barred s then (s, w) else elim (env.parse_socket_addr external_addr) [
      | none ↦ (s, w)
      | some addr ↦
          if not (is_safe_external_addr addr.ip)
          then (s, w)
          else let (tunnel, joiner) = lookup_upnp_pending tunnel_token s.client_ip w.tunnel in
            let w' : Server = record w { tunnel = tunnel } in
            elim joiner [
              | none ↦ (s, w')
              | some joiner_player_id ↦ (s, forward_addr external_addr joiner_player_id w')
            ]
    ]
