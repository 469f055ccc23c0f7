-- ===== src/Server/Entry.antt =====
-- `ws_handler` and `tunnel_handler` of crates/server/src/main.rs, up to the upgrade of the request:
-- the origin, the address, the query, and then the slot of the address.
pub mod Slots
use war3_battle_tool.Prelude.{
  ℕ, Bool, true, false, Option, none, some, List, codes, is_empty, not, ◌||◌, if◌then◌else◌, Result,
  ok, err,
}
use war3_battle_tool.Protocol.AddrSafety.{IpAddr, SocketAddr}
use war3_battle_tool.Server.Origin.{
  Text, HeaderValue, ParseUrl, text_beq, validate_origin_against, real_ip,
}
use war3_battle_tool.Server.State.{AppState, try_acquire_connection}
use war3_battle_tool.Server.Tunnel.{TunnelState, try_acquire_tunnel_connection}

-- The headers that the handlers read, and the address of the other end.
pub record Request : Type 0 where
  pub origins : List HeaderValue
  pub x_real_ip : Option HeaderValue
  pub addr : SocketAddr

-- A status, or the upgrade, with the address that the connection is charged to.
pub data Response : Type 0 where
  forbidden : Response
  bad_request : Response
  too_many_requests : Response
  upgrade : IpAddr → Response

-- `Some(t) if !t.is_empty()`
unfoldable pub has_token : Option Text → Bool
has_token none = false
has_token (some t) = not (is_empty t)

-- `Some(r) if r == "host" || r == "join"`
unfoldable pub has_role : Option Text → Bool
unfolding text_beq
has_role none = false
has_role (some r) = text_beq r (codes "host") || text_beq r (codes "join")

module _ (parse : ParseUrl) (parse_ip : Text → Option IpAddr) (allowed : List Text)
    (request : Request) where
  unfoldable pub ws_handler : AppState → AppState × Response
  unfolding validate_origin_against real_ip try_acquire_connection
  ws_handler s = elim (validate_origin_against parse request.origins allowed) [
    | err origin ↦ (s, forbidden)
    | ok _ ↦
        let client_ip = real_ip parse_ip request.x_real_ip request.addr in
        let (s', acquired) = try_acquire_connection client_ip s in
        if acquired then (s', upgrade client_ip) else (s', too_many_requests)
  ]

  -- `token` and `role` are the parameters of the query.
  unfoldable pub tunnel_handler : Option Text → Option Text → TunnelState → TunnelState × Response
  unfolding validate_origin_against real_ip has_token has_role try_acquire_tunnel_connection
  tunnel_handler token role s = elim (validate_origin_against parse request.origins allowed) [
    | err origin ↦ (s, forbidden)
    | ok _ ↦
        let client_ip = real_ip parse_ip request.x_real_ip request.addr in
        if not (has_token token)
        then (s, bad_request)
        else if not (has_role role)
        then (s, bad_request)
        else let (s', acquired) = try_acquire_tunnel_connection client_ip s in
          if acquired then (s', upgrade client_ip) else (s', too_many_requests)
  ]
