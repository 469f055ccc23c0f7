-- ===== src/Server/Entry/Slots.antt =====
-- A request takes a slot exactly where it is upgraded.
use war3_battle_tool.Prelude.{
  ℕ, ◌+◌, ◌≤◌, ◌≡◌, true, false, Option, List, arith, ◌==◌, not, bit, by_if, by_result, max,
}
use war3_battle_tool.HashMap.{HashMap}
use war3_battle_tool.Protocol.AddrSafety.{IpAddr, ip_eq}
use war3_battle_tool.Server.Entry.{
  Request, Response, forbidden, too_many_requests, upgrade, has_token, has_role, ws_handler,
  tunnel_handler,
}
use war3_battle_tool.Server.Origin.{Text, ParseUrl, validate_origin_against, real_ip}
use war3_battle_tool.Server.State.{AppState, acquire, try_acquire_connection}
use war3_battle_tool.Server.State.Connections.{held, held-acquire, acquire_iff}
use war3_battle_tool.Server.Tunnel.{TunnelState, try_acquire_tunnel_connection}

-- What a response costs an address.
abbrev charge : Response → IpAddr → ℕ
charge (upgrade ip) j = bit (ip == j)
charge _ j = 0

abbrev Charges : ℕ → IpAddr → HashMap IpAddr ℕ → HashMap IpAddr ℕ → Response → Type 0
Charges limit j before after r =
    (held j after ≡ held j before + charge r j) × (held j after ≤ max (held j before) limit)

module _ (limit : ℕ) (ip j : IpAddr) (conns : HashMap IpAddr ℕ) where
  upgraded :
      (acquire limit ip conns).1 ≡ true
      → Charges limit j conns (acquire limit ip conns).0 (upgrade ip)
  upgraded h =
      ground (arith, held-acquire ip conns limit j, acquire_iff ip conns limit, ip_eq.beq_iff ip j)

  refused :
      (acquire limit ip conns).1 ≡ false
      → Charges limit j conns (acquire limit ip conns).0 too_many_requests
  refused h = ground (arith, held-acquire ip conns limit j)

  free : Charges limit j conns conns forbidden
  free = (omega arith, omega arith)

module _ (parse : ParseUrl) (parse_ip : Text → Option IpAddr) (allowed : List Text)
    (request : Request) (j : IpAddr) where
  -- `ws_handler` takes one slot where it upgrades the request, of the address that it upgrades and of
  -- no other, and takes none where it answers with a status; and it leads no address beyond ten.
  ws_handler-held :
      (s : AppState)
      → (held j (ws_handler parse parse_ip allowed request s).0.connections_per_ip
          ≡ held j s.connections_per_ip + charge (ws_handler parse parse_ip allowed request s).1 j)
        × (held j (ws_handler parse parse_ip allowed request s).0.connections_per_ip
            ≤ max (held j s.connections_per_ip) 10)
  unfolding ws_handler try_acquire_connection
  ws_handler-held s =
      let P : AppState × Response → Type 0 =
        λ out. Charges 10 j s.connections_per_ip out.0.connections_per_ip out.1 in
      let ip = real_ip parse_ip request.x_real_ip request.addr in
      by_result P (validate_origin_against parse request.origins allowed) _ _
        (λ origin. free 10 ip j s.connections_per_ip)
        (λ fine.
          by_if P (acquire 10 ip s.connections_per_ip).1 _ _ (upgraded 10 ip j s.connections_per_ip)
            (refused 10 ip j s.connections_per_ip))

  -- `tunnel_handler` takes one slot where it upgrades the request, of the address that it upgrades and
  -- of no other, and takes none where it answers with a status, for the origin, the query or the limit;
  -- and it leads no address beyond twelve.
  tunnel_handler-held :
      (token role : Option Text) (s : TunnelState)
      → (held j (tunnel_handler parse parse_ip allowed request token role s).0.connections_per_ip
          ≡ held j s.connections_per_ip
            + charge (tunnel_handler parse parse_ip allowed request token role s).1 j)
        × (held j (tunnel_handler parse parse_ip allowed request token role s).0.connections_per_ip
            ≤ max (held j s.connections_per_ip) 12)
  unfolding tunnel_handler try_acquire_tunnel_connection
  tunnel_handler-held token role s =
      let P : TunnelState × Response → Type 0 =
        λ out. Charges 12 j s.connections_per_ip out.0.connections_per_ip out.1 in
      let ip = real_ip parse_ip request.x_real_ip request.addr in
      let none_taken = (free 12 ip j s.connections_per_ip) in
      by_result P (validate_origin_against parse request.origins allowed) _ _ (λ origin. none_taken)
        (λ fine.
          by_if P (not (has_token token)) _ _ (λ missing. none_taken)
            (λ with_token.
              by_if P (not (has_role role)) _ _ (λ bad. none_taken)
                (λ with_role.
                  by_if P (acquire 12 ip s.connections_per_ip).1 _ _
                    (upgraded 12 ip j s.connections_per_ip)
                    (refused 12 ip j s.connections_per_ip))))
