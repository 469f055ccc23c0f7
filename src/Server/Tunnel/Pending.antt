-- ===== src/Server/Tunnel/Pending.antt =====
-- The pending UPnP notices of tunnel.rs: who may consume one, and how often.
use war3_battle_tool.Prelude.{
  ◌≡◌, String, false, none, some, arith, ◌==◌, string_eq, if◌then◌else◌, eq_iff, beq_refl,
}
use war3_battle_tool.HashMap.{get}
use war3_battle_tool.HashMap.Laws.{get-insert, get-remove}
use war3_battle_tool.Protocol.AddrSafety.{IpAddr, ip_eq}
use war3_battle_tool.Server.Time.{Instant}
use war3_battle_tool.Server.Tunnel.{TunnelState, register_token, lookup_upnp_pending}

module _ (token : String) (host_ip joiner_ip : IpAddr) (joiner : String) (now : Instant)
    (s : TunnelState) where
  abbrev registered : TunnelState
  registered = register_token token host_ip joiner_ip joiner now s

  get-registered :
      (other : String)
      → get other registered.upnp_pending ≡ (
          if token == other
          then some (record { host_ip = host_ip; joiner_player_id = joiner; created_at = now })
          else get other s.upnp_pending)
  unfolding register_token
  get-registered other = get-insert token other _ s.upnp_pending

  lookup-registered :
      (ip : IpAddr)
      → (lookup_upnp_pending token ip registered).1 ≡ (if host_ip == ip then some joiner else none)
  unfolding lookup_upnp_pending
  lookup-registered ip = ground (arith, get-registered token, eq_iff token token)

  lookup-again :
      (ip : IpAddr)
      → (lookup_upnp_pending token ip (lookup_upnp_pending token host_ip registered).0).1 ≡ none
  unfolding lookup_upnp_pending
  lookup-again ip = ground (
    arith,
    get-registered token,
    eq_iff token token,
    beq_refl host_ip,
    get-remove token token registered.upnp_pending,
  )

  lookup-other :
      (other : String) (ip : IpAddr)
      → (token == other) ≡ false
      → (lookup_upnp_pending other ip registered).1 ≡ (lookup_upnp_pending other ip s).1
  unfolding lookup_upnp_pending
  lookup-other other ip h = ground (arith, get-registered other)

  -- A registered token gives its joiner to the host's address and to no other; once it has, it gives
  -- nothing to any address; and what another token gives is as before.
  lookup-register :
      (ip : IpAddr) (other : String)
      → (token == other) ≡ false
      → ((lookup_upnp_pending token ip registered).1
          ≡ (if host_ip == ip then some joiner else none))
        × ((lookup_upnp_pending token ip (lookup_upnp_pending token host_ip registered).0).1 ≡ none)
        × ((lookup_upnp_pending other ip registered).1 ≡ (lookup_upnp_pending other ip s).1)
  lookup-register ip other h = (lookup-registered ip, lookup-again ip, lookup-other other ip h)
