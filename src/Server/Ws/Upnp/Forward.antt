-- ===== src/Server/Ws/Upnp/Forward.antt =====
-- When the address that a host claims goes to its joiner.
use war3_battle_tool.Prelude.{
  ◌≡◌, refl, String, true, false, none, some, List, [], ◌∷◌, ◌⊎◌, inl, inr, not, arith, string_eq,
  eq_iff, Option-cases, by_if, by_option, sym, ◌∙◌,
}
use war3_battle_tool.HashMap.{get, values}
use war3_battle_tool.Protocol.AddrSafety.{SocketAddr, is_safe_external_addr, ip_eq}
use war3_battle_tool.Protocol.Messages.{peer_upnp_addr}
use war3_battle_tool.Server.Channel.{try_send}
use war3_battle_tool.Server.State.{ConnectedPlayer}
use war3_battle_tool.Server.Tunnel.{UpnpPending, lookup_upnp_pending}
use war3_battle_tool.Server.Ws.{Env, Session, Server, send, is_barred}
use war3_battle_tool.Server.Ws.Upnp.{find_connected, forward_addr, handle_upnp_mapped}

find_connected_lem :
    (id : String) (players : List ConnectedPlayer) (p : ConnectedPlayer)
    → find_connected id players ≡ some p
    → (p.player_id ≡ id) × (p.disconnected_at ≡ none)
unfolding find_connected
find_connected_lem id [] p h = cc
find_connected_lem id (q ∷ players) p h =
    ground (arith, find_connected_lem id players p, eq_iff q.player_id id)

lookup-some :
    (env : Env) (token : String) (s : Session) (w : Server) (id : String)
    → (lookup_upnp_pending token s.client_ip w.tunnel).1 ≡ some id
    → (e : UpnpPending) × (get token w.tunnel.upnp_pending ≡ some e)
      × (e.host_ip ≡ s.client_ip)
      × (e.joiner_player_id ≡ id)
unfolding lookup_upnp_pending
lookup-some env token s w id h = elim (Option-cases (get token w.tunnel.upnp_pending)) [
  | inl missing ↦ absurd (ground arith)
  | inr (e, found) ↦ (e, found, ground (arith, ip_eq.beq_iff e.host_ip s.client_ip), ground arith)
]

-- An address goes out.
pub record Forwarded (env : Env) (external_addr token : String) (s : Session) (w w' : Server)
    : Type 0 where
  pub registered : s.registered ≡ true
  pub no_viewer : s.is_web_viewer ≡ false
  pub addr : SocketAddr
  pub parsed : env.parse_socket_addr external_addr ≡ some addr
  pub safe : is_safe_external_addr addr.ip ≡ true
  pub pending : UpnpPending
  pub found : get token w.tunnel.upnp_pending ≡ some pending
  pub host : pending.host_ip ≡ s.client_ip
  pub joiner : ConnectedPlayer
  pub named : joiner.player_id ≡ pending.joiner_player_id
  pub connected : joiner.disconnected_at ≡ none
  pub sent : w'.channels ≡ try_send joiner.tx (peer_upnp_addr external_addr) w.channels

module _ (env : Env) (external_addr token : String) (s : Session) (w : Server) where
  abbrev Outcome : Session × Server → Type 0
  Outcome out = (out.1.channels ≡ w.channels) ⊎ Forwarded env external_addr token s w out.1

  forwarded :
      (addr : SocketAddr) (id : String)
      → is_barred s ≡ false
      → env.parse_socket_addr external_addr ≡ some addr
      → not (is_safe_external_addr addr.ip) ≡ false
      → (lookup_upnp_pending token s.client_ip w.tunnel).1 ≡ some id
      → Outcome (
        s,
        forward_addr external_addr id
            (record w { tunnel = (lookup_upnp_pending token s.client_ip w.tunnel).0 }),
      )
  unfolding forward_addr send
  forwarded addr id known parsed safe given =
      by_option (λ v. Outcome (s, v)) (find_connected id (values w.app.players)) _ _
        (λ gone. inl refl)
        (λ p found.
          let (named, connected) = find_connected_lem id (values w.app.players) p found in
          let (e, at_token, host, joiner) = lookup-some env token s w id given in
          inr (record {
            registered = ground (arith, known);
            no_viewer = ground (arith, known);
            addr = addr;
            parsed = parsed;
            safe = ground (arith, safe);
            pending = e;
            found = at_token;
            host = host;
            joiner = p;
            named = named ∙ sym joiner;
            connected = connected;
            sent = refl;
          }))

-- Either `UPnPMapped` sends nothing to anyone, or it sends the address to one connected player: then
-- the sender is a registered player at the host's address of the token, the player is the token's
-- joiner, and the address parses and is a safe external address.
pub handle_upnp_mapped-Forwarded :
    (env : Env) (external_addr token : String) (s : Session) (w : Server)
    → ((handle_upnp_mapped env external_addr token s w).1.channels ≡ w.channels)
      ⊎ Forwarded env external_addr token s w (handle_upnp_mapped env external_addr token s w).1
unfolding handle_upnp_mapped
handle_upnp_mapped-Forwarded env external_addr token s w =
    let P = Outcome env external_addr token s w in
    by_if P (is_barred s) _ _ (λ barred. inl refl)
      (λ known.
        by_option P (env.parse_socket_addr external_addr) _ _ (λ bad. inl refl)
          (λ addr parsed.
            by_if P (not (is_safe_external_addr addr.ip)) _ _ (λ unsafe. inl refl)
              (λ safe.
                by_option P (lookup_upnp_pending token s.client_ip w.tunnel).1 _ _
                  (λ nobody. inl refl)
                  (λ id given.
                    forwarded env external_addr token s w addr id known parsed safe given))))
