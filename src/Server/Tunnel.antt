-- ===== src/Server/Tunnel.antt =====
-- `TunnelState` of crates/server/src/tunnel.rs: tokens bound to the addresses of a host and a
-- joiner, the end of a tunnel that waits for the other, and the pending UPnP notices. Each function
-- is one section under a lock, but `register_token` and `cleanup_expired`, which take several in
-- turn.
pub mod Pending
pub mod Cleanup
pub mod Relay
pub mod Pairing
pub mod Ends
pub mod Joined
use war3_battle_tool.Prelude.{
  ℕ, String, Bool, true, false, Option, none, some, List, [], ◌∷◌, not, ltb, if◌then◌else◌,
  string_eq, ◌==◌, is_some,
}
use war3_battle_tool.HashMap.{HashMap, empty, get, insert, remove, retain}
use war3_battle_tool.Protocol.AddrSafety.{IpAddr, ip_eq}
use war3_battle_tool.Server.Channel.{Sender}
use war3_battle_tool.Server.State.{acquire, release}
use war3_battle_tool.Server.Time.{Instant, elapsed, from_secs}

abbrev pub pairing_timeout : ℕ
pairing_timeout = from_secs 30

abbrev pub upnp_pending_ttl : ℕ
upnp_pending_ttl = from_secs 10

abbrev pub max_tunnel_connections_per_ip : ℕ
max_tunnel_connections_per_ip = 12

-- `tx` is the relay channel of the end that waits, whose task holds the receiver of `notify`.
pub record WaitingPeer : Type 0 where
  pub tx : Sender
  pub role : String
  pub created_at : Instant

pub record TokenBinding : Type 0 where
  pub host_ip : IpAddr
  pub joiner_ip : IpAddr

pub record UpnpPending : Type 0 where
  pub host_ip : IpAddr
  pub joiner_player_id : String
  pub created_at : Instant

pub record TunnelState : Type 0 where
  pub waiting : HashMap String WaitingPeer
  pub token_bindings : HashMap String TokenBinding
  pub connections_per_ip : HashMap IpAddr ℕ
  pub upnp_pending : HashMap String UpnpPending

abbrev pub new : TunnelState
new = record {
  waiting = empty;
  token_bindings = empty;
  connections_per_ip = empty;
  upnp_pending = empty;
}

unfoldable pub try_acquire_tunnel_connection : IpAddr → TunnelState → TunnelState × Bool
unfolding acquire
try_acquire_tunnel_connection ip s =
    let (conns, acquired) = acquire max_tunnel_connections_per_ip ip s.connections_per_ip in
    (record s { connections_per_ip = conns }, acquired)

unfoldable pub release_tunnel_connection : IpAddr → TunnelState → TunnelState
unfolding release
release_tunnel_connection ip s = record s { connections_per_ip = release ip s.connections_per_ip }

unfoldable pub register_token :
    String → IpAddr → IpAddr → String → Instant → TunnelState → TunnelState
register_token token host_ip joiner_ip joiner_player_id now s = record s {
  upnp_pending = insert token pending s.upnp_pending;
  token_bindings = insert token binding s.token_bindings;
}
  where
    pending : UpnpPending
    pending = record { host_ip = host_ip; joiner_player_id = joiner_player_id; created_at = now }

    binding : TokenBinding
    binding = record { host_ip = host_ip; joiner_ip = joiner_ip }

-- The joiner of a token, for its host alone, and only once.
unfoldable pub lookup_upnp_pending : String → IpAddr → TunnelState → TunnelState × Option String
lookup_upnp_pending token claimed_host_ip s = elim (get token s.upnp_pending) [
  | none ↦ (s, none)
  | some entry ↦
      if entry.host_ip == claimed_host_ip
      then (record s { upnp_pending = remove token s.upnp_pending }, some entry.joiner_player_id)
      else (s, none)
]

unfoldable pub verify_ip : TokenBinding → String → IpAddr → Bool
verify_ip binding role client_ip =
    if role == "host"
    then binding.host_ip == client_ip
    else if role == "join"
    then binding.joiner_ip == client_ip
    else false

-- `w.created_at.elapsed() > PAIRING_TIMEOUT`
unfoldable pub is_stale : Instant → WaitingPeer → Bool
is_stale now w = ltb pairing_timeout (elapsed now w.created_at)

unfoldable pub expired_tokens : Instant → HashMap String WaitingPeer → List String
unfolding is_stale
expired_tokens now [] = []
expired_tokens now ((token, w) ∷ waiting) =
    let rest = expired_tokens now waiting in if is_stale now w then token ∷ rest else rest

-- `for token in &expired_tokens { m.remove(token); }`
unfoldable pub remove_all {ℓ} : {V : Type ℓ} → List String → HashMap String V → HashMap String V
remove_all [] m = m
remove_all (token ∷ tokens) m = remove_all tokens (remove token m)

unfoldable pub cleanup_expired : Instant → TunnelState → TunnelState
unfolding expired_tokens remove_all
cleanup_expired now s =
    let expired = expired_tokens now s.waiting in
    record s {
      waiting = remove_all expired s.waiting;
      token_bindings = remove_all expired s.token_bindings;
      upnp_pending =
          retain (λ token p. ltb (elapsed now p.created_at) upnp_pending_ttl) s.upnp_pending;
    }
