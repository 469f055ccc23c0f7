-- ===== src/Client/Quic/Upnp.antt =====
-- What `attempt_upnp_mapping` of crates/client/src/net/quic.rs lets through.
use war3_battle_tool.Prelude.{ℕ, String, ◌⊎◌, Option, none, some, ok, ◌≡◌, inl, inr, arith, refl}
use war3_battle_tool.Protocol.AddrSafety.{IpAddr, SocketAddr, ip_eq, ip_beq_iff}
use war3_battle_tool.Client.Quic.{
  Timed, late, refused, answered, Gateway, attempt_upnp_mapping, upnp_external_port, map_port,
  map_checked,
}

map_port_lem :
    (gateway : Gateway) (local_port : ℕ) (ip : IpAddr) {addr : SocketAddr}
    → map_port gateway local_port ip ≡ ok addr
    → (addr.ip ≡ ip) × (addr.port ≡ upnp_external_port)
map_port_lem gateway local_port ip h = ground arith

map_checked_lem :
    (gateway : Gateway) (local_port : ℕ) (ip stun : IpAddr) {addr : SocketAddr}
    → map_checked gateway local_port ip (some stun) ≡ ok addr
    → (addr.ip ≡ stun) × (addr.port ≡ upnp_external_port)
unfolding map_checked
map_checked_lem gateway local_port ip stun h =
    ground (arith, ip_beq_iff ip stun, map_port_lem gateway local_port ip)

timed_cases :
    {A : Type 0} (t : Timed A)
    → (t ≡ late) ⊎ (((e : String) × (t ≡ refused e)) ⊎ ((a : A) × (t ≡ answered a)))
timed_cases late = inl refl
timed_cases (refused e) = inr (inl (e, refl))
timed_cases (answered a) = inr (inr (a, refl))

-- The router opens a port only after the check for a carrier's NAT: a mapping that succeeds is at the
-- outer port 19870 of the very address at which the server saw this host.
pub mapping_at_observed_ip :
    (gateway : Option Gateway) (local_port : ℕ) (stun : IpAddr) {addr : SocketAddr}
    → attempt_upnp_mapping gateway local_port (some stun) ≡ ok addr
    → (addr.ip ≡ stun) × (addr.port ≡ upnp_external_port)
unfolding attempt_upnp_mapping
mapping_at_observed_ip none local_port stun h = cc
mapping_at_observed_ip (some gateway) local_port stun h = elim (timed_cases gateway.external_ip) [
  | inl e ↦ cc
  | inr (inl (x, e)) ↦ cc
  | inr (inr (ip, e)) ↦
      map_checked_lem gateway local_port ip stun (rw (e, attempt_upnp_mapping) at h)
]
