-- ===== src/Client/Quic.antt =====
-- crates/client/src/net/quic.rs: the strategies and their results, and what the code decides around
-- the calls of quinn and igd. Those calls are parameters, given by how they end.
pub mod Upnp
use Prim.Native.String.{◌++◌ as cat}
use war3_battle_tool.Prelude.{
  ℕ, String, List, [], ◌∷◌, Option, none, some, Result, ok, err, Bool, true, false, not, ◌==◌,
  if◌then◌else◌,
}
use war3_battle_tool.Protocol.AddrSafety.{IpAddr, v4, v6, SocketAddr, ip_eq}

abbrev pub quic_default_port : ℕ
quic_default_port = 19870

abbrev pub upnp_external_port : ℕ
upnp_external_port = 19870

pub data StrategyKind : Type 0 where
  quic_direct upnp : StrategyKind

pub data StrategyFailReason : Type 0 where
  no_stun_info : StrategyFailReason
  bind_failed : String → StrategyFailReason
  timeout : StrategyFailReason
  handshake_failed : String → StrategyFailReason
  upnp_gateway_not_found : StrategyFailReason
  upnp_mapping_failed : String → StrategyFailReason
  upnp_not_attempted : StrategyFailReason
  cgnat_detected : StrategyFailReason

-- `impl fmt::Display`
unfoldable pub show_kind : StrategyKind → String
show_kind quic_direct = "QUIC 穿透"
show_kind upnp = "UPnP 映射"

unfoldable pub show_reason : StrategyFailReason → String
show_reason no_stun_info = "無對方 IP"
show_reason (bind_failed e) = cat "綁定失敗: " e
show_reason timeout = "逾時"
show_reason (handshake_failed e) = cat "交握失敗: " e
show_reason upnp_gateway_not_found = "Gateway 找不到"
show_reason (upnp_mapping_failed e) = cat "映射失敗: " e
show_reason upnp_not_attempted = "未嘗試"
show_reason cgnat_detected = "偵測到 CGNAT"

pub data StrategyOutcome : Type 0 where
  success : StrategyOutcome
  failed : StrategyFailReason → StrategyOutcome
  skipped : StrategyOutcome

pub record StrategyResult : Type 0 where
  pub method : StrategyKind
  pub outcome : StrategyOutcome
  pub duration_ms : ℕ

abbrev pub unspecified_v4 : ℕ → SocketAddr
unspecified_v4 port = record { ip = v4 0 0 0 0; port = port }

abbrev pub unspecified_v6 : ℕ → SocketAddr
unspecified_v6 port = record { ip = v6 0 0 0 0 0 0 0 0; port = port }

-- `a.or_else(|_| …)`
abbrev pub or_else {ℓ} : {A : Type ℓ} → Result String A → Result String A → Result String A
or_else (ok a) r = ok a
or_else (err e) r = r

-- `bind_host_endpoint`: the local port, after the certificate and the TLS settings. `server` is
-- `quinn::Endpoint::server`, with the port that it got.
unfoldable pub bind_host_endpoint :
    Result String (Unit {0}) → (SocketAddr → Result String ℕ) → Result String ℕ
bind_host_endpoint (err e) server = err e
bind_host_endpoint (ok _) server =
    elim (or_else
      (or_else
        (or_else (server (unspecified_v6 quic_default_port))
          (server (unspecified_v4 quic_default_port)))
        (server (unspecified_v6 0)))
      (server (unspecified_v4 0))) [ ok port ↦ ok port | err e ↦ err "QUIC endpoint bind 失敗" ]

-- A call under `tokio::time::timeout`.
pub data Timed (A : Type 0) : Type 0 where
  late : Timed A
  refused : String → Timed A
  answered : A → Timed A

-- The router, as igd finds it: its outer address, and its answer to
-- `add_port(UDP, external_port, local_addr, …)`.
pub record Gateway : Type 0 where
  pub external_ip : Timed IpAddr
  pub add_port : ℕ → SocketAddr → Timed (Unit {0})

abbrev pub map_port : Gateway → ℕ → IpAddr → Result StrategyFailReason SocketAddr
map_port gateway local_port external_ip =
    elim (gateway.add_port upnp_external_port (unspecified_v4 local_port)) [
      | late ↦ err (upnp_mapping_failed "port mapping 逾時")
      | refused e ↦ err (upnp_mapping_failed e)
      | answered _ ↦ ok (record { ip = external_ip; port = upnp_external_port })
    ]

-- From the check for a carrier's NAT on.
unfoldable pub map_checked :
    Gateway → ℕ → IpAddr → Option IpAddr → Result StrategyFailReason SocketAddr
map_checked gateway local_port external_ip none = map_port gateway local_port external_ip
map_checked gateway local_port external_ip (some stun) =
    if not (external_ip == stun)
    then err cgnat_detected
    else map_port gateway local_port external_ip

-- `attempt_upnp_mapping`, `none` where the search finds no gateway.
unfoldable pub attempt_upnp_mapping :
    Option Gateway → ℕ → Option IpAddr → Result StrategyFailReason SocketAddr
unfolding map_checked
attempt_upnp_mapping none local_port stun_ip = err upnp_gateway_not_found
attempt_upnp_mapping (some gateway) local_port stun_ip = elim gateway.external_ip [
  | late ↦ err (upnp_mapping_failed "取得外部 IP 逾時")
  | refused e ↦ err (upnp_mapping_failed (cat "取得外部 IP: " e))
  | answered external_ip ↦ map_checked gateway local_port external_ip stun_ip
]
