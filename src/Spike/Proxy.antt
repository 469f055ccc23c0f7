-- ===== src/Spike/Proxy.antt =====
-- `run_udp_proxy` of crates/spike-raw-udp/src/main.rs. What the
-- socket receives is an argument.
use war3_battle_tool.Prelude.{
  ℕ, List, [], ◌∷◌, ◌≡◌, refl, not, ◌==◌, if◌then◌else◌, by_if, All, arith,
}
use war3_battle_tool.Protocol.AddrSafety.{IpAddr, SocketAddr, ip_eq, ip_beq_iff}
use war3_battle_tool.Protocol.War3.{war3_port}

-- How `recv_from` ends; what is received is at most the 4096 bytes of the buffer.
pub data Received : Type 0 where
  datagram : List ℕ → SocketAddr → Received
  timed_out : Received
  failed : Received

-- `host` stands for `IpAddr::V4(host)`: where a datagram from `src` is sent on to.
unfoldable pub forward_to : IpAddr → SocketAddr → SocketAddr
forward_to host src = if not (src.ip == host) then record { ip = host; port = war3_port } else src

-- The loop: a timeout goes on, any other error ends it. How the sends end is ignored.
unfoldable pub run_udp_proxy : IpAddr → List Received → List (List ℕ × SocketAddr)
unfolding forward_to
run_udp_proxy host [] = []
run_udp_proxy host (datagram bytes src ∷ events) =
    (bytes, forward_to host src) ∷ run_udp_proxy host events
run_udp_proxy host (timed_out ∷ events) = run_udp_proxy host events
run_udp_proxy host (failed ∷ events) = []

forward_to-host : (host : IpAddr) (src : SocketAddr) → (forward_to host src).ip ≡ host
unfolding forward_to
forward_to-host host src =
    by_if (λ (to : SocketAddr). to.ip ≡ host) (not (src.ip == host)) _ src (λ _. refl)
      (λ same. (ip_beq_iff src.ip host).0 (ground arith))

-- Whatever the proxy receives, all that it sends goes to the address of the host: what the host answers
-- is sent back to it, and the local game gets nothing.
udp_proxy-host :
    (host : IpAddr) (events : List Received)
    → All (λ sent. sent.1.ip ≡ host) (run_udp_proxy host events)
unfolding run_udp_proxy
udp_proxy-host host [] = tt
udp_proxy-host host (datagram bytes src ∷ events) =
    (forward_to-host host src, udp_proxy-host host events)
udp_proxy-host host (timed_out ∷ events) = udp_proxy-host host events
udp_proxy-host host (failed ∷ events) = tt
