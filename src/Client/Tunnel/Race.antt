-- ===== src/Client/Tunnel/Race.antt =====
-- The race of the two paths of `background_quic_joiner`, and the handshake of a swap
-- (crates/client/src/net/tunnel.rs).
use war3_battle_tool.Prelude.{
  ℕ, [], ◌∷◌, Option, none, some, Bool, true, false, ◌≡◌, refl, arith, ◌==◌, nat_eq, ◌&&◌, ap,
}
use war3_battle_tool.Protocol.AddrSafety.{IpAddr, SocketAddr}
use war3_battle_tool.Client.Quic.{StrategyKind, quic_direct, upnp, StrategyFailReason, failed}
use war3_battle_tool.Client.Tunnel.{
  Connect, Attempt, missed, Exchange, reads, swap_ready, swap_ack, do_joiner_swap_handshake,
  host_swap_handshake, settle, result, try_direct, try_upnp, background_quic_joiner,
}

-- How a path would end, were it left to run.
abbrev pub path : (SocketAddr → Connect) → IpAddr → Option SocketAddr → StrategyKind → Attempt
path connect ip upnp_addr quic_direct = try_direct connect ip
path connect ip upnp_addr upnp = try_upnp connect upnp_addr

-- With the address of the other side known, the path that ends first decides alone: if it failed, no
-- stream is handed to the bridge and only its failure is reported, even if the other path would have
-- connected.
failure_ends_race :
    (connect : SocketAddr → Connect) (ip : IpAddr) (upnp_addr : Option SocketAddr)
    (first : StrategyKind) {reason : StrategyFailReason} {dur : ℕ}
    → path connect ip upnp_addr first ≡ missed reason dur
    → background_quic_joiner connect (some ip) upnp_addr first
      ≡ record { swaps = false; results = result first (failed reason) dur ∷ [] }
unfolding background_quic_joiner settle
failure_ends_race connect ip upnp_addr quic_direct h = ap (settle quic_direct []) h
failure_ends_race connect ip upnp_addr upnp h = ap (settle upnp []) h

-- What the stream carries: the joiner writes the one byte of `SWAP_READY`, and reads a byte only if
-- the host has read that byte and answered.
pub record Wired (joiner host : Exchange) : Type 0 where
  pub heard : (b : ℕ) → host.read ≡ some b → b ≡ swap_ready
  pub answered :
      (b : ℕ) → joiner.read ≡ some b → (host.written ≡ true) × ((c : ℕ) × (host.read ≡ some c))

and_true : (a b : Bool) → (a && b) ≡ true → (a ≡ true) × (b ≡ true)
and_true a b h = ground arith

reads-some : (x : Exchange) (byte : ℕ) → reads x byte ≡ true → (b : ℕ) × (x.read ≡ some b)
reads-some x byte h = option_reads x.read byte h
  where
    option_reads :
        (o : Option ℕ) (byte : ℕ)
        → elim o as (λ _. Bool) [ none ↦ false | some b ↦ b == byte ] ≡ true
        → (b : ℕ) × (o ≡ some b)
    option_reads none byte h = cc
    option_reads (some b) byte h = (b, refl)

-- The joiner swaps only if the host does, unless the host's three seconds ran out.
pub handshakes_agree :
    (joiner host : Exchange)
    → Wired joiner host
    → do_joiner_swap_handshake joiner ≡ true
    → host.in_time ≡ true
    → host_swap_handshake host ≡ true
unfolding do_joiner_swap_handshake host_swap_handshake
handshakes_agree joiner host wired h in_time =
    let (_, rest) = and_true joiner.in_time (joiner.written && reads joiner swap_ack) h in
    let (_, read) = and_true joiner.written (reads joiner swap_ack) rest in
    let (b, e) = reads-some joiner swap_ack read in
    let (written, read_by_host) = wired.answered b e in
    let same = wired.heard read_by_host.0 read_by_host.1 in ground arith
