-- ===== src/Server/Tunnel/Pairing.antt =====
-- `handle_tunnel` of crates/server/src/tunnel.rs up to the relay: an end of a tunnel arrives, is
-- refused, waits or finds its peer; and how the wait ends.
pub mod Once
use war3_battle_tool.Prelude.{
  ℕ, String, Bool, true, false, Option, none, some, not, string_eq, if◌then◌else◌,
}
use war3_battle_tool.HashMap.{get, insert, remove}
use war3_battle_tool.Protocol.AddrSafety.{IpAddr}
use war3_battle_tool.Server.Channel.{Sender}
use war3_battle_tool.Server.Time.{Instant}
use war3_battle_tool.Server.Tunnel.{TunnelState, WaitingPeer, TokenBinding, verify_ip}

-- What an end meets: a Close frame, a wait for the other end, or the end that waits, whose relay
-- channel it gets. Whether that end still listens to `notify` is not asked here.
pub data Arrival : Type 0 where
  closes : Arrival
  waits : Arrival
  pairs : WaitingPeer → Arrival

-- The binding of the token, where there is one for the role and the address.
unfoldable pub is_admitted : String → String → IpAddr → TunnelState → Bool
unfolding verify_ip
is_admitted token role client_ip s = elim (get token s.token_bindings) [
  | none ↦ false
  | some binding ↦ verify_ip binding role client_ip
]

-- `waiting.remove(&token)`: the end that waits, or this end waits from now on.
unfoldable pub meet : String → String → Sender → Instant → TunnelState → TunnelState × Arrival
meet token role tx now s = elim (get token s.waiting) [
  | some peer ↦ (
    record s { waiting = remove token s.waiting; token_bindings = remove token s.token_bindings },
    pairs peer,
  )
  | none ↦ (
    record s {
      waiting = insert token (record { tx = tx; role = role; created_at = now }) s.waiting;
    },
    waits,
  )
]

unfoldable pub arrive :
    String → String → IpAddr → Sender → Instant → TunnelState → TunnelState × Arrival
unfolding is_admitted meet
arrive token role client_ip tx now s =
    if is_admitted token role client_ip s then meet token role tx now s else (s, closes)

-- Nobody came within the pairing timeout.
unfoldable pub give_up : String → TunnelState → TunnelState
give_up token s = record s { waiting = remove token s.waiting }
