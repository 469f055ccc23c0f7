-- ===== src/Server/Tests/Tunnels.antt =====
-- Tokens, tunnels and counted connections.
use war3_battle_tool.Prelude.{
  ℕ, ◌+◌, ◌-◌, ◌≡◌, ◌≤◌, refl, false, none, List, [], ◌∷◌, ◌++◌, string_eq, ltb, if◌then◌else◌, not,
  arith,
}
use war3_battle_tool.HashMap.{get, insert, remove}
use war3_battle_tool.HashMap.Unique.{keep_if, holds}
use war3_battle_tool.Protocol.AddrSafety.{IpAddr, v4, ip_eq}
use war3_battle_tool.Server.Time.{elapsed}
use war3_battle_tool.Server.Tunnel.{
  TunnelState, new, register_token, cleanup_expired, is_stale, upnp_pending_ttl,
}
use war3_battle_tool.Server.Tunnel.Cleanup.{cleanup_expired_lem}
use war3_battle_tool.Server.Tunnel.Pairing.{arrive, pairs, waits, closes}
use war3_battle_tool.Server.Tunnel.Pairing.Once.{arrive-arrive}
use war3_battle_tool.Server.Tunnel.Relay.Gap.{dropped_frame-gap}
use war3_battle_tool.Server.Tunnel.Relay.{
  Relay, Event, from_socket, frame, binary, idle, relay, new_relay,
}
use war3_battle_tool.Server.Tunnel.Relay.Bandwidth.{handed, relay-second}

abbrev home : IpAddr
home = v4 93 184 216 34

abbrev away : IpAddr
away = v4 93 184 216 35

abbrev bound : TunnelState
bound = register_token "t" home away "p1" 0 new

cleanup_expired_lem_example :
    (get "t" (cleanup_expired 40000000000 bound).waiting
      ≡ keep_if (λ w. not (is_stale 40000000000 w)) (get "t" bound.waiting))
    × (get "t" (cleanup_expired 40000000000 bound).token_bindings ≡ (
        if holds (is_stale 40000000000) (get "t" bound.waiting)
        then none
        else get "t" bound.token_bindings))
    × (get "t" (cleanup_expired 40000000000 bound).upnp_pending
        ≡ keep_if
            (λ p. ltb (elapsed 40000000000 p.created_at) upnp_pending_ttl)
            (get "t" bound.upnp_pending))
unfolding get register_token insert remove
cleanup_expired_lem_example = cleanup_expired_lem 40000000000 "t" bound tt (refl, tt)

arrive-arrive_example :
    ((arrive "t" "host" home 0 1 (register_token "t" home away "p1" 0 new)).1 ≡ waits)
    × ((arrive "t" "join" away 1 2
          (arrive "t" "host" home 0 1 (register_token "t" home away "p1" 0 new)).0).1
        ≡ pairs (record { tx = 0; role = "host"; created_at = 1 }))
    × (arrive "t" "host" home 2 3
          (arrive "t" "join" away 1 2
            (arrive "t" "host" home 0 1 (register_token "t" home away "p1" 0 new)).0).0
        ≡ (
          (arrive "t" "join" away 1 2
              (arrive "t" "host" home 0 1 (register_token "t" home away "p1" 0 new)).0).0,
          closes,
        ))
unfolding get
arrive-arrive_example = arrive-arrive "t" home away "p1" 0 new refl 0 1 1 2 "host" home 2 3

abbrev events : List (ℕ × Event)
events = (3, from_socket (frame (binary (1 ∷ 2 ∷ [])))) ∷ (4, idle) ∷ []

-- The second's bytes are used up.
abbrev full : Relay
full = record (new_relay 0 [] false) { bytes_this_second = 51200 }

dropped_frame-gap_example :
    (relay
      ((3, from_socket (frame (binary (1 ∷ []))))
        ∷ (1_000_000_000, from_socket (frame (binary (2 ∷ []))))
        ∷ [])
      full).peer_queue
    ≡ full.peer_queue ++ binary (2 ∷ []) ∷ []
dropped_frame-gap_example =
    dropped_frame-gap 3 1_000_000_000 (1 ∷ []) (2 ∷ []) full (omega arith) (omega arith)
      (omega arith) (omega arith) refl (omega arith)

relay-second_example :
    (handed events (new_relay 0 [] false)
      ≤ (51200 - (new_relay 0 [] false).bytes_this_second) + 51200)
    × ((relay events (new_relay 0 [] false)).total_bytes
        ≤ (new_relay 0 [] false).total_bytes
          + (51200 - (new_relay 0 [] false).bytes_this_second)
          + 51200)
relay-second_example =
    relay-second 3 events (new_relay 0 [] false)
      ((omega arith, omega arith), ((omega arith, omega arith), tt))
