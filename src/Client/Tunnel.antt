-- ===== src/Client/Tunnel.antt =====
-- crates/client/src/net/tunnel.rs but the bridge: a tunnel of a joiner and of a host, and the QUIC
-- connections that they try meanwhile. How each socket call ends is a parameter.
pub mod Race
pub mod Runs
use Prim.Native.String.{◌++◌ as cat}
use war3_battle_tool.Prelude.{
  ℕ, zero, suc, String, List, [], ◌∷◌, ◌++◌, Option, none, some, Result, ok, err, Bool, true, false,
  ◌==◌, ◌&&◌, nat_eq, if◌then◌else◌,
}
use war3_battle_tool.Protocol.AddrSafety.{IpAddr, SocketAddr}
use war3_battle_tool.Client.Bridge.{Bridge}
use war3_battle_tool.Client.Quic.{
  StrategyKind, quic_direct, upnp, StrategyFailReason, no_stun_info, bind_failed, handshake_failed,
  upnp_not_attempted, StrategyOutcome, success, failed, skipped, StrategyResult, quic_default_port,
}

pub data Transport : Type 0 where
  relay direct : Transport

pub data TunnelEvent : Type 0 where
  proxy_ready : TunnelEvent
  transport_selected : Transport → TunnelEvent
  transport_upgraded : TunnelEvent
  -- error
  finished : Option String → TunnelEvent
  -- room_name, map_name, max_players, gameinfo
  gameinfo_captured : String → String → ℕ → List ℕ → TunnelEvent
  strategy_results : List StrategyResult → TunnelEvent

abbrev pub swap_ready : ℕ
swap_ready = 1

abbrev pub swap_ack : ℕ
swap_ack = 2

-- The exchange of one byte each way: whether the write ends well, the byte read, and whether both
-- are done within three seconds.
pub record Exchange : Type 0 where
  pub written : Bool
  pub read : Option ℕ
  pub in_time : Bool

abbrev pub reads : Exchange → ℕ → Bool
reads x byte = elim x.read [ none ↦ false | some b ↦ b == byte ]

unfoldable pub do_joiner_swap_handshake : Exchange → Bool
do_joiner_swap_handshake x = x.in_time && (x.written && reads x swap_ack)

-- The host reads first.
unfoldable pub host_swap_handshake : Exchange → Bool
host_swap_handshake x = x.in_time && (reads x swap_ready && x.written)

-- How `connect_direct` or `accept_on_endpoint` ends, and after how many milliseconds; then how the
-- handshake would go.
pub data Connect : Type 0 where
  connected : ℕ → Exchange → Connect
  refused : String → ℕ → Connect

pub data Attempt : Type 0 where
  reached : ℕ → Exchange → Attempt
  missed : StrategyFailReason → ℕ → Attempt

-- What a background task leaves behind: whether it hands a stream to the bridge, and the results it
-- sends to the app at its end.
pub record Background : Type 0 where
  pub swaps : Bool
  pub results : List StrategyResult

module _ (connect_direct : SocketAddr → Connect) where
  unfoldable pub try_direct : IpAddr → Attempt
  try_direct ip = elim (connect_direct (record { ip = ip; port = quic_default_port })) [
    | connected dur x ↦ reached dur x
    | refused e dur ↦ missed (handshake_failed e) dur
  ]

  -- `none` where the sender of the address is dropped.
  unfoldable pub try_upnp : Option SocketAddr → Attempt
  try_upnp none = missed upnp_not_attempted 0
  try_upnp (some addr) = elim (connect_direct addr) [
    | connected dur x ↦ reached dur x
    | refused e dur ↦ missed (handshake_failed (cat "UPnP path: " e)) dur
  ]

abbrev pub result : StrategyKind → StrategyOutcome → ℕ → StrategyResult
result method outcome duration_ms = record {
  method = method;
  outcome = outcome;
  duration_ms = duration_ms;
}

-- What follows the end of a path, after the results so far.
unfoldable pub settle : StrategyKind → List StrategyResult → Attempt → Background
unfolding do_joiner_swap_handshake
settle kind results (reached dur x) = record {
  swaps = do_joiner_swap_handshake x;
  results = results ++ result kind success dur ∷ [];
}
settle kind results (missed reason dur) = record {
  swaps = false;
  results = results ++ result kind (failed reason) dur ∷ [];
}

-- `background_quic_joiner`: with an address of the other side, `select!` takes the path `first` that
-- ends first and drops the other one.
unfoldable pub background_quic_joiner :
    (SocketAddr → Connect) → Option IpAddr → Option SocketAddr → StrategyKind → Background
unfolding settle try_direct try_upnp
background_quic_joiner connect none upnp_addr first =
    settle upnp (result quic_direct (failed no_stun_info) 0 ∷ []) (try_upnp connect upnp_addr)
background_quic_joiner connect (some ip) upnp_addr quic_direct =
    settle quic_direct [] (try_direct connect ip)
background_quic_joiner connect (some ip) upnp_addr upnp =
    settle upnp [] (try_upnp connect upnp_addr)

-- How `attempt_upnp_mapping` ends, and whether it has before the host looks for its result.
pub record Mapping : Type 0 where
  pub outcome : Result StrategyFailReason SocketAddr
  pub in_time : Bool

abbrev pub recovered : Mapping → List StrategyResult
recovered m = elim m.outcome [
  | ok addr ↦ if m.in_time then result upnp success 0 ∷ [] else []
  | err reason ↦ []
]

-- `background_quic_host`, with what it tells the app of a mapping.
unfoldable pub background_quic_host :
    String → Result String ℕ → (ℕ → Mapping) → Connect → Background × List (String × SocketAddr)
unfolding host_swap_handshake
background_quic_host tunnel_token (err e) map_port accepted = (
  record {
    swaps = false;
    results = result quic_direct (failed (bind_failed e)) 0 ∷ result upnp skipped 0 ∷ [];
  },
  [],
)
background_quic_host tunnel_token (ok local_port) map_port accepted =
    let m = map_port local_port in
    let mapped : List (String × SocketAddr) = elim m.outcome [
      | ok addr ↦ (tunnel_token, addr) ∷ []
      | err reason ↦ []
    ] in
    elim accepted [
      | connected dur x ↦ (
        record {
          swaps = host_swap_handshake x;
          results = result quic_direct success dur ∷ recovered m;
        },
        mapped,
      )
      | refused e dur ↦ (
        record {
          swaps = false;
          results = result quic_direct (failed (handshake_failed e)) dur ∷ recovered m;
        },
        mapped,
      )
    ]

-- How the steps of a tunnel end: the listener, the WebSocket, the game's connection, and the bridge
-- as it returns, or `set_nodelay` with an error. The background task sends on the same channel: how many
-- of the events from its spawn on come before its own, if it gets so far.
pub record Ends : Type 0 where
  pub listener : Result String (Unit {0})
  pub web_socket : Result String (Unit {0})
  pub game : Bool
  pub bridge : Result String Bridge
  pub told_after : Option ℕ

-- The events of the bridge and of the end.
unfoldable pub bridge_events : Result String Bridge → List TunnelEvent
bridge_events (err e) = finished (some e) ∷ []
bridge_events (ok b) =
    if b.upgraded then transport_upgraded ∷ finished none ∷ [] else finished none ∷ []

-- An event of another task among those of a task.
unfoldable pub place : Option ℕ → TunnelEvent → List TunnelEvent → List TunnelEvent
place none e events = events
place (some zero) e events = e ∷ events
place (some (suc n)) e [] = e ∷ []
place (some (suc n)) e (x ∷ events) = x ∷ place (some n) e events

-- The bridge, with the background task beside it.
unfoldable pub beside : Background → Ends → List TunnelEvent
unfolding bridge_events place
beside background ends =
    place ends.told_after (strategy_results background.results) (bridge_events ends.bridge)

-- The events of a run that nobody aborts, and of its background task.
unfoldable pub run_host_tunnel :
    String → Result String ℕ → (ℕ → Mapping) → Connect → Ends → List TunnelEvent
unfolding beside background_quic_host
run_host_tunnel tunnel_token bound map_port accepted ends =
    transport_selected relay ∷ elim ends.web_socket [
      | err e ↦ finished (some (cat "Tunnel 連線失敗: " e)) ∷ []
      | ok _ ↦
          if ends.game
          then beside (background_quic_host tunnel_token bound map_port accepted).0 ends
          else finished (some "無法連接 War3") ∷ []
    ]

unfoldable pub run_joiner_tunnel :
    (SocketAddr → Connect)
    → Option IpAddr
    → Option SocketAddr
    → StrategyKind
    → Ends
    → List TunnelEvent
unfolding beside background_quic_joiner
run_joiner_tunnel connect peer_addr upnp_addr first ends = elim ends.listener [
  | err e ↦ finished (some (cat "無法綁定 127.0.0.2:6112: " e)) ∷ []
  | ok _ ↦ proxy_ready ∷ transport_selected relay ∷ elim ends.web_socket [
    | err e ↦ finished (some (cat "Tunnel 連線失敗: " e)) ∷ []
    | ok _ ↦
        if ends.game
        then beside (background_quic_joiner connect peer_addr upnp_addr first) ends
        else finished (some "TCP accept 失敗") ∷ []
  ]
]
