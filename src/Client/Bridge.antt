-- ===== src/Client/Bridge.antt =====
-- `bridge_tcp_ws_with_swap` of crates/client/src/net/tunnel.rs: the bytes of the game go over the
-- WebSocket relay until a QUIC stream is ready, and then over it. An iteration of one of its three
-- loops takes what `select!` chose, and how the writes that follow end.
pub mod Heard
pub mod Order
pub mod Pipe
pub mod Drain
use war3_battle_tool.Prelude.{
  ℕ, ◌+◌, ◌/◌, Bool, true, false, Option, none, some, List, [], ◌∷◌, ◌++◌, length, take, is_none,
  is_empty, if◌then◌else◌,
}
use war3_battle_tool.Server.Time.{Instant, elapsed}

abbrev pub Bytes : Type 0
Bytes = List ℕ

-- How a write ends: all of it is written, or some of it and then an error.
pub data Written : Type 0 where
  whole : Written
  broken : ℕ → Written

-- What `select!` may choose. A read of the game, of a frame or of the stream is followed by the write
-- to the other side.
pub data Input : Type 0 where
  tcp_read : Bytes → Written → Input
  tcp_eof : Input
  tcp_error : Input
  ws_binary : Bytes → Written → Input
  ws_close : Input
  ws_ping : Bytes → Input
  ws_pong : Input
  ws_other : Input
  ws_error : Input
  swap_ready : Input
  swap_closed : Input
  ping_tick : Input
  quic_read : Bytes → Written → Input
  quic_end : Input
  quic_error : Input
  drain_deadline : Input

-- The frames that are no data of the game.
pub data Control : Type 0 where
  close : Control
  ping : Control
  pong : Bytes → Control

-- The loop that runs: WebSocket relay, drain, QUIC; or the function has returned.
pub data Phase : Type 0 where
  relaying : Phase
  draining : Phase
  direct : Phase
  ended : Phase

pub record Bridge : Type 0 where
  -- what was written to the game, to the relay and to the stream
  pub tcp_written : Bytes
  pub ws_sent : Bytes
  pub quic_sent : Bytes
  pub controls : List Control
  pub quic_finished : Bool
  pub total_tcp_to_ws : ℕ
  pub total_ws_to_tcp : ℕ
  pub total_tcp_to_quic : ℕ
  pub total_quic_to_tcp : ℕ
  pub ping_sent_at : Option Instant
  pub latency_ms : ℕ
  pub quic_buffer : Bytes
  pub tcp_outbound_buffer : Bytes
  -- whether `TransportUpgraded` went to the app
  pub upgraded : Bool

abbrev pub new : ℕ → Bridge
new latency_ms = record {
  tcp_written = [];
  ws_sent = [];
  quic_sent = [];
  controls = [];
  quic_finished = false;
  total_tcp_to_ws = 0;
  total_ws_to_tcp = 0;
  total_tcp_to_quic = 0;
  total_quic_to_tcp = 0;
  ping_sent_at = none;
  latency_ms = latency_ms;
  quic_buffer = [];
  tcp_outbound_buffer = [];
  upgraded = false;
}

-- `tcp_write.write_all(d)`: an error ends the function.
unfoldable pub to_game : Phase → Bytes → Written → Bridge → Phase × Bridge
to_game next d whole b = (next, record b { tcp_written = b.tcp_written ++ d })
to_game next d (broken k) b = (ended, record b { tcp_written = b.tcp_written ++ take k d })

-- `ws_sender.send(Binary(d))`: a frame goes whole or not at all.
unfoldable pub to_ws : Bytes → Written → Bridge → Phase × Bridge
to_ws d whole b = (relaying, record b { ws_sent = b.ws_sent ++ d })
to_ws d (broken k) b = (ended, b)

-- `quic_send.write_all(d)`
unfoldable pub to_quic : Bytes → Written → Bridge → Phase × Bridge
to_quic d whole b = (direct, record b { quic_sent = b.quic_sent ++ d })
to_quic d (broken k) b = (ended, record b { quic_sent = b.quic_sent ++ take k d })

abbrev pub control : Control → Bridge → Bridge
control c b = record b { controls = b.controls ++ c ∷ [] }

-- A Pong after our Ping gives the round trip in milliseconds.
unfoldable pub on_pong : Instant → Bridge → Bridge
on_pong now b = elim b.ping_sent_at [
  | none ↦ b
  | some sent ↦ record b { ping_sent_at = none; latency_ms = elapsed now sent / 1_000_000 }
]

-- The previous Ping must have come back.
unfoldable pub on_ping_tick : Instant → Bridge → Bridge
on_ping_tick now b =
    if is_none b.ping_sent_at then control ping (record b { ping_sent_at = some now }) else b

-- Phase 1. What the loop does not wait for is left alone.
unfoldable pub relay_step : Instant → Input → Bridge → Phase × Bridge
unfolding to_game to_ws on_pong on_ping_tick
relay_step now (tcp_read d w) b =
    to_ws d w (record b { total_tcp_to_ws = b.total_tcp_to_ws + length d })
relay_step now tcp_eof b = (ended, control close b)
relay_step now tcp_error b = (ended, b)
relay_step now (ws_binary d w) b =
    to_game relaying d w (record b { total_ws_to_tcp = b.total_ws_to_tcp + length d })
relay_step now ws_close b = (ended, b)
relay_step now (ws_ping d) b = (relaying, control (pong d) b)
relay_step now ws_pong b = (relaying, on_pong now b)
relay_step now ws_other b = (relaying, b)
relay_step now ws_error b = (ended, b)
relay_step now swap_ready b = (draining, b)
relay_step now swap_closed b = (relaying, b)
relay_step now ping_tick b = (relaying, on_ping_tick now b)
relay_step now _ b = (relaying, b)

-- How the two writes after the drain end.
pub record Flush : Type 0 where
  pub game : Written
  pub stream : Written

-- `if !tcp_outbound_buffer.is_empty()`, and the event to the app.
unfoldable pub flush_outbound : Written → Bridge → Phase × Bridge
unfolding to_quic
flush_outbound w b =
    if is_empty b.tcp_outbound_buffer
    then (direct, record b { upgraded = true })
    else let (p, b') = to_quic b.tcp_outbound_buffer w b in
      elim p [ ended ↦ (ended, b') | _ ↦ (direct, record b' { upgraded = true }) ]

-- `if !quic_buffer.is_empty()`, first.
unfoldable pub flush : Flush → Bridge → Phase × Bridge
unfolding to_game flush_outbound
flush f b =
    if is_empty b.quic_buffer
    then flush_outbound f.stream b
    else let (p, b') = to_game direct b.quic_buffer f.game b in
      elim p [ ended ↦ (ended, b') | _ ↦ flush_outbound f.stream b' ]

-- Phase 2: any frame but data ends the drain.
unfoldable pub drain_step : Flush → Input → Bridge → Phase × Bridge
unfolding to_game flush
drain_step f (ws_binary d w) b = to_game draining d w b
drain_step f (quic_read d w) b = (draining, record b { quic_buffer = b.quic_buffer ++ d })
drain_step f quic_end b = (ended, b)
drain_step f quic_error b = (ended, b)
drain_step f (tcp_read d w) b =
    (draining, record b { tcp_outbound_buffer = b.tcp_outbound_buffer ++ d })
drain_step f swap_ready b = (draining, b)
drain_step f swap_closed b = (draining, b)
drain_step f ping_tick b = (draining, b)
drain_step f _ b = flush f b

-- Phase 3.
unfoldable pub direct_step : Input → Bridge → Phase × Bridge
unfolding to_game to_quic
direct_step (tcp_read d w) b =
    to_quic d w (record b { total_tcp_to_quic = b.total_tcp_to_quic + length d })
direct_step tcp_eof b = (ended, record b { quic_finished = true })
direct_step tcp_error b = (ended, b)
direct_step (quic_read d w) b =
    to_game direct d w (record b { total_quic_to_tcp = b.total_quic_to_tcp + length d })
direct_step quic_end b = (ended, b)
direct_step quic_error b = (ended, b)
direct_step _ b = (direct, b)

unfoldable pub step : Instant → Flush → Input → Phase → Bridge → Phase × Bridge
unfolding relay_step drain_step direct_step
step now f i relaying b = relay_step now i b
step now f i draining b = drain_step f i b
step now f i direct b = direct_step i b
step now f i ended b = (ended, b)
