-- ===== src/Server/Tunnel/Relay.antt =====
-- The `relay` loop of crates/server/src/tunnel.rs: one end of a tunnel. An iteration takes the event
-- that `select!` chose and the time; the sends whose result the loop reads come with the event.
pub mod Bandwidth
pub mod Gap
pub mod Sequence
use war3_battle_tool.Prelude.{
  ℕ, ◌+◌, ◌*◌, Bool, true, false, Option, none, some, List, [], ◌∷◌, ◌++◌, length, drop, leb, ltb,
  not, ◌||◌, if◌then◌else◌,
}
use war3_battle_tool.Server.Time.{Instant, elapsed, from_secs}

abbrev pub relay_channel_size : ℕ
relay_channel_size = 64

abbrev pub rate_limit_bytes_per_sec : ℕ
rate_limit_bytes_per_sec = 50 * 1024

abbrev pub tunnel_idle_timeout : ℕ
tunnel_idle_timeout = from_secs 300

-- `axum::extract::ws::Message`
pub data Message : Type 0 where
  text : List ℕ → Message
  binary : List ℕ → Message
  ping_frame : List ℕ → Message
  pong_frame : List ℕ → Message
  close_frame : Message

-- What `ws_receiver.next()` gives.
pub data Received : Type 0 where
  frame : Message → Received
  failed : Received
  ended : Received

pub data Event : Type 0 where
  -- a message of the peer, and whether the send to the socket succeeded
  from_peer : Message → Bool → Event
  peer_closed : Event
  from_socket : Received → Event
  idle : Event
  -- the task of the peer takes a message from its channel, or ends
  peer_takes : Event
  peer_leaves : Event

pub record Relay : Type 0 where
  pub bytes_this_second : ℕ
  pub rate_window_start : Instant
  pub total_bytes : ℕ
  pub idle_deadline : Instant
  -- the peer's channel: what waits in it, and whether its receiver is gone
  pub peer_queue : List Message
  pub peer_gone : Bool
  -- what went to this end's socket
  pub sent : List Message

abbrev pub new_relay : Instant → List Message → Bool → Relay
new_relay now peer_queue peer_gone = record {
  bytes_this_second = 0;
  rate_window_start = now;
  total_bytes = 0;
  idle_deadline = now + tunnel_idle_timeout;
  peer_queue = peer_queue;
  peer_gone = peer_gone;
  sent = [];
}

-- `ws_sender.send(m)`
abbrev pub to_socket : Message → Relay → Relay
to_socket m r = record r { sent = r.sent ++ m ∷ [] }

-- `peer_tx.try_send(m)`: what does not fit is dropped.
unfoldable pub to_peer : Message → Relay → Relay
to_peer m r =
    if r.peer_gone || leb relay_channel_size (length r.peer_queue)
    then r
    else record r { peer_queue = r.peer_queue ++ m ∷ [] }

-- The window of the limit begins anew once it is a second old.
unfoldable pub reset_window : Instant → Relay → Relay
reset_window now r =
    if leb (from_secs 1) (elapsed now r.rate_window_start)
    then record r { bytes_this_second = 0; rate_window_start = now }
    else r

unfoldable pub on_binary : Instant → List ℕ → Relay → Relay
unfolding reset_window to_peer
on_binary now bytes r =
    let r1 = reset_window now r in
    let r2 : Relay = record r1 { bytes_this_second = r1.bytes_this_second + length bytes } in
    if ltb rate_limit_bytes_per_sec r2.bytes_this_second
    then r2
    else to_peer (binary bytes) (record r2 {
      total_bytes = r2.total_bytes + length bytes;
      idle_deadline = now + tunnel_idle_timeout;
    })

-- One iteration, or one change of the peer, and whether the loop goes on.
unfoldable pub iterate : Instant → Event → Relay → Relay × Bool
unfolding on_binary
iterate now (from_peer m true) r =
    (record (to_socket m r) { idle_deadline = now + tunnel_idle_timeout }, true)
iterate now (from_peer m false) r = (r, false)
iterate now peer_closed r = (to_socket close_frame r, false)
iterate now (from_socket (frame (binary bytes))) r = (on_binary now bytes r, true)
iterate now (from_socket (frame close_frame)) r = (r, false)
iterate now (from_socket (frame (ping_frame bytes))) r = (to_socket (pong_frame bytes) r, true)
iterate now (from_socket (frame (text t))) r = (r, true)
iterate now (from_socket (frame (pong_frame b))) r = (r, true)
iterate now (from_socket failed) r = (r, false)
iterate now (from_socket ended) r = (r, false)
iterate now idle r = (to_socket close_frame r, false)
iterate now peer_takes r = (record r { peer_queue = drop 1 r.peer_queue }, true)
iterate now peer_leaves r = (record r { peer_gone = true }, true)

-- The loop over the events that come, each with its time.
unfoldable pub relay : List (Instant × Event) → Relay → Relay
unfolding iterate
relay [] r = r
relay ((now, e) ∷ events) r =
    let (r', goes_on) = iterate now e r in
    let rest = relay events r' in if goes_on then rest else r'
