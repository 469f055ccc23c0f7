-- ===== src/Client/Discovery.antt =====
-- crates/client/src/net/discovery.rs: the network task, which keeps a WebSocket to the lobby server.
-- How each connection attempt and each iteration of a session ends is a parameter, and so are the
-- texts that serde makes and reads.
pub mod Backoff
use war3_battle_tool.Prelude.{
  ℕ, ◌+◌, ◌*◌, ◌-◌, String, List, [], ◌∷◌, ◌++◌, Option, none, some, Bool, true, false, min,
  if◌then◌else◌,
}
use war3_battle_tool.Protocol.Messages.{
  ClientMessage, heartbeat, ping, ServerMessage, pong, welcome, player_update, room_update,
  join_result, player_joined, tunnel_ready, stun_info, peer_upnp_addr, your_observed_addr, error,
  unknown,
}
use war3_battle_tool.Server.Time.{from_secs}

abbrev pub initial_reconnect_delay : ℕ
initial_reconnect_delay = from_secs 1

abbrev pub max_reconnect_delay : ℕ
max_reconnect_delay = from_secs 30

pub data NetEvent : Type 0 where
  connected : NetEvent
  disconnected : NetEvent
  -- attempt
  reconnecting : ℕ → NetEvent
  server_message : ServerMessage → NetEvent

-- What `select!` takes, with how the write to the socket ends where there is one.
pub data Input : Type 0 where
  command : Option ClientMessage → Bool → Input
  -- the message that serde reads from a text, or none
  text : Option ServerMessage → Input
  close : Input
  ws_error : Input
  other_frame : Input
  heartbeat_tick : Bool → Input
  ping_tick : Bool → Input

pub record Session : Type 0 where
  pub sent : List ClientMessage
  pub events : List NetEvent
  pub latency_ms : ℕ

-- The end of a session: whether to connect again.
pub data Outcome : Type 0 where
  on : Session → Outcome
  returned : Bool → Session → Outcome

-- `ws_tx.send`, which ends the session when it fails.
abbrev pub write : ClientMessage → Bool → Session → Outcome
write msg delivered s =
    if delivered then on (record s { sent = s.sent ++ msg ∷ [] }) else returned true s

abbrev pub forward : ServerMessage → Session → Session
forward msg s = record s { events = s.events ++ server_message msg ∷ [] }

-- An iteration of `handle_session` at the wall-clock time `now_ms`.
unfoldable pub session_step : ℕ → Input → Session → Outcome
session_step now_ms (command none delivered) s = returned false s
session_step now_ms (command (some msg) delivered) s = write msg delivered s
session_step now_ms (text none) s = on s
session_step now_ms (text (some (pong ts))) s = on (record s { latency_ms = now_ms - ts })
session_step now_ms (text (some msg)) s = on (forward msg s)
session_step now_ms close s = returned true s
session_step now_ms ws_error s = returned true s
session_step now_ms other_frame s = on s
session_step now_ms (heartbeat_tick delivered) s = write heartbeat delivered s
session_step now_ms (ping_tick delivered) s = write (ping now_ms) delivered s

-- `handle_session` over the iterations that happen; one that is cut off is still going on.
unfoldable pub handle_session : List (ℕ × Input) → Session → Outcome
unfolding session_step
handle_session [] s = on s
handle_session ((now_ms, input) ∷ inputs) s = elim (session_step now_ms input s) [
  | on s' ↦ handle_session inputs s'
  | returned again s' ↦ returned again s'
]

-- The loop's variables, with the events and the waits so far; `over` when no iteration follows, since
-- the loop has returned or its session still goes on.
pub record Connection : Type 0 where
  pub reconnect_delay : ℕ
  pub attempt : ℕ
  pub latency_ms : ℕ
  pub emitted : List NetEvent
  pub waits : List ℕ
  pub over : Bool

abbrev pub new : Connection
new = record {
  reconnect_delay = initial_reconnect_delay;
  attempt = 0;
  latency_ms = 0;
  emitted = [];
  waits = [];
  over = false;
}

abbrev pub new_session : ℕ → Session
new_session latency_ms = record { sent = []; events = []; latency_ms = latency_ms }

-- The end of an iteration.
unfoldable pub back_off : Connection → Connection
back_off c = record c {
  emitted = c.emitted ++ reconnecting c.attempt ∷ [];
  waits = c.waits ++ c.reconnect_delay ∷ [];
  reconnect_delay = min (c.reconnect_delay * 2) max_reconnect_delay;
}

-- How an attempt to connect ends, with the iterations of the session that follows.
pub data Attempt : Type 0 where
  refused : Attempt
  accepted : List (ℕ × Input) → Attempt

-- An accepted attempt, once its session is as given.
unfoldable pub after_session : Outcome → Connection → Connection
unfolding back_off
after_session (on s) c = record c {
  latency_ms = s.latency_ms;
  emitted = c.emitted ++ connected ∷ s.events;
  over = true;
}
after_session (returned again s) c =
    let c' : Connection = record c {
      latency_ms = s.latency_ms;
      emitted = c.emitted ++ (connected ∷ (s.events ++ disconnected ∷ []));
    } in
    if again then back_off c' else record c' { over = true }

-- An iteration of `run_connection`.
unfoldable pub connection_step : Attempt → Connection → Connection
unfolding back_off after_session handle_session
connection_step refused c = back_off (record c { attempt = c.attempt + 1 })
connection_step (accepted inputs) c =
    after_session (handle_session inputs (new_session c.latency_ms))
      (record c { reconnect_delay = initial_reconnect_delay; attempt = 0 })

unfoldable pub run_connection : List Attempt → Connection → Connection
unfolding connection_step
run_connection [] c = c
run_connection (a ∷ attempts) c =
    let next = run_connection attempts (connection_step a c) in if c.over then c else next
