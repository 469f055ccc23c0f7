-- ===== src/Client/Bridge/Heard.antt =====
-- `bridge_tcp_ws_with_swap` of crates/client/src/net/tunnel.rs: what the bridge has read from each
-- side, and what it means that it passes all of it on in order.
use mathlib.Core.List.{append_assoc, append-nil}
use war3_battle_tool.Prelude.{
  ℕ, List, [], ◌∷◌, ◌++◌, ◌≡◌, refl, ap, arith, take, drop, sym, ◌∙◌, zero, suc,
}
use war3_battle_tool.Server.Time.{Instant}
use war3_battle_tool.Client.Bridge.{
  Bytes, Input, tcp_read, ws_binary, quic_read, Phase, relaying, draining, on_pong, on_ping_tick,
  direct, ended, Bridge, new, Flush, step,
}

-- An iteration: the time, what `select!` chose, and how the writes after a drain end.
pub record Event : Type 0 where
  pub now : Instant
  pub input : Input
  pub flushed : Flush

-- What an iteration reads from the game, from the relay and from the stream: the first two loops
-- read frames, the last two read the stream.
unfoldable pub tcp_heard : Phase → Input → Bytes
tcp_heard ended i = []
tcp_heard p (tcp_read d w) = d
tcp_heard p _ = []

unfoldable pub ws_heard : Phase → Input → Bytes
ws_heard relaying (ws_binary d w) = d
ws_heard draining (ws_binary d w) = d
ws_heard _ _ = []

unfoldable pub quic_heard : Phase → Input → Bytes
quic_heard draining (quic_read d w) = d
quic_heard direct (quic_read d w) = d
quic_heard _ _ = []

-- A bridge with all that it has read.
pub record Observed : Type 0 where
  pub phase : Phase
  pub bridge : Bridge
  pub from_game : Bytes
  pub from_relay : Bytes
  pub from_stream : Bytes

abbrev pub start : ℕ → Observed
start latency_ms = record {
  phase = relaying;
  bridge = new latency_ms;
  from_game = [];
  from_relay = [];
  from_stream = [];
}

abbrev pub hear : Phase × Bridge → Event → Observed → Observed
hear (p, b) e o = record {
  phase = p;
  bridge = b;
  from_game = o.from_game ++ tcp_heard o.phase e.input;
  from_relay = o.from_relay ++ ws_heard o.phase e.input;
  from_stream = o.from_stream ++ quic_heard o.phase e.input;
}

unfoldable pub observe : Event → Observed → Observed
unfolding step tcp_heard ws_heard quic_heard
observe e o = hear (step e.now e.flushed e.input o.phase o.bridge) e o

unfoldable pub run : List Event → Observed → Observed
run [] o = o
run (e ∷ es) o = run es (observe e o)

pub record IsPrefix (xs ys : Bytes) : Type 0 where
  pub rest : Bytes
  pub whole_eq : xs ++ rest ≡ ys

-- Per phase: all is passed on in the order of reading, what is held back excepted; a function that
-- has returned may have cut its last write short.
abbrev pub InOrderIn : Phase → Bridge → Bytes → Bytes → Bytes → Type 0
InOrderIn relaying b game relay stream =
    (b.tcp_written ≡ relay)
    × (b.ws_sent ≡ game)
    × (stream ≡ [])
    × (b.quic_sent ≡ [])
    × (b.quic_buffer ≡ [])
    × (b.tcp_outbound_buffer ≡ [])
InOrderIn draining b game relay stream =
    (b.tcp_written ≡ relay)
    × (b.quic_buffer ≡ stream)
    × (b.ws_sent ++ b.tcp_outbound_buffer ≡ game)
    × (b.quic_sent ≡ [])
InOrderIn direct b game relay stream =
    (b.tcp_written ≡ relay ++ stream) × (b.ws_sent ++ b.quic_sent ≡ game)
InOrderIn ended b game relay stream =
    IsPrefix b.tcp_written (relay ++ stream) × IsPrefix (b.ws_sent ++ b.quic_sent) game

abbrev pub InOrder : Observed → Type 0
InOrder o = InOrderIn o.phase o.bridge o.from_game o.from_relay o.from_stream

pub start-InOrder : (latency_ms : ℕ) → InOrder (start latency_ms)
start-InOrder latency_ms = (refl, refl, refl, refl, refl, refl)

pub take-append-drop : (k : ℕ) (xs : Bytes) → take k xs ++ drop k xs ≡ xs
take-append-drop zero xs = refl
take-append-drop (suc k) [] = refl
take-append-drop (suc k) (x ∷ xs) = ap (◌∷◌ x) (take-append-drop k xs)

pub eq-IsPrefix : {xs ys : Bytes} → xs ≡ ys → IsPrefix xs ys
eq-IsPrefix {xs} e = record { rest = []; whole_eq = append-nil xs ∙ e }

-- A prefix of a text is one of what continues it.
pub IsPrefix-append : {xs ys : Bytes} → IsPrefix xs ys → (zs : Bytes) → IsPrefix xs (ys ++ zs)
IsPrefix-append {xs} p zs = record {
  rest = p.rest ++ zs;
  whole_eq = sym (append_assoc xs p.rest zs) ∙ ap (λ t. t ++ zs) p.whole_eq;
}

-- A write that breaks off leaves a prefix.
pub append-take-IsPrefix :
    {xs ys : Bytes} → xs ≡ ys → (k : ℕ) (d : Bytes) → IsPrefix (xs ++ take k d) (ys ++ d)
append-take-IsPrefix {xs} e k d = record {
  rest = drop k d;
  whole_eq =
      append_assoc xs (take k d) (drop k d)
      ∙ ap (λ t. xs ++ t) (take-append-drop k d)
      ∙ ap (λ t. t ++ d) e;
}

module _ (b : Bridge) (game relay stream : Bytes) where
  -- A loop that is left between two writes.
  pub relaying_ended : InOrderIn relaying b game relay stream → InOrderIn ended b game relay stream
  relaying_ended (t, w, s, q, _, _) = (
    IsPrefix-append (eq-IsPrefix t) stream,
    eq-IsPrefix (ap (λ x. b.ws_sent ++ x) q ∙ append-nil b.ws_sent ∙ w),
  )

  pub draining_ended : InOrderIn draining b game relay stream → InOrderIn ended b game relay stream
  draining_ended (t, s, w, q) = (
    IsPrefix-append (eq-IsPrefix t) stream,
    record {
      rest = b.tcp_outbound_buffer;
      whole_eq =
          ap (λ x. (b.ws_sent ++ x) ++ b.tcp_outbound_buffer) q
          ∙ ap (λ x. x ++ b.tcp_outbound_buffer) (append-nil b.ws_sent)
          ∙ w;
    },
  )

  pub direct_ended : InOrderIn direct b game relay stream → InOrderIn ended b game relay stream
  direct_ended (t, w) = (eq-IsPrefix t, eq-IsPrefix w)

  pub relaying_draining :
      InOrderIn relaying b game relay stream → InOrderIn draining b game relay stream
  relaying_draining (t, w, s, q, buf, out) =
      (t, buf ∙ sym s, ap (λ x. b.ws_sent ++ x) out ∙ append-nil b.ws_sent ∙ w, q)

  pub on_pong-InOrder :
      (now : Instant)
      → InOrderIn relaying b game relay stream
      → InOrderIn relaying (on_pong now b) game relay stream
  unfolding on_pong
  on_pong-InOrder now h = ground arith

  pub on_ping_tick-InOrder :
      (now : Instant)
      → InOrderIn relaying b game relay stream
      → InOrderIn relaying (on_ping_tick now b) game relay stream
  unfolding on_ping_tick
  on_ping_tick-InOrder now h = ground arith
