-- ===== src/Client/Bridge/Drain.antt =====
-- The drain of `bridge_tcp_ws_with_swap` (crates/client/src/net/tunnel.rs): any frame but data ends it.
use mathlib.Core.List.{append-nil}
use war3_battle_tool.Prelude.{List, [], ◌∷◌, ◌++◌, ◌≡◌, refl, ap, ◌∙◌, by_if, subst, is_empty}
use war3_battle_tool.Server.Time.{Instant}
use war3_battle_tool.Client.Bridge.{
  Written, whole, broken, Input, tcp_read, ws_binary, quic_read, Phase, relaying, draining, direct,
  ended, Bridge, to_game, to_quic, Flush, flush_outbound, flush, drain_step, direct_step, step,
  ws_ping, ws_pong, ws_other, tcp_eof, tcp_error, ws_close, ws_error, swap_ready, swap_closed,
  ping_tick, quic_end, quic_error, drain_deadline,
}
use war3_battle_tool.Client.Bridge.Heard.{
  Event, Observed, run, observe, ws_heard, IsPrefix, InOrder,
}
use war3_battle_tool.Client.Bridge.Order.{run-InOrder, step-InOrder}
use war3_battle_tool.Client.Bridge.Pipe.{in_order_ended}

-- The relay is no longer read.
abbrev PastRelay : Phase → Type 0
PastRelay direct = Unit {0}
PastRelay ended = Unit {0}
PastRelay _ = ⊥

abbrev Past : Phase × Bridge → Type 0
Past (p, b) = PastRelay p

direct_step-PastRelay : (i : Input) (b : Bridge) → Past (direct_step i b)
unfolding direct_step to_game to_quic
direct_step-PastRelay (tcp_read d whole) b = tt
direct_step-PastRelay (tcp_read d (broken k)) b = tt
direct_step-PastRelay (quic_read d whole) b = tt
direct_step-PastRelay (quic_read d (broken k)) b = tt
direct_step-PastRelay _ b = tt

outbound-PastRelay : (w : Written) (b : Bridge) → Past (flush_outbound w b)
unfolding flush_outbound to_quic
outbound-PastRelay whole b = by_if Past (is_empty b.tcp_outbound_buffer) _ _ (λ _. tt) (λ _. tt)
outbound-PastRelay (broken k) b =
    by_if Past (is_empty b.tcp_outbound_buffer) _ _ (λ _. tt) (λ _. tt)

buffered-PastRelay :
    (w v : Written) (b : Bridge)
    → let (p, b') = to_game direct b.quic_buffer w b in
      Past (elim p [ ended ↦ (ended, b') | _ ↦ flush_outbound v b' ])
unfolding to_game
buffered-PastRelay whole v b = outbound-PastRelay v _
buffered-PastRelay (broken k) v b = tt

flush-PastRelay : (f : Flush) (b : Bridge) → Past (flush f b)
unfolding flush
flush-PastRelay f b =
    by_if Past (is_empty b.quic_buffer) _ _ (λ _. outbound-PastRelay f.stream b)
      (λ _. buffered-PastRelay f.game f.stream b)

step-PastRelay :
    (e : Event) (p : Phase) (b : Bridge)
    → PastRelay p
    → Past (step e.now e.flushed e.input p b) × (ws_heard p e.input ≡ [])
unfolding step ws_heard
step-PastRelay e relaying b h = absurd h
step-PastRelay e draining b h = absurd h
step-PastRelay e direct b h = (direct_step-PastRelay e.input b, refl)
step-PastRelay e ended b h = (tt, refl)

run-from_relay :
    (es : List Event) (o : Observed) → PastRelay o.phase → (run es o).from_relay ≡ o.from_relay
unfolding run observe
run-from_relay [] o h = refl
run-from_relay (e ∷ es) o h =
    let (past, deaf) = step-PastRelay e o.phase o.bridge h in
    run-from_relay es (observe e o) past
    ∙ ap (λ t. o.from_relay ++ t) deaf
    ∙ append-nil o.from_relay

-- Frames that carry no data of the game.
abbrev pub IsControl : Input → Type 0
IsControl (ws_ping d) = Unit {0}
IsControl ws_pong = Unit {0}
IsControl ws_other = Unit {0}
IsControl _ = ⊥

control_ends :
    (now : Instant) (f : Flush) (i : Input) (b : Bridge)
    → IsControl i
    → Past (step now f i draining b) × (ws_heard draining i ≡ [])
unfolding step drain_step ws_heard
control_ends now f (ws_ping d) b h = (flush-PastRelay f b, refl)
control_ends now f ws_pong b h = (flush-PastRelay f b, refl)
control_ends now f ws_other b h = (flush-PastRelay f b, refl)
control_ends now f (tcp_read d w) b h = absurd h
control_ends now f (ws_binary d w) b h = absurd h
control_ends now f (quic_read d w) b h = absurd h
control_ends now f tcp_eof b h = absurd h
control_ends now f tcp_error b h = absurd h
control_ends now f ws_close b h = absurd h
control_ends now f ws_error b h = absurd h
control_ends now f swap_ready b h = absurd h
control_ends now f swap_closed b h = absurd h
control_ends now f ping_tick b h = absurd h
control_ends now f quic_end b h = absurd h
control_ends now f quic_error b h = absurd h
control_ends now f drain_deadline b h = absurd h

observe-control :
    (e : Event) (o : Observed) (p : Phase)
    → p ≡ draining
    → IsControl e.input
    → Past (step e.now e.flushed e.input p o.bridge) × (ws_heard p e.input ≡ [])
observe-control e o p draining_now h =
    rw draining_now (control_ends e.now e.flushed e.input o.bridge h)

-- A Ping, a Pong or any frame but data that comes while the bridge drains the relay is the last frame
-- it reads: whatever happens afterwards, the game is given no more than the bytes that had come over
-- the relay before and then those of the stream, so data that the relay still delivers is lost.
pub control_frame_cuts_drain :
    (e : Event) (o : Observed) (es : List Event)
    → InOrder o
    → o.phase ≡ draining
    → IsControl e.input
    → let o' = run es (observe e o) in
      IsPrefix o'.bridge.tcp_written (o.from_relay ++ o'.from_stream)
unfolding observe
control_frame_cuts_drain e o es order draining_now control =
    let (past, deaf) = observe-control e o o.phase draining_now control in
    let o' : Observed = run es (observe e o) in
    let same : o'.from_relay ≡ o.from_relay =
      run-from_relay es (observe e o) past
      ∙ ap (λ t. o.from_relay ++ t) deaf
      ∙ append-nil o.from_relay in
    subst (λ t. IsPrefix o'.bridge.tcp_written (t ++ o'.from_stream)) same
      (in_order_ended o' o'.phase (
        run-InOrder es (observe e o)
          (step-InOrder o.bridge o.from_game o.from_relay o.from_stream e o.phase order))).0
