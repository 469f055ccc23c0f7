-- ===== src/Client/Bridge/Order.antt =====
-- Each loop of `bridge_tcp_ws_with_swap` (crates/client/src/net/tunnel.rs) keeps the order of the
-- bytes, and the swap to QUIC does.
use mathlib.Core.List.{append_assoc, append-nil}
use war3_battle_tool.Prelude.{
  ℕ, true, List, [], ◌∷◌, ◌++◌, ◌≡◌, ap, is_empty, take, drop, sym, subst, by_if, is_empty_iff, ◌∙◌,
}
use war3_battle_tool.Server.Time.{Instant}
use war3_battle_tool.Client.Bridge.{
  Bytes, Written, whole, broken, Input, tcp_read, ws_binary, quic_read, Phase, relaying, draining,
  tcp_eof, tcp_error, ws_close, ws_ping, ws_pong, ws_error, swap_ready, swap_closed, ping_tick,
  quic_end, quic_error, direct, ended, Bridge, to_game, to_quic, relay_step, Flush, flush_outbound,
  flush, drain_step, direct_step, step,
}
use war3_battle_tool.Client.Bridge.Heard.{
  Event, tcp_heard, ws_heard, quic_heard, Observed, start, observe, run, IsPrefix, InOrderIn,
  InOrder, start-InOrder, take-append-drop, eq-IsPrefix, IsPrefix-append, append-take-IsPrefix,
  relaying_ended, draining_ended, direct_ended, relaying_draining, on_pong-InOrder,
  on_ping_tick-InOrder,
}

abbrev pub KeepsOrder : Phase → Input → Phase × Bridge → Bytes → Bytes → Bytes → Type 0
KeepsOrder p i (p', b') game relay stream =
    InOrderIn p' b' (game ++ tcp_heard p i) (relay ++ ws_heard p i) (stream ++ quic_heard p i)

module _ (b : Bridge) (game relay stream : Bytes) where
  -- Each loop keeps the order, or hands it on to the next one.
  relay_step-InOrder :
      (now : Instant) (i : Input)
      → InOrderIn relaying b game relay stream
      → KeepsOrder relaying i (relay_step now i b) game relay stream
  unfolding relay_step tcp_heard ws_heard quic_heard
  relay_step-InOrder now (tcp_read d whole) (t, w, s, q, buf, out) =
      simp append-nil (t, ap (λ x. x ++ d) w, s, q, buf, out)
  relay_step-InOrder now (tcp_read d (broken k)) h =
      let (t, w) = relaying_ended b game relay stream h in simp append-nil (t, IsPrefix-append w d)
  relay_step-InOrder now (ws_binary d whole) (t, w, s, q, buf, out) =
      simp append-nil (ap (λ x. x ++ d) t, w, s, q, buf, out)
  relay_step-InOrder now (ws_binary d (broken k)) h =
      let (_, w) = relaying_ended b game relay stream h in
      simp append-nil (IsPrefix-append (append-take-IsPrefix h.0 k d) stream, w)
  relay_step-InOrder now swap_ready h = simp append-nil (relaying_draining b game relay stream h)
  relay_step-InOrder now ws_pong h = simp append-nil (on_pong-InOrder b game relay stream now h)
  relay_step-InOrder now ping_tick h =
      simp append-nil (on_ping_tick-InOrder b game relay stream now h)
  relay_step-InOrder now tcp_eof h = simp append-nil (relaying_ended b game relay stream h)
  relay_step-InOrder now tcp_error h = simp append-nil (relaying_ended b game relay stream h)
  relay_step-InOrder now ws_close h = simp append-nil (relaying_ended b game relay stream h)
  relay_step-InOrder now ws_error h = simp append-nil (relaying_ended b game relay stream h)
  relay_step-InOrder now (ws_ping d) h = simp append-nil h
  relay_step-InOrder now _ h = simp append-nil h

abbrev Holds : Phase × Bridge → Bytes → Bytes → Bytes → Type 0
Holds (p, b) game relay stream = InOrderIn p b game relay stream

-- The writes after the drain.
module _ (b : Bridge) (game relay stream : Bytes) where
  outbound-InOrder :
      (w : Written)
      → b.tcp_written ≡ relay ++ stream
      → b.ws_sent ++ b.tcp_outbound_buffer ≡ game
      → b.quic_sent ≡ []
      → let (p, b') = to_quic b.tcp_outbound_buffer w b in
        Holds
          (elim p [ ended ↦ (ended, b') | _ ↦ (direct, record b' { upgraded = true }) ])
          game
          relay
          stream
  unfolding to_quic
  outbound-InOrder whole t g q = (t, ap (λ x. b.ws_sent ++ (x ++ b.tcp_outbound_buffer)) q ∙ g)
  outbound-InOrder (broken k) t g q = (
    eq-IsPrefix t,
    record {
      rest = drop k b.tcp_outbound_buffer;
      whole_eq =
          ap
            (λ x.
              (b.ws_sent ++ (x ++ take k b.tcp_outbound_buffer)) ++ drop k b.tcp_outbound_buffer)
            q
          ∙ append_assoc b.ws_sent (take k b.tcp_outbound_buffer) (drop k b.tcp_outbound_buffer)
          ∙ ap (λ x. b.ws_sent ++ x) (take-append-drop k b.tcp_outbound_buffer)
          ∙ g;
    },
  )

  flush_outbound-InOrder :
      (w : Written)
      → b.tcp_written ≡ relay ++ stream
      → b.ws_sent ++ b.tcp_outbound_buffer ≡ game
      → b.quic_sent ≡ []
      → Holds (flush_outbound w b) game relay stream
  unfolding flush_outbound
  flush_outbound-InOrder w t g q =
      by_if (λ r. Holds r game relay stream) (is_empty b.tcp_outbound_buffer) _ _
        (λ e.
          (t, ap (λ x. b.ws_sent ++ x) (q ∙ sym ((is_empty_iff b.tcp_outbound_buffer).0 e)) ∙ g))
        (λ _. outbound-InOrder w t g q)

module _ (b : Bridge) (game relay stream : Bytes) (h : InOrderIn draining b game relay stream) where
  buffered-InOrder :
      (w v : Written)
      → let (p, b') = to_game direct b.quic_buffer w b in
        Holds (elim p [ ended ↦ (ended, b') | _ ↦ flush_outbound v b' ]) game relay stream
  unfolding to_game
  buffered-InOrder whole v =
      let (t, s, g, q) = h in
      flush_outbound-InOrder (record b { tcp_written = b.tcp_written ++ b.quic_buffer }) game relay
        stream v (ap (λ x. x ++ b.quic_buffer) t ∙ ap (λ x. relay ++ x) s) g q
  buffered-InOrder (broken k) v =
      let (t, s, g, q) = h in
      let (_, rest) = draining_ended b game relay stream h in
      (
        subst (λ x. IsPrefix (b.tcp_written ++ take k b.quic_buffer) (relay ++ x)) s
            (append-take-IsPrefix t k b.quic_buffer),
        rest,
      )

  flush-InOrder : (f : Flush) → Holds (flush f b) game relay stream
  unfolding flush
  flush-InOrder f =
      let (t, s, g, q) = h in
      by_if (λ r. Holds r game relay stream) (is_empty b.quic_buffer) _ _
        (λ e.
          flush_outbound-InOrder b game relay stream f.stream
            (t
              ∙ sym (append-nil relay)
              ∙ ap (λ x. relay ++ x) (sym ((is_empty_iff b.quic_buffer).0 e) ∙ s))
            g q)
        (λ _. buffered-InOrder f.game f.stream)

module _ (b : Bridge) (game relay stream : Bytes) where
  drain_step-InOrder :
      (f : Flush) (i : Input)
      → InOrderIn draining b game relay stream
      → KeepsOrder draining i (drain_step f i b) game relay stream
  unfolding drain_step tcp_heard ws_heard quic_heard
  drain_step-InOrder f (ws_binary d whole) (t, s, g, q) =
      simp append-nil (ap (λ x. x ++ d) t, s, g, q)
  drain_step-InOrder f (ws_binary d (broken k)) h =
      let (_, w) = draining_ended b game relay stream h in
      simp append-nil (IsPrefix-append (append-take-IsPrefix h.0 k d) stream, w)
  drain_step-InOrder f (quic_read d w) (t, s, g, q) = simp append-nil (t, ap (λ x. x ++ d) s, g, q)
  drain_step-InOrder f (tcp_read d w) (t, s, g, q) =
      simp append-nil
        (t, s, sym (append_assoc b.ws_sent b.tcp_outbound_buffer d) ∙ ap (λ x. x ++ d) g, q)
  drain_step-InOrder f quic_end h = simp append-nil (draining_ended b game relay stream h)
  drain_step-InOrder f quic_error h = simp append-nil (draining_ended b game relay stream h)
  drain_step-InOrder f swap_ready h = simp append-nil h
  drain_step-InOrder f swap_closed h = simp append-nil h
  drain_step-InOrder f ping_tick h = simp append-nil h
  drain_step-InOrder f _ h = simp append-nil (flush-InOrder b game relay stream h f)

  direct_step-InOrder :
      (i : Input)
      → InOrderIn direct b game relay stream
      → KeepsOrder direct i (direct_step i b) game relay stream
  unfolding direct_step tcp_heard ws_heard quic_heard
  direct_step-InOrder (tcp_read d whole) (t, w) =
      simp append-nil (t, sym (append_assoc b.ws_sent b.quic_sent d) ∙ ap (λ x. x ++ d) w)
  direct_step-InOrder (tcp_read d (broken k)) (t, w) = simp append-nil (
    eq-IsPrefix t,
    subst (λ x. IsPrefix x (game ++ d)) (append_assoc b.ws_sent b.quic_sent (take k d))
        (append-take-IsPrefix w k d),
  )
  direct_step-InOrder (quic_read d whole) (t, w) =
      simp append-nil (ap (λ x. x ++ d) t ∙ append_assoc relay stream d, w)
  direct_step-InOrder (quic_read d (broken k)) (t, w) = simp append-nil (
    subst (λ x. IsPrefix (b.tcp_written ++ take k d) x) (append_assoc relay stream d)
        (append-take-IsPrefix t k d),
    eq-IsPrefix w,
  )
  direct_step-InOrder tcp_eof h = simp append-nil (direct_ended b game relay stream h)
  direct_step-InOrder tcp_error h = simp append-nil (direct_ended b game relay stream h)
  direct_step-InOrder quic_end h = simp append-nil (direct_ended b game relay stream h)
  direct_step-InOrder quic_error h = simp append-nil (direct_ended b game relay stream h)
  direct_step-InOrder _ h = simp append-nil h

  pub step-InOrder :
      (e : Event) (p : Phase)
      → InOrderIn p b game relay stream
      → KeepsOrder p e.input (step e.now e.flushed e.input p b) game relay stream
  unfolding step tcp_heard ws_heard quic_heard
  step-InOrder e relaying h = relay_step-InOrder b game relay stream e.now e.input h
  step-InOrder e draining h = drain_step-InOrder e.flushed e.input h
  step-InOrder e direct h = direct_step-InOrder e.input h
  step-InOrder e ended h = simp append-nil h

pub run-InOrder : (es : List Event) (o : Observed) → InOrder o → InOrder (run es o)
unfolding run observe
run-InOrder [] o h = h
run-InOrder (e ∷ es) o h =
    run-InOrder es (observe e o)
      (step-InOrder o.bridge o.from_game o.from_relay o.from_stream e o.phase h)

-- From the start of the bridge and after any sequence of reads, writes that fail, frames, ticks and
-- the swap: what the game was given is what was read from the relay, then what was read from the
-- stream, and what was sent, over the relay first, is what was read from the game, each in order.
-- While draining, the bytes of the stream and of the game that are held back are all there; when the
-- function has returned, what was written is a prefix.
pub swap_keeps_order : (latency_ms : ℕ) (es : List Event) → InOrder (run es (start latency_ms))
swap_keeps_order latency_ms es = run-InOrder es (start latency_ms) (start-InOrder latency_ms)
