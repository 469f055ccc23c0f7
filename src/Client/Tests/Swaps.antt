-- ===== src/Client/Tests/Swaps.antt =====
-- A game carried over the relay, and the swap to QUIC.
use war3_battle_tool.Prelude.{ℕ, List, [], ◌∷◌, ◌++◌, refl}
use war3_battle_tool.Client.Bridge.{
  whole, broken, tcp_read, ws_binary, quic_read, swap_ready, ws_pong, drain_deadline, Flush, Input,
  draining, new,
}
use war3_battle_tool.Client.Bridge.Heard.{Event, Observed, start, run, observe, IsPrefix, InOrder}
use war3_battle_tool.Client.Bridge.Order.{swap_keeps_order}
use war3_battle_tool.Client.Bridge.Drain.{control_frame_cuts_drain}

abbrev good : Flush
good = record { game = whole; stream = whole }

abbrev at : ℕ → Input → Event
at now input = record { now = now; input = input; flushed = good }

-- The joiner sends one, two and three; the swap comes after one, and two is held back.
abbrev pub joins : List Event
joins =
    at 1 (tcp_read (1 ∷ []) whole)
    ∷ at 2 swap_ready
    ∷ at 3 (tcp_read (2 ∷ []) whole)
    ∷ at 4 drain_deadline
    ∷ at 5 (tcp_read (3 ∷ []) whole)
    ∷ []

-- The host hears two over QUIC before one over the relay.
abbrev pub hosts : List Event
hosts =
    at 1 swap_ready
    ∷ at 2 (quic_read (2 ∷ []) whole)
    ∷ at 3 (ws_binary (1 ∷ []) whole)
    ∷ at 4 drain_deadline
    ∷ at 5 (quic_read (3 ∷ []) (broken 0))
    ∷ []

swap_keeps_order_example : InOrder (run hosts (start 0))
swap_keeps_order_example = swap_keeps_order 0 hosts

-- The host again, with a Pong before the byte that the relay still delivers.
abbrev before_pong : Observed
before_pong = record {
  phase = draining;
  bridge = new 0;
  from_game = [];
  from_relay = [];
  from_stream = [];
}

in_order : InOrder before_pong
in_order = (refl, refl, refl, refl)

control_frame_cuts_drain_example :
    IsPrefix
      (run
        (at 4 (ws_binary (1 ∷ []) whole) ∷ [])
        (observe (at 3 ws_pong) before_pong)).bridge.tcp_written
      ([]
        ++ (run
            (at 4 (ws_binary (1 ∷ []) whole) ∷ [])
            (observe (at 3 ws_pong) before_pong)).from_stream)
control_frame_cuts_drain_example =
    control_frame_cuts_drain (at 3 ws_pong) before_pong (at 4 (ws_binary (1 ∷ []) whole) ∷ [])
      in_order refl tt
