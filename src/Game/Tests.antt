-- ===== src/Game/Tests.antt =====
-- A game whose first byte goes over the server, and the rest over QUIC.
use war3_battle_tool.Prelude.{refl, ◌⊎◌, true, List, [], ◌∷◌, ◌≡◌}
use war3_battle_tool.Client.Bridge.Heard.{start, run, observe, IsPrefix}
use war3_battle_tool.Client.Bridge.Pipe.{LeftEarly}
use war3_battle_tool.Client.Tests.Swaps.{joins, hosts}
use war3_battle_tool.Server.Tunnel.Joined as Joined
use war3_battle_tool.Server.Tunnel.Joined.{
  first_end, second_end, Act, hears, takes, joined, all_fit, fits, act, hear, turn, take_next, pop,
}
use war3_battle_tool.Server.Tunnel.Relay.{binary, frame, iterate, on_binary, reset_window, to_peer}
use war3_battle_tool.Game.{Carried, games_joined}

-- The joiner came second; the host's end takes its frame.
abbrev acts : List Act
acts = hears second_end 1 (frame (binary (1 ∷ []))) ∷ takes first_end 2 true ∷ []

fit : all_fit acts (joined 0) ≡ true
unfolding all_fit fits act hear turn iterate reset_window on_binary to_peer
fit = refl

carried : Carried (run joins (start 0)) (run hosts (start 0)) (Joined.run acts (joined 0)) first_end
unfolding run observe Joined.run act hear turn take_next pop iterate on_binary reset_window to_peer
carried = record {
  up = record { rest = []; whole_eq = refl };
  down = record { rest = []; whole_eq = refl };
  streamed = record { rest = []; whole_eq = refl };
}

games_joined_example :
    IsPrefix (run hosts (start 0)).bridge.tcp_written (run joins (start 0)).from_game
    ⊎ LeftEarly (run joins (start 0)) (run hosts (start 0))
games_joined_example = games_joined 0 0 joins hosts 0 acts first_end fit carried
