-- ===== src/Server/Tests/Joined.antt =====
-- A tunnel whose two loops run.
use mathlib.Core.List.{Sublistᴰ}
use war3_battle_tool.Prelude.{true, List, [], ◌∷◌, ◌++◌}
use war3_battle_tool.Server.Tunnel.Relay.{binary, ping_frame, frame}
use war3_battle_tool.Server.Tunnel.Joined.{first_end, second_end, Act, hears, takes, run, joined}
use war3_battle_tool.Server.Tunnel.Joined.Flow.{data_of}
use war3_battle_tool.Server.Tunnel.Joined.Sequence.{joined-Sequence}

-- The second end hears two frames and a Ping; the first end takes the first of them.
abbrev acts : List Act
acts =
    hears second_end 1 (frame (binary (1 ∷ 2 ∷ [])))
    ∷ hears second_end 2 (frame (ping_frame []))
    ∷ takes first_end 3 true
    ∷ hears second_end 4 (frame (binary (3 ∷ [])))
    ∷ []

joined-Sequence_example :
    Sublistᴰ
      (data_of ((run acts (joined 0)).relay first_end).sent
        ++ ((run acts (joined 0)).relay second_end).peer_queue)
      ((run acts (joined 0)).heard second_end)
joined-Sequence_example = joined-Sequence 0 acts first_end
