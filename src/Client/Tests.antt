-- ===== src/Client/Tests.antt =====
-- The log panel after a few actions.
pub mod Swaps
pub mod Rooms
pub mod Apps
pub mod Network
use war3_battle_tool.Prelude.{List, [], ◌∷◌}
use war3_battle_tool.Client.LogPanel.{
  LogEntry, Action, new, concise, detailed, info, pushes, selects, edits, run,
}
use war3_battle_tool.Client.LogPanel.Current.{IsCurrent, run-IsCurrent}

abbrev entry : LogEntry
entry = record {
  timestamp = "00:00:00";
  message = "joined";
  level = info;
  verbosity = concise;
  target = "test";
}

abbrev actions : List Action
actions = pushes entry ∷ selects detailed ∷ edits "join" ∷ pushes entry ∷ []

run-IsCurrent_example : IsCurrent (run actions (new 2000))
run-IsCurrent_example = run-IsCurrent 2000 actions
