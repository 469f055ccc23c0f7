-- ===== src/Client/CmdSender.antt =====
-- crates/client/src/cmd_sender.rs: the sender of the channel to the network task, as the messages
-- that wait in it; `open` until the task drops its end.
use war3_battle_tool.Prelude.{List, [], ◌∷◌, ◌++◌, Bool, true, false, if◌then◌else◌}
use war3_battle_tool.Protocol.Messages.{ClientMessage}

pub record CmdSender : Type 0 where
  pub open_end : Bool
  pub queue : List ClientMessage

unfoldable pub send_or_warn : ClientMessage → CmdSender → Bool × CmdSender
send_or_warn msg c =
    if c.open_end then (true, record c { queue = c.queue ++ msg ∷ [] }) else (false, c)
