-- ===== src/Server/Channel.antt =====
-- The `mpsc::channel::<ServerMessage>(64)` of each connection (server/src/ws.rs): a `Sender` is the
-- number of a channel, and the queue holds what the send task has not taken yet, oldest first.
use war3_battle_tool.Prelude.{
  ℕ, Bool, true, false, List, [], ◌∷◌, ◌++◌, none, some, length, leb, if◌then◌else◌, nat_eq, ◌||◌,
}
use war3_battle_tool.HashMap.{HashMap, get, modify}
use war3_battle_tool.Protocol.Messages.{ServerMessage}

abbrev pub channel_size : ℕ
channel_size = 64

pub record Channel : Type 0 where
  pub queue : List ServerMessage
  pub closed : Bool

abbrev pub Sender : Type 0
Sender = ℕ

abbrev pub Channels : Type 0
Channels = HashMap Sender Channel

-- A message is refused where the receiver is gone or the buffer is full.
unfoldable pub refuses : Channel → Bool
refuses c = c.closed || leb channel_size (length c.queue)

unfoldable pub push : ServerMessage → Channel → Channel
unfolding refuses
push m c = if refuses c then c else record c { queue = c.queue ++ m ∷ [] }

-- `tx.try_send(m)`; the result is dropped by `let _ =`.
unfoldable pub try_send : Sender → ServerMessage → Channels → Channels
unfolding push
try_send tx m channels = modify tx (push m) channels

-- `tx.try_send(m).is_ok()`
unfoldable pub can_send : Sender → Channels → Bool
unfolding refuses
can_send tx channels = elim (get tx channels) [
  | none ↦ false
  | some c ↦ if refuses c then false else true
]
