-- ===== src/Server/State/Broadcast.antt =====
-- What the broadcast of state.rs does to the queues of the connections.
use war3_battle_tool.Prelude.{
  ◌≤◌, ◌≡◌, some, List, [], ◌∷◌, length, length-append, is_none, arith, nat_eq, by_if,
}
use war3_battle_tool.HashMap.{get, values}
use war3_battle_tool.HashMap.Laws.{modified_before}
use war3_battle_tool.Protocol.Messages.{ServerMessage}
use war3_battle_tool.Server.Channel.{Sender, Channel, Channels, refuses, push, try_send}
use war3_battle_tool.Server.State.{
  AppState, ConnectedPlayer, player_snapshot, room_snapshot, send_snapshots, broadcast_state,
}

-- No queue holds more than the channel's size.
abbrev IsBounded : Channels → Type 0
IsBounded channels = (tx : Sender) (c : Channel) → get tx channels ≡ some c → length c.queue ≤ 64

push-le : (m : ServerMessage) (c : Channel) → length c.queue ≤ 64 → length (push m c).queue ≤ 64
unfolding push refuses
push-le m c h = ground (arith, length-append c.queue (m ∷ []))

try_send-IsBounded :
    (tx : Sender) (m : ServerMessage) (channels : Channels)
    → IsBounded channels
    → IsBounded (try_send tx m channels)
unfolding try_send
try_send-IsBounded tx m channels bounded j c' h =
    let (c, found, same) = modified_before tx j (push m) channels c' h in
    ground (arith, same, push-le m c, bounded j c found)

send_snapshots-IsBounded :
    (ps rs : ServerMessage) (players : List ConnectedPlayer) (channels : Channels)
    → IsBounded channels
    → IsBounded (send_snapshots ps rs players channels)
unfolding send_snapshots
send_snapshots-IsBounded ps rs [] channels b = b
send_snapshots-IsBounded ps rs (p ∷ players) channels b = send_snapshots-IsBounded ps rs players _ (
    by_if IsBounded (is_none p.disconnected_at) _ channels
      (λ connected. try_send-IsBounded p.tx rs _ (try_send-IsBounded p.tx ps channels b))
      (λ gone. b))

-- A broadcast, however many players there are and however slowly they read, leaves every queue with
-- at most 64 messages, if it found them so.
broadcast_state-IsBounded :
    (a : AppState) (channels : Channels)
    → IsBounded channels
    → IsBounded (broadcast_state a channels)
unfolding broadcast_state
broadcast_state-IsBounded a channels b =
    send_snapshots-IsBounded (player_snapshot a) (room_snapshot a) (values a.players) channels b
