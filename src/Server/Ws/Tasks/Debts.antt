-- ===== src/Server/Ws/Tasks/Debts.antt =====
-- The tasks of crates/server/src/ws.rs keep the ledger of the rooms, each with what it owes and with the
-- identifier that it may draw.
use war3_battle_tool.Prelude.{
  ℕ, ◌+◌, ◌≤◌, ◌≡◌, refl, sym, ap, subst, String, Option, none, some, List, [], ◌∷◌, arith, by_if,
  by_option, string_eq, leb, is_some, ok,
}
use war3_battle_tool.HashMap as HashMap
use war3_battle_tool.HashMap.{HashMap, get, modify}
use war3_battle_tool.HashMap.Laws.{remove_absent}
use war3_battle_tool.Protocol.War3.{War3Version}
use war3_battle_tool.Protocol.Messages.{
  ClientMessage, register, heartbeat, create_room, close_room, join_room, ping, upnp_mapped,
  validate,
}
use war3_battle_tool.Protocol.Messages.Validate.{IsAcceptable, validate-ok_iff}
use war3_battle_tool.Server.State.{ConnectedPlayer, mark_disconnected, find_expired}
use war3_battle_tool.Server.Time.{Instant}
use war3_battle_tool.Server.Ws.Loop.{heartbeat_timeout, grace_period}
use war3_battle_tool.Server.Ws.{
  Session, is_barred, new_room, new_player, host_in, host_nothing, hosted, max_total_players,
  max_total_rooms,
}
use war3_battle_tool.Server.Ws.Tasks.{
  Task, over, section, Work, message, ending, tick, task_of, message_task, register_task,
  create_task, close_task, remove_task, remove_all_task, end_task, cleanup_task, settle,
  forget_player,
}
use war3_battle_tool.Server.Ws.Tasks.Ledger.{
  Balanced, Amounts, nothing, one, enter-Balanced, change-Balanced, drop-Balanced, Balanced-ext,
}
use war3_battle_tool.Server.Ws.Tasks.Balance.{forget-Balanced, settle-Balanced, open-Balanced}
use war3_battle_tool.Server.Ws.Tasks.Owes.{Owes}
use war3_battle_tool.Server.Ws.Tasks.Joining.{join-Owes}

register-Owes :
    (o d : Amounts) (now : Instant) (nickname : String) (v : War3Version) (s : Session)
    → Owes o d (register_task now nickname v s)
unfolding register_task new_player
register-Owes o d now nickname v s =
    by_if (Owes o d) s.registered _ _ (λ _. tt)
      (λ _ O D a b. (
        o,
        d,
        b,
        by_if (Owes o d) (leb max_total_players (HashMap.len a.players)) _ _ (λ _. tt)
            (λ _ O' D' a' b'. (o, d, enter-Balanced _ _ a' b' s.player_id _ refl, tt)),
      ))

create-Owes :
    (room_id room_name map_name : String) (n : ℕ) (gameinfo : List ℕ) (s : Session)
    → 2 ≤ n
    → n ≤ 12
    → Owes nothing (one (some room_id)) (create_task room_id room_name map_name n gameinfo s)
unfolding create_task new_room
create-Owes room_id room_name map_name n gameinfo s low high =
    by_if (Owes nothing (one (some room_id))) (is_barred s) _ _ (λ _. tt)
      (λ _ O D a b. (
        nothing,
        one (some room_id),
        b,
        by_option (Owes nothing (one (some room_id))) (get s.player_id a.players) _ _ (λ _. tt)
            (λ p _.
              by_if (Owes nothing (one (some room_id))) (is_some p.hosting_room) _ _ (λ _. tt)
                (λ _ O' D' a' b'. (
                  nothing,
                  one (some room_id),
                  b',
                  by_if (Owes nothing (one (some room_id)))
                      (leb max_total_rooms (HashMap.len a'.rooms)) _ _ (λ _. tt)
                      (λ _ O2 D2 c bal. (
                        nothing,
                        nothing,
                        open-Balanced _ (λ i. nothing i + D2 i) c room_id _ refl low high
                            (Balanced-ext _ _ _ _ c (λ i. refl) (λ i. omega arith) bal),
                        λ O3 D3 e bal'. (
                          nothing,
                          nothing,
                          change-Balanced _ _ e bal' s.player_id (host_in room_id) (λ p. refl),
                          tt,
                        ),
                      )),
                ))),
      ))

close-Owes : (o d : Amounts) (s : Session) → Owes o d (close_task s)
unfolding close_task
close-Owes o d s =
    by_if (Owes o d) (is_barred s) _ _ (λ _. tt)
      (λ _ O D a b. (
        o,
        d,
        change-Balanced _ _ a b s.player_id host_nothing (λ p. refl),
        by_option (Owes o d) (hosted (get s.player_id a.players)) _ _ (λ _. tt)
            (λ room_id _ O' D' c b'. (o, d, drop-Balanced _ _ c b' room_id, tt)),
      ))

remove-Owes :
    (d : Amounts) (id : String) (rest : Task)
    → Owes nothing d rest
    → Owes nothing d (remove_task id rest)
unfolding remove_task
remove-Owes d id rest owes O D a b = removed (get id a.players) refl
  where
    removed :
        (o : Option ConnectedPlayer)
        → get id a.players ≡ o
        → (o' : Amounts) × (d' : Amounts) × Balanced
            (λ i. o' i + O i)
            (λ i. d' i + D i)
            (forget_player id a)
          × Owes o' d'
              (elim o as (λ _. Task) [ none ↦ rest | some p ↦ section (settle p) (λ _. rest) ])
    removed none absent = (
      nothing,
      d,
      subst (Balanced _ _)
          (sym (ap (λ players. record a { players = players }) (remove_absent id a.players absent)))
          b,
      owes,
    )
    removed (some p) found = (
      one p.joined_room,
      d,
      forget-Balanced O _ a id p found (Balanced-ext _ _ _ _ a (λ i. omega arith) (λ i. refl) b),
      λ O' D' c b'. (
        nothing,
        d,
        Balanced-ext O' _ _ _ (settle p c) (λ i. omega arith) (λ i. refl)
            (settle-Balanced O' _ c p b'),
        owes,
      ),
    )

remove_all-Owes : (d : Amounts) (ids : List String) → Owes nothing d (remove_all_task ids)
unfolding remove_all_task
remove_all-Owes d [] = tt
remove_all-Owes d (id ∷ ids) = remove-Owes d id (remove_all_task ids) (remove_all-Owes d ids)

end-Owes : (d : Amounts) (now : Instant) (s : Session) → Owes nothing d (end_task now s)
unfolding end_task mark_disconnected
end-Owes d now s =
    by_if (Owes nothing d) s.registered _ _
      (λ _.
        by_if (Owes nothing d) s.is_web_viewer _ _ (λ _. remove-Owes d s.player_id over tt)
          (λ _ O D a b. (nothing, d, change-Balanced _ _ a b s.player_id _ (λ p. refl), tt)))
      (λ _. tt)

message-Owes :
    (now : Instant) (fresh : String) (m : ClientMessage) (s : Session)
    → IsAcceptable m
    → Owes nothing (one (some fresh)) (message_task now fresh m s)
unfolding message_task
message-Owes now fresh (register nickname v c) s h = register-Owes _ _ now nickname v s
message-Owes now fresh heartbeat s h =
    λ O D a b. (nothing, one (some fresh), change-Balanced _ _ a b s.player_id _ (λ p. refl), tt)
message-Owes now fresh (create_room r m n g) s h = create-Owes fresh r m n g s h.3 h.4
message-Owes now fresh close_room s h = close-Owes _ _ s
message-Owes now fresh (join_room r) s h = join-Owes _ now r s
message-Owes now fresh (ping ts) s h = tt
message-Owes now fresh (upnp_mapped e t) s h = tt

-- The identifier that the work may draw for a room.
abbrev pub draws : Work → Option String
draws (message now fresh m s) = some fresh
draws _ = none

abbrev pub IsAccepted : Work → Type 0
IsAccepted (message now fresh m s) = validate m ≡ ok tt
IsAccepted _ = Unit

pub task-Owes : (w : Work) → IsAccepted w → Owes nothing (one (draws w)) (task_of w)
unfolding task_of cleanup_task
task-Owes (message now fresh m s) h = message-Owes now fresh m s ((validate-ok_iff m).0 h)
task-Owes (ending now s) h = end-Owes _ now s
task-Owes (tick now) h = λ O D a b.
    (nothing, one none, b, remove_all-Owes _ (find_expired now heartbeat_timeout grace_period a))
