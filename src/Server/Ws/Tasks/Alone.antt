-- ===== src/Server/Ws/Tasks/Alone.antt =====
-- Handlers of crates/server/src/ws.rs that nothing interrupts: what they do to `AppState` is their
-- sections, one after the other.
use war3_battle_tool.Prelude.{
  ℕ, ◌≡◌, refl, sym, String, Option, none, some, List, [], ◌∷◌, arith, ap, ◌∙◌, string_eq,
}
use war3_battle_tool.HashMap.{get}
use war3_battle_tool.HashMap.Laws.{remove_absent}
use war3_battle_tool.Protocol.War3.{War3Version}
use war3_battle_tool.Protocol.Messages.{
  ClientMessage, register, heartbeat, create_room, close_room, join_room, ping, upnp_mapped,
}
use war3_battle_tool.Server.State.{
  AppState, ConnectedPlayer, leave_room, remove_player, find_expired,
}
use war3_battle_tool.Server.Time.{Instant}
use war3_battle_tool.Server.Ws.{
  Env, Session, Server, send, broadcast, handle_register, handle_create_room, handle_close_room,
  handle_heartbeat, handle_ping,
}
use war3_battle_tool.Server.Ws.Join.{handle_join_room, move_player}
use war3_battle_tool.Server.Ws.Loop.{
  heartbeat_timeout, grace_period, dispatch, on_end, on_cleanup_tick, remove_players,
}
use war3_battle_tool.Server.Ws.Upnp.{handle_upnp_mapped}
use war3_battle_tool.Server.Ws.Expiry.{on_cleanup_tick-app}
use war3_battle_tool.Server.Ws.Tasks.{
  Task, Work, message, ending, tick, task_of, over, section, settle, finish, register_task,
  create_task, close_task, join_task, move_task, remove_task, remove_all_task, end_task,
  cleanup_task, message_task, forget_player,
}

finish-remove :
    (id : String) (rest : Task) (a : AppState)
    → finish (remove_task id rest) a ≡ finish rest (remove_player id a)
unfolding finish remove_task remove_player
finish-remove id rest a = removed (get id a.players) refl
  where
    removed :
        (o : Option ConnectedPlayer)
        → get id a.players ≡ o
        → finish
            (elim o as (λ _. Task) [ none ↦ rest | some p ↦ section (settle p) (λ _. rest) ])
            (forget_player id a)
          ≡ finish rest
              (elim o as (λ _. AppState) [ none ↦ a | some p ↦ settle p (forget_player id a) ])
    removed none absent =
        ap (λ players. finish rest (record a { players = players }))
          (remove_absent id a.players absent)
    removed (some p) found = refl

finish-register :
    (env : Env) (now : Instant) (nickname : String) (v : War3Version) (s : Session) (w : Server)
    → finish (register_task now nickname v s) w.app ≡ (handle_register env now nickname v s w).1.app
unfolding finish register_task handle_register send broadcast
finish-register env now nickname v s w = ground arith

finish-create :
    (room_id room_name map_name : String) (n : ℕ) (gameinfo : List ℕ) (s : Session) (w : Server)
    → finish (create_task room_id room_name map_name n gameinfo s) w.app
      ≡ (handle_create_room room_id room_name map_name n gameinfo s w).1.app
unfolding finish create_task handle_create_room send broadcast
finish-create room_id room_name map_name n gameinfo s w = ground arith

finish-close :
    (s : Session) (w : Server) → finish (close_task s) w.app ≡ (handle_close_room s w).1.app
unfolding finish close_task handle_close_room broadcast
finish-close s w = ground arith

finish-move :
    (id room_id : String) (a : AppState)
    → finish (move_task id room_id) a ≡ move_player id room_id a
unfolding finish move_task move_player leave_room
finish-move id room_id a = ground arith

finish-join :
    (env : Env) (now : Instant) (token room_id : String) (s : Session) (w : Server)
    → finish (join_task now room_id s) w.app ≡ (handle_join_room env now token room_id s w).1.app
unfolding finish join_task handle_join_room send
finish-join env now token room_id s w = ground arith

finish-upnp :
    (env : Env) (addr token : String) (s : Session) (w : Server)
    → (handle_upnp_mapped env addr token s w).1.app ≡ w.app
unfolding handle_upnp_mapped
finish-upnp env addr token s w = ground arith

finish-remove_all :
    (ids : List String) (a : AppState) → finish (remove_all_task ids) a ≡ remove_players ids a
unfolding finish remove_all_task remove_players
finish-remove_all [] a = refl
finish-remove_all (id ∷ ids) a =
    finish-remove id (remove_all_task ids) a ∙ finish-remove_all ids (remove_player id a)

finish-end :
    (now : Instant) (s : Session) (w : Server)
    → finish (end_task now s) w.app ≡ (on_end now s w).app
unfolding finish end_task on_end broadcast
finish-end now s w = ground (arith, finish-remove s.player_id over w.app)

finish-cleanup :
    (now : Instant) (w : Server) → finish (cleanup_task now) w.app ≡ (on_cleanup_tick now w).app
unfolding finish cleanup_task on_cleanup_tick broadcast find_expired
finish-cleanup now w =
    finish-remove_all (find_expired now heartbeat_timeout grace_period w.app) w.app
    ∙ sym (on_cleanup_tick-app now w)

finish-message :
    (env : Env) (now : Instant) (fresh : String) (m : ClientMessage) (s : Session) (w : Server)
    → finish (message_task now fresh m s) w.app ≡ (dispatch env now fresh m s w).1.app
unfolding finish message_task dispatch handle_heartbeat handle_ping send
finish-message env now fresh (register nickname v c) s w = finish-register env now nickname v s w
finish-message env now fresh heartbeat s w = refl
finish-message env now fresh (create_room r m n g) s w = finish-create fresh r m n g s w
finish-message env now fresh close_room s w = finish-close s w
finish-message env now fresh (join_room r) s w = finish-join env now fresh r s w
finish-message env now fresh (ping ts) s w = refl
finish-message env now fresh (upnp_mapped e t) s w = sym (finish-upnp env e t s w)

-- The handlers as one step each.
unfoldable pub do_work : Env → Work → Server → Server
unfolding dispatch on_end on_cleanup_tick
do_work env (message now fresh m s) w = (dispatch env now fresh m s w).1
do_work env (ending now s) w = on_end now s w
do_work env (tick now) w = on_cleanup_tick now w

-- What the handler of a message, the end of a connection or a tick of the cleanup, run as one step, does
-- to `AppState` is what its sections do when no other task comes between them.
finish-task_of :
    (env : Env) (work : Work) (w : Server) → finish (task_of work) w.app ≡ (do_work env work w).app
unfolding do_work task_of
finish-task_of env (message now fresh m s) w = finish-message env now fresh m s w
finish-task_of env (ending now s) w = finish-end now s w
finish-task_of env (tick now) w = finish-cleanup now w
