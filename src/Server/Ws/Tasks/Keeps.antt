-- ===== src/Server/Ws/Tasks/Keeps.antt =====
-- What is kept by the sections of every task of crates/server/src/ws.rs, given that it is kept by what
-- the sections do.
use war3_battle_tool.Prelude.{
  ℕ, ◌≤◌, ◌≡◌, refl, String, none, some, List, [], ◌∷◌, All, map, arith, by_if, by_option,
  string_eq, leb, is_some, ok,
}
use war3_battle_tool.HashMap as HashMap
use war3_battle_tool.HashMap.{HashMap, get, insert, remove, modify}
use war3_battle_tool.Protocol.War3.{War3Version}
use war3_battle_tool.Protocol.Messages.{
  ClientMessage, register, heartbeat, create_room, close_room, join_room, ping, upnp_mapped,
  validate,
}
use war3_battle_tool.Protocol.Messages.Validate.{IsAcceptable, validate-ok_iff}
use war3_battle_tool.Server.State.{AppState, ConnectedPlayer, Room, mark_disconnected, find_expired}
use war3_battle_tool.Server.Time.{Instant}
use war3_battle_tool.Server.Ws.Loop.{heartbeat_timeout, grace_period}
use war3_battle_tool.Server.Ws.{
  Session, is_barred, new_room, new_player, host_in, host_nothing, hosted, max_total_players,
  max_total_rooms,
}
use war3_battle_tool.Server.Ws.Join.{is_cooling_down, find_players, try_reserve, joined, joined_in}
use war3_battle_tool.Server.Ws.Tasks.{
  Task, over, section, Work, message, ending, tick, task_of, message_task, register_task,
  create_task, close_task, join_task, reserve_task, move_task, remove_task, remove_all_task,
  end_task, cleanup_task, enter_player, change_player, open_room, drop_room, vacate, reserve,
  settle, forget_player,
}

-- A message is one that `validate` accepts, and `F` holds of the identifier that it draws.
abbrev pub IsAdmitted : (String → Type 0) → Work → Type 0
IsAdmitted F (message now fresh m s) = (validate m ≡ ok tt) × F fresh
IsAdmitted F _ = Unit

-- `F` holds of the identifiers that may be drawn for a new room.
module _ (P : AppState → Type 0) (F : String → Type 0) where
  -- Each section of the task keeps `P`, in whatever state it comes.
  abbrev pub Keeps : Task → Type 0
  Keeps over = Unit
  Keeps (section f next) = (a : AppState) → P a → P (f a) × Keeps (next a)

  -- What the sections do, one by one. `b` is the state in which the section before has read.
  pub record SectionsKeep : Type 0 where
    pub enters :
        (id : String) (p : ConnectedPlayer) (a : AppState)
        → p.hosting_room ≡ none
        → P a
        → P (enter_player id p a)
    pub changes :
        (id : String) (f : ConnectedPlayer → ConnectedPlayer) (a : AppState)
        → ((p : ConnectedPlayer) → (f p).hosting_room ≡ p.hosting_room)
        → P a
        → P (change_player id f a)
    pub unhosts : (id : String) (a : AppState) → P a → P (change_player id host_nothing a)
    pub hosts :
        (id room_id : String) (a : AppState)
        → F room_id
        → P a
        → P (change_player id (host_in room_id) a)
    pub forgets : (id : String) (a : AppState) → P a → P (forget_player id a)
    pub opens :
        (room_id : String) (r : Room) (a : AppState)
        → F room_id
        → r.current_players ≤ r.max_players
        → r.max_players ≤ 12
        → P a
        → P (open_room room_id r a)
    pub drops :
        (id room_id : String) (b a : AppState)
        → P b
        → hosted (get id b.players) ≡ some room_id
        → P a
        → P (drop_room room_id a)
    pub settles :
        (id : String) (p : ConnectedPlayer) (b a : AppState)
        → P b
        → get id b.players ≡ some p
        → P a
        → P (settle p a)
    pub vacates : (room_id : String) (a : AppState) → P a → P (vacate (some room_id) a)
    pub reserves : (room_id : String) (a : AppState) → P a → P (reserve room_id a)

  module _ (k : SectionsKeep) where
    register-Keeps :
        (now : Instant) (nickname : String) (v : War3Version) (s : Session)
        → Keeps (register_task now nickname v s)
    unfolding register_task new_player
    register-Keeps now nickname v s =
        by_if Keeps s.registered _ _ (λ _. tt)
          (λ _ a h. (
            h,
            by_if Keeps (leb max_total_players (HashMap.len a.players)) _ _ (λ _. tt)
                (λ _ b h_b. (k.enters s.player_id _ b refl h_b, tt)),
          ))

    create-Keeps :
        (room_id room_name map_name : String) (n : ℕ) (gameinfo : List ℕ) (s : Session)
        → F room_id
        → 2 ≤ n
        → n ≤ 12
        → Keeps (create_task room_id room_name map_name n gameinfo s)
    unfolding create_task new_room
    create-Keeps room_id room_name map_name n gameinfo s fresh low high =
        by_if Keeps (is_barred s) _ _ (λ _. tt)
          (λ _ a h. (
            h,
            by_option Keeps (get s.player_id a.players) _ _ (λ _. tt)
                (λ p _.
                  by_if Keeps (is_some p.hosting_room) _ _ (λ _. tt)
                    (λ _ a' h'. (
                      h',
                      by_if Keeps (leb max_total_rooms (HashMap.len a'.rooms)) _ _ (λ _. tt)
                          (λ _ b h_b. (
                            k.opens room_id _ b fresh (omega arith) high h_b,
                            λ c h_c. (k.hosts s.player_id room_id c fresh h_c, tt),
                          )),
                    ))),
          ))

    close-Keeps : (s : Session) → Keeps (close_task s)
    unfolding close_task
    close-Keeps s =
        by_if Keeps (is_barred s) _ _ (λ _. tt)
          (λ _ a h. (
            k.unhosts s.player_id a h,
            by_option Keeps (hosted (get s.player_id a.players)) _ _ (λ _. tt)
                (λ room_id at b h_b. (k.drops s.player_id room_id a b h at h_b, tt)),
          ))

    move-Keeps : (player_id room_id : String) → Keeps (move_task player_id room_id)
    unfolding move_task
    move-Keeps player_id room_id a h = (
      k.changes player_id (joined_in room_id) a (λ p. refl) h,
      by_option Keeps (joined (get player_id a.players)) _ _ (λ _. tt)
          (λ old _ b h_b. (k.vacates old b h_b, tt)),
    )

    reserve-Keeps : (player_id room_id : String) → Keeps (reserve_task player_id room_id)
    unfolding reserve_task
    reserve-Keeps player_id room_id a h = (
      k.reserves room_id a h,
      by_if Keeps (try_reserve room_id a.rooms).1 _ _ (λ _. move-Keeps player_id room_id) (λ _. tt),
    )

    join-Keeps : (now : Instant) (room_id : String) (s : Session) → Keeps (join_task now room_id s)
    unfolding join_task
    join-Keeps now room_id s =
        by_if Keeps (is_barred s) _ _ (λ _. tt)
          (λ _.
            by_if Keeps (is_cooling_down now s) _ _ (λ _. tt)
              (λ _ a h. (
                h,
                by_option Keeps (get room_id a.rooms) _ _ (λ _. tt)
                    (λ r _ b h_b. (
                      h_b,
                      by_option Keeps
                          (find_players s.player_id r.host_player_id r.war3_version b.players) _ _
                          (λ _. tt)
                          (λ found _.
                            by_option Keeps found _ _ (λ _. tt)
                              (λ _ _. reserve-Keeps s.player_id room_id)),
                    )),
              )))

    remove-Keeps : (id : String) (rest : Task) → Keeps rest → Keeps (remove_task id rest)
    unfolding remove_task
    remove-Keeps id rest keeps a h = (
      k.forgets id a h,
      by_option Keeps (get id a.players) _ _ (λ _. keeps)
          (λ p at b h_b. (k.settles id p a b h at h_b, keeps)),
    )

    remove_all-Keeps : (ids : List String) → Keeps (remove_all_task ids)
    unfolding remove_all_task
    remove_all-Keeps [] = tt
    remove_all-Keeps (id ∷ ids) = remove-Keeps id (remove_all_task ids) (remove_all-Keeps ids)

    end-Keeps : (now : Instant) (s : Session) → Keeps (end_task now s)
    unfolding end_task mark_disconnected
    end-Keeps now s =
        by_if Keeps s.registered _ _
          (λ _.
            by_if Keeps s.is_web_viewer _ _ (λ _. remove-Keeps s.player_id over tt)
              (λ _ a h. (k.changes s.player_id _ a (λ p. refl) h, tt)))
          (λ _. tt)

    message-Keeps :
        (now : Instant) (fresh : String) (m : ClientMessage) (s : Session)
        → F fresh
        → IsAcceptable m
        → Keeps (message_task now fresh m s)
    unfolding message_task
    message-Keeps now fresh (register nickname v c) s f h = register-Keeps now nickname v s
    message-Keeps now fresh heartbeat s f h =
        λ a h_a. (k.changes s.player_id _ a (λ p. refl) h_a, tt)
    message-Keeps now fresh (create_room r m n g) s f h = create-Keeps fresh r m n g s f h.3 h.4
    message-Keeps now fresh close_room s f h = close-Keeps s
    message-Keeps now fresh (join_room r) s f h = join-Keeps now r s
    message-Keeps now fresh (ping ts) s f h = tt
    message-Keeps now fresh (upnp_mapped e t) s f h = tt

    task-Keeps : (w : Work) → IsAdmitted F w → Keeps (task_of w)
    unfolding task_of cleanup_task
    task-Keeps (message now fresh m s) h =
        message-Keeps now fresh m s h.1 ((validate-ok_iff m).0 h.0)
    task-Keeps (ending now s) h = end-Keeps now s
    task-Keeps (tick now) h =
        λ a h_a. (h_a, remove_all-Keeps (find_expired now heartbeat_timeout grace_period a))

    pub tasks-Keep : (works : List Work) → All (IsAdmitted F) works → All Keeps (map task_of works)
    tasks-Keep [] h = tt
    tasks-Keep (w ∷ works) h = (task-Keeps w h.0, tasks-Keep works h.1)
