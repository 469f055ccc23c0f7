-- ===== src/Server/Ws/Tasks.antt =====
-- What crates/server/src/ws.rs and the cleanup of crates/server/src/main.rs do to `AppState`, by the
-- sections in which they hold one of its locks. Between two sections of a task those of any other task
-- may come. Sections that only read in order to send are left out.
pub mod Rooms
pub mod Keeps
pub mod Interleaved
pub mod Orphan
pub mod Ledger
pub mod Balance
pub mod Owes
pub mod Joining
pub mod Debts
pub mod Places
pub mod Within
pub mod Alone
use war3_battle_tool.Prelude.{
  ℕ, zero, suc, String, Bool, true, false, Option, none, some, List, [], ◌∷◌, leb, not, ◌==◌,
  is_some, if◌then◌else◌, string_eq, map,
}
use war3_battle_tool.HashMap as HashMap
use war3_battle_tool.HashMap.{get, insert, remove, modify}
use war3_battle_tool.Protocol.War3.{War3Version}
use war3_battle_tool.Protocol.Messages.{
  ClientMessage, register, heartbeat, create_room, close_room, join_room, ping, upnp_mapped,
}
use war3_battle_tool.Server.State.{
  AppState, ConnectedPlayer, Room, leave_room, remove_room, mark_disconnected, find_expired,
}
use war3_battle_tool.Server.Time.{Instant}
use war3_battle_tool.Server.Ws.{
  Session, is_barred, new_player, new_room, host_in, host_nothing, hosted, max_total_players,
  max_total_rooms,
}
use war3_battle_tool.Server.Ws.Join.{is_cooling_down, find_players, try_reserve, joined, joined_in}
use war3_battle_tool.Server.Ws.Loop.{heartbeat_timeout, grace_period}

-- A section writes the state that it finds, and what comes next depends on what it read.
pub data Task : Type 0 where
  over : Task
  section : (AppState → AppState) → (AppState → Task) → Task

-- A section that only reads.
abbrev pub reads : (AppState → Task) → Task
reads next = section (λ a. a) next

-- A section after which the task is over.
abbrev pub writes : (AppState → AppState) → Task
writes f = section f (λ _. over)

abbrev pub enter_player : String → ConnectedPlayer → AppState → AppState
enter_player id p a = record a { players = insert id p a.players }

abbrev pub change_player : String → (ConnectedPlayer → ConnectedPlayer) → AppState → AppState
change_player id f a = record a { players = modify id f a.players }

abbrev pub forget_player : String → AppState → AppState
forget_player id a = record a { players = remove id a.players }

abbrev pub open_room : String → Room → AppState → AppState
open_room room_id r a = record a { rooms = insert room_id r a.rooms }

abbrev pub drop_room : String → AppState → AppState
drop_room room_id a = record a { rooms = remove room_id a.rooms }

abbrev pub vacate : Option String → AppState → AppState
vacate room_id a = record a { rooms = leave_room room_id a.rooms }

abbrev pub reserve : String → AppState → AppState
reserve room_id a = record a { rooms = (try_reserve room_id a.rooms).0 }

abbrev pub settle : ConnectedPlayer → AppState → AppState
settle p a = record a { rooms = leave_room p.joined_room (remove_room p.hosting_room a.rooms) }

unfoldable pub register_task : Instant → String → War3Version → Session → Task
unfolding new_player
register_task now nickname war3_version s =
    if s.registered
    then over
    else reads λ a.
      if leb max_total_players (HashMap.len a.players)
      then over
      else writes (enter_player s.player_id (new_player now nickname war3_version s))

abbrev pub open_task : String → Room → String → Task
open_task room_id r player_id =
    section (open_room room_id r) (λ _. writes (change_player player_id (host_in room_id)))

unfoldable pub create_task : String → String → String → ℕ → List ℕ → Session → Task
unfolding new_room
create_task room_id room_name map_name max_players gameinfo s =
    if is_barred s
    then over
    else reads λ a. elim (get s.player_id a.players) [
      | none ↦ over
      | some p ↦
          if is_some p.hosting_room
          then over
          else reads λ a'.
            if leb max_total_rooms (HashMap.len a'.rooms)
            then over
            else open_task room_id
                (new_room room_id room_name map_name max_players gameinfo s.player_id p) s.player_id
    ]

unfoldable pub close_task : Session → Task
close_task s =
    if is_barred s
    then over
    else section (change_player s.player_id host_nothing) λ a.
      elim (hosted (get s.player_id a.players)) [
        | none ↦ over
        | some room_id ↦ writes (drop_room room_id)
      ]

-- Step 5 of `JoinRoom`: `replace` gives the room that the player leaves.
unfoldable pub move_task : String → String → Task
move_task player_id room_id = section (change_player player_id (joined_in room_id)) λ a.
    elim (joined (get player_id a.players)) [ none ↦ over | some old ↦ writes (vacate (some old)) ]

-- Step 3, and the rest where it succeeds.
unfoldable pub reserve_task : String → String → Task
unfolding move_task try_reserve
reserve_task player_id room_id =
    section (reserve room_id)
      λ a. if (try_reserve room_id a.rooms).1 then move_task player_id room_id else over

unfoldable pub join_task : Instant → String → Session → Task
unfolding is_cooling_down find_players reserve_task
join_task now room_id s =
    if is_barred s
    then over
    else if is_cooling_down now s
    then over
    else reads λ a. elim (get room_id a.rooms) [
      | none ↦ over
      | some r ↦ reads λ a'.
          elim (find_players s.player_id r.host_player_id r.war3_version a'.players) [
            | none ↦ over
            | some none ↦ over
            | some (some _) ↦ reserve_task s.player_id room_id
          ]
    ]

-- `remove_player`, and then the rest.
unfoldable pub remove_task : String → Task → Task
remove_task player_id rest =
    section (forget_player player_id)
      λ a. elim (get player_id a.players) [ none ↦ rest | some p ↦ section (settle p) (λ _. rest) ]

unfoldable pub remove_all_task : List String → Task
unfolding remove_task
remove_all_task [] = over
remove_all_task (id ∷ ids) = remove_task id (remove_all_task ids)

unfoldable pub message_task : Instant → String → ClientMessage → Session → Task
unfolding register_task create_task close_task join_task
message_task now fresh (register nickname version _) s = register_task now nickname version s
message_task now fresh heartbeat s =
    writes (change_player s.player_id (λ p. record p { last_heartbeat = now }))
message_task now fresh (create_room room_name map_name max_players gameinfo) s =
    create_task fresh room_name map_name max_players gameinfo s
message_task now fresh close_room s = close_task s
message_task now fresh (join_room room_id) s = join_task now room_id s
message_task now fresh (ping ts) s = over
message_task now fresh (upnp_mapped external_addr tunnel_token) s = over

-- The end of `handle_socket`.
unfoldable pub end_task : Instant → Session → Task
unfolding remove_task mark_disconnected
end_task now s =
    if s.registered
    then if s.is_web_viewer
      then remove_task s.player_id over
      else writes (mark_disconnected s.player_id now)
    else over

-- A tick of `spawn_cleanup_task`.
unfoldable pub cleanup_task : Instant → Task
unfolding find_expired remove_all_task
cleanup_task now = reads λ a. remove_all_task (find_expired now heartbeat_timeout grace_period a)

-- What the server works on: a message that `validate` has accepted, the end of a connection, a tick.
pub data Work : Type 0 where
  message : Instant → String → ClientMessage → Session → Work
  ending : Instant → Session → Work
  tick : Instant → Work

unfoldable pub task_of : Work → Task
unfolding message_task end_task cleanup_task
task_of (message now fresh m s) = message_task now fresh m s
task_of (ending now s) = end_task now s
task_of (tick now) = cleanup_task now

-- A task that nothing interrupts.
unfoldable pub finish : Task → AppState → AppState
finish over a = a
finish (section f next) a = finish (next a) (f a)

-- One section of a task, if it has one left.
abbrev pub resume : Task → AppState → Task × AppState
resume over a = (over, a)
resume (section f next) a = (next a, f a)

-- One section of the task that the schedule names.
unfoldable pub resume_nth : ℕ → List Task → AppState → List Task × AppState
resume_nth i [] a = ([], a)
resume_nth zero (t ∷ tasks) a = let (t', a') = resume t a in (t' ∷ tasks, a')
resume_nth (suc i) (t ∷ tasks) a = let (tasks', a') = resume_nth i tasks a in (t ∷ tasks', a')

-- Any interleaving: which task takes the next section.
unfoldable pub interleave : List ℕ → List Task → AppState → List Task × AppState
unfolding resume_nth
interleave [] tasks a = (tasks, a)
interleave (i ∷ schedule) tasks a =
    let (tasks', a') = resume_nth i tasks a in interleave schedule tasks' a'
