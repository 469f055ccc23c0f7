-- ===== src/Server/Ws/Keeps/Joining.antt =====
-- Joining a room keeps the state valid: the slot that is reserved is the slot of the joiner.
use war3_battle_tool.Prelude.{
  ℕ, ◌<◌, ◌≡◌, refl, String, true, Option, none, some, List, string_eq, arith, if◌then◌else◌,
  Option-cases, inl, inr,
}
use war3_battle_tool.HashMap.{HashMap, get, modify, len}
use war3_battle_tool.HashMap.Laws.{len-modify}
use war3_battle_tool.Protocol.War3.{War3Version, version_eq}
use war3_battle_tool.Protocol.Messages.{join_failure}
use war3_battle_tool.Server.State.{ConnectedPlayer, Room, leave, leave_room}
use war3_battle_tool.Server.Time.{Instant}
use war3_battle_tool.Server.Ws.{Env, Session, Server, send, broadcast, set_rooms, is_barred}
use war3_battle_tool.Server.Ws.Join.{
  is_cooling_down, find_players, enter, try_reserve, joined_in, move_player, announce,
  complete_join, handle_join_room,
}
use war3_battle_tool.Server.Ws.Join.Occupancy.{entered-IsConsistent}
use war3_battle_tool.Server.Ws.Keeps.{IsValid, Keeps, keeps, Keeps-all, Keeps-if, Keeps-option}
use war3_battle_tool.Server.Ws.Keeps.Players.{absent-modify}

pub len-leave_room :
    (o : Option String) (rooms : HashMap String Room) → len (leave_room o rooms) ≡ len rooms
unfolding leave_room
len-leave_room none rooms = refl
len-leave_room (some room_id) rooms = len-modify room_id leave rooms

-- A reservation that succeeds finds the room with a slot, and takes it.
pub try_reserve_lem :
    (room_id : String) (rooms : HashMap String Room)
    → (try_reserve room_id rooms).1 ≡ true
    → (r : Room) × (get room_id rooms ≡ some r)
      × (r.current_players < r.max_players)
      × ((try_reserve room_id rooms).0 ≡ modify room_id enter rooms)
unfolding try_reserve
try_reserve_lem room_id rooms h = elim (Option-cases (get room_id rooms)) [
  | inl missing ↦ absurd (ground arith)
  | inr (r, found) ↦ (r, found, ground arith, ground arith)
]

pub find_players-joiner :
    (id host_id : String) (version : War3Version) (players : HashMap String ConnectedPlayer)
    (joiner host : ConnectedPlayer)
    → find_players id host_id version players ≡ some (some (joiner, host))
    → get id players ≡ some joiner
unfolding find_players
find_players-joiner id host_id version players joiner host h = ground arith

module _ (env : Env) (now : Instant) (token room_id : String) (s : Session) (w : Server)
    (v : IsValid w.app) where
  moved-IsValid :
      (joiner : ConnectedPlayer) (rooms : HashMap String Room) (r : Room)
      → get s.player_id w.app.players ≡ some joiner
      → get room_id w.app.rooms ≡ some r
      → r.current_players < r.max_players
      → rooms ≡ modify room_id enter w.app.rooms
      → IsValid (move_player s.player_id room_id (record w.app { rooms = rooms }))
  unfolding move_player
  moved-IsValid joiner rooms r found room_found slot same =
      rw (found, same)
        (record {
          consistent =
              entered-IsConsistent s.player_id room_id joiner r w.app v.consistent found room_found
                slot;
          players_bounded =
              omega (
                arith,
                len-modify s.player_id (joined_in room_id) w.app.players,
                v.players_bounded,
              );
          rooms_bounded = omega (
            arith,
            len-leave_room joiner.joined_room (modify room_id enter w.app.rooms),
            len-modify room_id enter w.app.rooms,
            v.rooms_bounded,
          );
        })

  complete_join-Keeps :
      (gameinfo : List ℕ) (joiner host : ConnectedPlayer)
      → get s.player_id w.app.players ≡ some joiner
      → (try_reserve room_id w.app.rooms).1 ≡ true
      → Keeps s w (
          complete_join env now token room_id gameinfo joiner host s
            (set_rooms (try_reserve room_id w.app.rooms).0 w))
  unfolding complete_join announce send broadcast move_player
  complete_join-Keeps gameinfo joiner host found reserved =
      let (r, room_found, slot, same) = try_reserve_lem room_id w.app.rooms reserved in
      keeps s _ w _ refl refl refl refl (moved-IsValid joiner _ r found room_found slot same)
        (λ j. absent-modify s.player_id j (joined_in room_id) w.app)

  with_players-Keeps :
      (r : Room) (o : Option (Option (ConnectedPlayer × ConnectedPlayer)))
      → find_players s.player_id r.host_player_id r.war3_version w.app.players ≡ o
      → Keeps s w (elim o [
        | none ↦ (s, w)
        | some none ↦ (s, send s.tx join_failure w)
        | some (some (joiner, host)) ↦
            let (rooms, reserved) = try_reserve room_id w.app.rooms in
            if reserved
            then complete_join env now token room_id r.gameinfo joiner host s (set_rooms rooms w)
            else (s, send s.tx join_failure w)
      ])
  unfolding send
  with_players-Keeps r none h = Keeps-all s w w refl v
  with_players-Keeps r (some none) h = Keeps-all s w _ refl v
  with_players-Keeps r (some (some (joiner, host))) h =
      Keeps-if s w (try_reserve room_id w.app.rooms).1 _ _
        (complete_join-Keeps r.gameinfo joiner host (find_players-joiner _ _ _ _ joiner host h))
        (λ full. Keeps-all s w _ refl v)

  pub handle_join_room-Keeps : Keeps s w (handle_join_room env now token room_id s w)
  unfolding handle_join_room send
  handle_join_room-Keeps =
      Keeps-if s w (is_barred s) _ _ (λ barred. Keeps-all s w _ refl v)
        (λ known.
          Keeps-if s w (is_cooling_down now s) _ _ (λ hot. Keeps-all s w _ refl v)
            (λ cool.
              Keeps-option s w (get room_id w.app.rooms) _ _ (λ missing. Keeps-all s w _ refl v)
                (λ r found. with_players-Keeps r _ refl)))
