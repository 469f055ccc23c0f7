-- ===== src/Server/Ws/Join/Dropped.antt =====
-- The handler of `JoinRoom` in crates/server/src/ws.rs that is dropped between Step 3 and Step 5: the
-- `select!` of `handle_socket` drops it where it waits for a lock, when the send task ends, and the
-- connection is then marked and later removed.
use war3_battle_tool.Prelude.{
  ◌+◌, ◌<◌, ◌≡◌, String, true, false, Option, none, some, arith, string_eq, eq_iff, bit, refl,
  subst, sym,
}
use war3_battle_tool.HashMap.{HashMap, get, modify, remove, count}
use war3_battle_tool.HashMap.Laws.{get-modify, get-remove, remove-modify, modify_absent}
use war3_battle_tool.HashMap.Unique.{HasUniqueKeys, count-split}
use war3_battle_tool.Server.State.{
  AppState, ConnectedPlayer, Room, leave, leave_room, remove_room, mark_disconnected, remove_player,
}
use war3_battle_tool.Server.State.Consistent.{IsSound, is_in, names}
use war3_battle_tool.Server.Time.{Instant}
use war3_battle_tool.Server.Ws.Join.{enter, try_reserve, move_player, joined_in, joined}

-- Step 3, and then what becomes of the connection: the mark, and the removal once the time for
-- coming back has passed.
unfoldable pub drop_join : String → String → Instant → AppState → AppState
unfolding try_reserve mark_disconnected remove_player
drop_join id room_id now a =
    remove_player id
      (mark_disconnected id now (record a { rooms = (try_reserve room_id a.rooms).0 }))

get-leave_room_other :
    (o : Option String) (room_id : String) (rooms : HashMap String Room)
    → names o room_id ≡ false
    → get room_id (leave_room o rooms) ≡ get room_id rooms
unfolding leave_room
get-leave_room_other none room_id rooms h = refl
get-leave_room_other (some j) room_id rooms h = ground (arith, get-modify j room_id leave rooms)

get-remove_room_other :
    (o : Option String) (room_id : String) (rooms : HashMap String Room)
    → names o room_id ≡ false
    → get room_id (remove_room o rooms) ≡ get room_id rooms
unfolding remove_room
get-remove_room_other none room_id rooms h = refl
get-remove_room_other (some j) room_id rooms h = ground (arith, get-remove j room_id rooms)

move_player-absent :
    (id room_id : String) (a : AppState) → get id a.players ≡ none → move_player id room_id a ≡ a
unfolding move_player leave_room
move_player-absent id room_id a gone = λ k. record a {
  players = modify_absent id (joined_in room_id) a.players gone k;
  rooms = leave_room (joined (gone k)) a.rooms;
}

module _ (id room_id : String) (now : Instant) (a : AppState) (p : ConnectedPlayer) (r : Room)
    (found : get id a.players ≡ some p) (room_found : get room_id a.rooms ≡ some r)
    (has_slot : r.current_players < r.max_players) where
  drop_join-eq : drop_join id room_id now a ≡ (record a {
    players = remove id a.players;
    rooms = leave_room p.joined_room (remove_room p.hosting_room (modify room_id enter a.rooms));
  })
  unfolding drop_join try_reserve mark_disconnected remove_player
  drop_join-eq =
      let reserved : try_reserve room_id a.rooms ≡ (modify room_id enter a.rooms, true) =
        ground arith in
      ground (
        arith,
        reserved,
        get-modify id id (λ q. record q { disconnected_at = some now }) a.players,
        remove-modify id (λ q. record q { disconnected_at = some now }) a.players,
        eq_iff id id,
      )

  -- Step 5 of a join whose player has been removed.
  late : move_player id room_id (drop_join id room_id now a) ≡ drop_join id room_id now a
  late =
      subst (λ c. get id c.players ≡ none → move_player id room_id c ≡ c) (sym drop_join-eq)
        (move_player-absent id room_id _)
        (subst (λ c. get id c.players ≡ none) (sym drop_join-eq)
          (ground (arith, get-remove id id a.players, eq_iff id id)))

  -- Where a room counts its host and the players in it, and a player who is not in it and does not host
  -- it takes a place and is then removed, before the rest of the join or where that is dropped: the room
  -- still counts one player more than its host and the players in it, and the end of the join, should it
  -- still come, changes nothing.
  pub drop_join-leaks :
      HasUniqueKeys a.players
      → IsSound a room_id r
      → names p.joined_room room_id ≡ false
      → names p.hosting_room room_id ≡ false
      → (r' : Room) × (get room_id (drop_join id room_id now a).rooms ≡ some r')
        × (r'.current_players ≡ 2 + count (is_in room_id) (drop_join id room_id now a).players)
        × (move_player id room_id (drop_join id room_id now a) ≡ drop_join id room_id now a)
  drop_join-leaks u s elsewhere no_host =
      let players : count (is_in room_id) a.players
          ≡ bit (is_in room_id p) + count (is_in room_id) (remove id a.players) =
        count-split (is_in room_id) id p a.players u found in
      let left : get room_id
            (leave_room p.joined_room (remove_room p.hosting_room (modify room_id enter a.rooms)))
          ≡ some (enter r) =
        ground (
          arith,
          get-leave_room_other p.joined_room room_id
              (remove_room p.hosting_room (modify room_id enter a.rooms)) elsewhere,
          get-remove_room_other p.hosting_room room_id (modify room_id enter a.rooms) no_host,
          get-modify room_id room_id enter a.rooms,
          eq_iff room_id room_id,
        ) in
      let (r', at, counts) =
        subst
          (λ b.
            (r' : Room) × (get room_id b.rooms ≡ some r')
            × (r'.current_players ≡ 2 + count (is_in room_id) b.players))
          (sym drop_join-eq) (enter r, left, ground (arith, players, s.occupancy, s.small)) in
      (r', at, counts, late)
