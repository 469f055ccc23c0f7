-- ===== src/Server/Ws/Join/Occupancy.antt =====
-- A player enters a room and leaves the one before: every room still counts its players.
use war3_battle_tool.Prelude.{
  ◌-◌, ◌<◌, ◌≡◌, String, some, arith, ◌==◌, string_eq, eq_iff, if◌then◌else◌, bit,
}
use war3_battle_tool.HashMap.{get, modify}
use war3_battle_tool.HashMap.Laws.{modified_before, modified_after}
use war3_battle_tool.HashMap.Unique.{modify-HasUniqueKeys, count-modify}
use war3_battle_tool.Server.State.{AppState, ConnectedPlayer, Room, leave_room}
use war3_battle_tool.Server.State.Consistent.{IsConsistent, IsSound, is_in, names}
use war3_battle_tool.Server.State.Consistent.Rooms.{
  SameRoom, left_before, left_after, leave_room-HasUniqueKeys,
}
use war3_battle_tool.Server.Ws.Join.{enter, joined_in}

module _ (id room_id : String) (p : ConnectedPlayer) (target : Room) (a : AppState)
    (v : IsConsistent a) (found : get id a.players ≡ some p)
    (room_found : get room_id a.rooms ≡ some target)
    (has_slot : target.current_players < target.max_players) where
  abbrev entered : AppState
  entered = record a {
    players = modify id (joined_in room_id) a.players;
    rooms = leave_room p.joined_room (modify room_id enter a.rooms);
  }

  -- A room before, after the increment, and after the player has left the old room.
  entered_room :
      (rid : String) (r r1 r' : Room)
      → IsSound a rid r
      → get rid a.rooms ≡ some r
      → r1 ≡ (if room_id == rid then enter r else r)
      → SameRoom r1 r'
      → r'.current_players ≡ r1.current_players - bit (names p.joined_room rid)
      → IsSound entered rid r'
  entered_room rid r r1 r' s at_rid step same current =
      let balance =
        count-modify (is_in rid) id (joined_in room_id) p a.players v.players_unique found in
      record {
        keyed = ground (arith, s.keyed, same.0);
        host = if id == r'.host_player_id then joined_in room_id s.host else s.host;
        host_found =
            modified_after id r'.host_player_id (joined_in room_id) a.players s.host
              (ground (arith, same.1, step, s.host_found));
        host_hosts = ground (arith, s.host_hosts);
        occupancy = ground (
          arith,
          balance,
          s.occupancy,
          s.not_overfull,
          s.small,
          eq_iff room_id rid,
          room_found,
          at_rid,
          has_slot,
        );
        not_overfull =
            ground
              (arith, s.not_overfull, same.2, eq_iff room_id rid, room_found, at_rid, has_slot);
        small = ground (arith, s.small, same.2);
      }

  entered-IsSound :
      (rid : String) (r' : Room) → get rid entered.rooms ≡ some r' → IsSound entered rid r'
  entered-IsSound rid r' h =
      let (r1, kept, same, current) =
        left_before p.joined_room rid (modify room_id enter a.rooms) r' h in
      let (r, at_rid, step) = modified_before room_id rid enter a.rooms r1 kept in
      entered_room rid r r1 r' (v.room_sound rid r at_rid) at_rid step same current

  entered_host :
      (j : String) (q : ConnectedPlayer) (rid : String)
      → get j entered.players ≡ some q
      → q.hosting_room ≡ some rid
      → (r : Room) × (get rid entered.rooms ≡ some r) × (r.host_player_id ≡ j)
  entered_host j q rid h hosts =
      let (o, before, same) = modified_before id j (joined_in room_id) a.players q h in
      let (r, at_rid, is_host) = v.room_of_host j o rid before (ground arith) in
      let stepped = modified_after room_id rid enter a.rooms r at_rid in
      let (r', found', same') =
        left_after p.joined_room rid (modify room_id enter a.rooms) _ stepped in
      (r', found', ground arith)

  -- Entering a room that has a slot, and leaving the old one.
  pub entered-IsConsistent : IsConsistent (record a {
    players = modify id (joined_in room_id) a.players;
    rooms = leave_room p.joined_room (modify room_id enter a.rooms);
  })
  entered-IsConsistent = record {
    players_unique = modify-HasUniqueKeys id (joined_in room_id) a.players v.players_unique;
    rooms_unique =
        leave_room-HasUniqueKeys _ _ (modify-HasUniqueKeys room_id enter a.rooms v.rooms_unique);
    player_keyed = λ j q h.
        let (o, before, same) = modified_before id j (joined_in room_id) a.players q h in
        ground (arith, v.player_keyed j o before);
    room_sound = entered-IsSound;
    room_of_host = entered_host;
  }
