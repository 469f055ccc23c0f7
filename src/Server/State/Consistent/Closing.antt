-- ===== src/Server/State/Consistent/Closing.antt =====
-- A host closes the room.
use war3_battle_tool.Prelude.{
  ◌+◌, ◌≡◌, ◌≢◌, refl, sym, ap, ◌∙◌, String, none, some, arith, string_eq, eq_iff,
}
use war3_battle_tool.HashMap.{get, modify, remove}
use war3_battle_tool.HashMap.Laws.{get-modify, get-remove, modified_before, count-modify_same}
use war3_battle_tool.HashMap.Unique.{modify-HasUniqueKeys, remove-HasUniqueKeys}
use war3_battle_tool.Server.State.{AppState, ConnectedPlayer, Room}
use war3_battle_tool.Server.State.Consistent.{IsConsistent, IsSound, is_in}

abbrev hosting_none : ConnectedPlayer → ConnectedPlayer
hosting_none p = record p { hosting_room = none }

module _ (id room_id : String) (p : ConnectedPlayer) (a : AppState) (v : IsConsistent a)
    (found : get id a.players ≡ some p) (hosts : p.hosting_room ≡ some room_id) where
  abbrev closed : AppState
  closed = record a { rooms = remove room_id a.rooms; players = modify id hosting_none a.players }

  other_room-IsSound :
      (rid : String) (r : Room) → room_id ≢ rid → get rid a.rooms ≡ some r → IsSound closed rid r
  other_room-IsSound rid r other h = record {
    keyed = s.keyed;
    host = s.host;
    host_found = ground (
      arith,
      get-modify id r.host_player_id hosting_none a.players,
      eq_iff id r.host_player_id,
      s.host_found,
      s.host_hosts,
      other,
    );
    host_hosts = s.host_hosts;
    occupancy =
        s.occupancy
        ∙ ap (λ n. 1 + n)
            (sym (count-modify_same (is_in rid) id hosting_none a.players (λ q. refl)));
    not_overfull = s.not_overfull;
    small = s.small;
  }
    where
      s : IsSound a rid r
      s = v.room_sound rid r h

  -- The host of a room gives it up, and the room goes.
  pub close_room-IsConsistent :
      IsConsistent
        (record a { rooms = remove room_id a.rooms; players = modify id hosting_none a.players })
  close_room-IsConsistent = record {
    players_unique = modify-HasUniqueKeys id hosting_none a.players v.players_unique;
    rooms_unique = remove-HasUniqueKeys room_id a.rooms v.rooms_unique;
    player_keyed = λ j q h.
        let (o, before, same) = modified_before id j hosting_none a.players q h in
        ground (arith, v.player_keyed j o before);
    room_sound = λ rid r h.
        other_room-IsSound rid r
          (ground (arith, get-remove room_id rid a.rooms, eq_iff room_id rid))
          (ground (arith, get-remove room_id rid a.rooms));
    room_of_host = λ j q rid h hosts'.
        let (o, before, same) = modified_before id j hosting_none a.players q h in
        let (r, room_found, is_host) = v.room_of_host j o rid before (ground arith) in
        let (r', room_found', is_host') = v.room_of_host id p room_id found hosts in
        (
          r,
          ground (
            arith,
            get-remove room_id rid a.rooms,
            eq_iff room_id rid,
            eq_iff id j,
            room_found,
            room_found',
            is_host,
            is_host',
            same,
            hosts',
          ),
          is_host,
        );
  }
