-- ===== src/Server/State/Consistent/Players.antt =====
-- Changes of players that touch no room.
use war3_battle_tool.Prelude.{◌+◌, ◌≡◌, sym, ap, ◌∙◌, String, arith, ◌==◌, string_eq, if◌then◌else◌}
use war3_battle_tool.HashMap.{modify}
use war3_battle_tool.HashMap.Laws.{modified_before, modified_after, count-modify_same}
use war3_battle_tool.HashMap.Unique.{modify-HasUniqueKeys}
use war3_battle_tool.Server.State.{AppState, ConnectedPlayer, Room}
use war3_battle_tool.Server.State.Consistent.{IsConsistent, IsSound, is_in}

abbrev pub KeepsRooms : (ConnectedPlayer → ConnectedPlayer) → Type 0
KeepsRooms f =
    (p : ConnectedPlayer)
    → (((f p).player_id ≡ p.player_id)
        × ((f p).hosting_room ≡ p.hosting_room)
        × ((f p).joined_room ≡ p.joined_room))

module _ (id : String) (f : ConnectedPlayer → ConnectedPlayer) (keeps : KeepsRooms f) (a : AppState)
    (v : IsConsistent a) where
  abbrev updated : AppState
  updated = record a { players = modify id f a.players }

  updated-IsSound : (room_id : String) (r : Room) → IsSound a room_id r → IsSound updated room_id r
  updated-IsSound room_id r s = record {
    keyed = s.keyed;
    host = if id == r.host_player_id then f s.host else s.host;
    host_found = modified_after id r.host_player_id f a.players s.host s.host_found;
    host_hosts = ground (arith, keeps s.host, s.host_hosts);
    occupancy =
        s.occupancy
        ∙ ap (λ n. 1 + n)
            (sym (count-modify_same (is_in room_id) id f a.players (λ p. ground (arith, keeps p))));
    not_overfull = s.not_overfull;
    small = s.small;
  }

  -- A change that keeps a player's id and rooms.
  pub update_player-IsConsistent : IsConsistent (record a { players = modify id f a.players })
  update_player-IsConsistent = record {
    players_unique = modify-HasUniqueKeys id f a.players v.players_unique;
    rooms_unique = v.rooms_unique;
    player_keyed = λ j p h.
        let (q, found, same) = modified_before id j f a.players p h in
        ground (arith, keeps q, v.player_keyed j q found);
    room_sound = λ room_id r h. updated-IsSound room_id r (v.room_sound room_id r h);
    room_of_host = λ j p room_id h hosts.
        let (q, found, same) = modified_before id j f a.players p h in
        v.room_of_host j q room_id found (ground (arith, keeps q));
  }
