-- ===== src/Server/Tests/Joins.antt =====
-- A join that is dropped.
use war3_battle_tool.Prelude.{◌≡◌, ◌+◌, refl, [], ◌∷◌, some, none, arith, string_eq}
use war3_battle_tool.HashMap.{get, count}
use war3_battle_tool.Protocol.AddrSafety.{v4}
use war3_battle_tool.Protocol.War3.{v127}
use war3_battle_tool.Server.State.{AppState, ConnectedPlayer, Room}
use war3_battle_tool.Server.State.Consistent.{is_in}
use war3_battle_tool.Server.Ws.Join.{move_player}
use war3_battle_tool.Server.Ws.Join.Dropped.{drop_join, drop_join-leaks}

abbrev room : Room
room = record {
  room_id = "r1";
  host_player_id = "p1";
  host_nickname = "ann";
  room_name = "dota";
  map_name = "maps";
  max_players = 4;
  current_players = 2;
  war3_version = v127;
  gameinfo = [];
}

abbrev owner : ConnectedPlayer
owner = record {
  player_id = "p1";
  nickname = "ann";
  war3_version = v127;
  client_ip = v4 93 184 216 34;
  last_heartbeat = 0;
  tx = 0;
  hosting_room = some "r1";
  joined_room = none;
  disconnected_at = none;
}

abbrev joiner : ConnectedPlayer
joiner = record owner { player_id = "p2"; nickname = "bob"; tx = 1; hosting_room = none }

abbrev opened : Room
opened = record room { current_players = 1 }

abbrev lobby : AppState
lobby = record {
  players = ("p1", owner) ∷ ("p2", joiner) ∷ [];
  rooms = ("r1", opened) ∷ [];
  connections_per_ip = [];
}

drop_join-leaks_example :
    (r' : Room) × (get "r1" (drop_join "p2" "r1" 9 lobby).rooms ≡ some r')
    × (r'.current_players ≡ 2 + count (is_in "r1") (drop_join "p2" "r1" 9 lobby).players)
    × (move_player "p2" "r1" (drop_join "p2" "r1" 9 lobby) ≡ drop_join "p2" "r1" 9 lobby)
unfolding get count
drop_join-leaks_example =
    drop_join-leaks "p2" "r1" 9 lobby joiner opened refl refl (omega arith) (refl, (refl, tt))
      (record {
        keyed = refl;
        host = owner;
        host_found = refl;
        host_hosts = refl;
        occupancy = refl;
        not_overfull = omega arith;
        small = omega arith;
      })
      refl refl
