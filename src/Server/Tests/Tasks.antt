-- ===== src/Server/Tests/Tasks.antt =====
-- Two joiners of a room with one place, whose sections alternate, and a room that is left behind.
use war3_battle_tool.Prelude.{
  ◌+◌, ◌≤◌, eq_iff, String, ◌==◌, bit, false, ◌≡◌, refl, true, none, some, List, [], ◌∷◌, map,
  arith, string_eq, ℕ,
}
use war3_battle_tool.HashMap.{empty, insert, count, get, modify}
use war3_battle_tool.Protocol.AddrSafety.{v4}
use war3_battle_tool.Protocol.War3.{v127, version_beq}
use war3_battle_tool.Protocol.Messages.{join_room, validate}
use war3_battle_tool.Server.State.{AppState, ConnectedPlayer, Room}
use war3_battle_tool.Server.Ws.{Session, new_session}
use war3_battle_tool.Server.Ws.Tasks.{Work, message, ending, tick, task_of, interleave}
use war3_battle_tool.Server.Ws.Tasks.Rooms.{insert-AllFit, empty-AllFit}
use war3_battle_tool.Server.Ws.Tasks.Ledger.{Balanced, nothing, members}
use war3_battle_tool.Server.Ws.Tasks.Places.{drawn_by, interleaved-places}
use war3_battle_tool.Server.Ws.Tasks.Orphan.{IsUnhosted, IsOrphan, cut_off, cut_off_stays}

abbrev host : ConnectedPlayer
host = record {
  player_id = "p1";
  nickname = "ann";
  war3_version = v127;
  client_ip = v4 93 184 216 34;
  last_heartbeat = 0;
  tx = 0;
  hosting_room = some "r1";
  joined_room = none;
  disconnected_at = none;
}

abbrev joiner : ConnectedPlayer
joiner = record host { player_id = "p2"; nickname = "bob"; tx = 1; hosting_room = none }

abbrev room : Room
room = record {
  room_id = "r1";
  host_player_id = "p1";
  host_nickname = "ann";
  room_name = "dota";
  map_name = "maps";
  max_players = 2;
  current_players = 1;
  war3_version = v127;
  gameinfo = [];
}

abbrev lobby : AppState
lobby = record {
  players = ("p1", host) ∷ ("p2", joiner) ∷ ("p3", record joiner { player_id = "p3"; tx = 2 }) ∷ [];
  rooms = insert "r1" room empty;
  connections_per_ip = [];
}

abbrev session : Session
session = record (new_session "p2" 1 (v4 93 184 216 34) 0) { registered = true }

abbrev works : List Work
works =
    message 9 "t1" (join_room "r1") session
    ∷ message 9 "t2" (join_room "r1") (record session { player_id = "p3"; tx = 2 })
    ∷ tick 9
    ∷ []

abbrev schedule : List ℕ
schedule = 0 ∷ 1 ∷ 2 ∷ 0 ∷ 1 ∷ 1 ∷ 0 ∷ 1 ∷ 0 ∷ []

apart : (j k i : String) → (j == k) ≡ false → bit (j == i) + bit (k == i) ≤ 1
apart j k i h = ground (arith, eq_iff j i, eq_iff k i, eq_iff j k)

lobby-Balanced : Balanced nothing (drawn_by works) lobby
unfolding get count insert
lobby-Balanced = record {
  players_unique = (refl, (refl, (refl, tt)));
  fit = insert-AllFit "r1" room empty (omega arith, omega arith) empty-AllFit;
  counted = λ i r at. ground arith;
  drawn_once = λ i. ground (arith, apart "t1" "t2" i refl);
  undrawn = λ i h. ground (arith, apart "r1" "t1" i refl, apart "r1" "t2" i refl);
}

interleaved-places_example :
    (1 + members "r1" (interleave schedule (map task_of works) lobby).1.players ≤ 2)
    × (2 ≤ 2)
    × (2 ≤ 12)
unfolding validate interleave task_of insert get version_beq modify
interleaved-places_example =
    interleaved-places works schedule lobby "r1" (record room { current_players = 2 })
      (refl, (refl, (tt, tt))) lobby-Balanced refl

-- One of the two gets in.
one_place :
    (interleave schedule (map task_of works) lobby).1.rooms
    ≡ ("r1", record room { current_players = 2 }) ∷ []
unfolding interleave task_of insert get version_beq modify
one_place = refl

abbrev empty_lobby : AppState
empty_lobby = record lobby { players = ("p2", joiner) ∷ []; rooms = empty }

idle-IsUnhosted : IsUnhosted "r2" empty_lobby.players
unfolding get
idle-IsUnhosted id p at hosts = ground arith

-- The player leaves and is removed.
cut_off_stays_example :
    IsOrphan "r2"
      (interleave
        (0 ∷ 1 ∷ 1 ∷ 1 ∷ [])
        (map task_of (ending 10 session ∷ tick 99_000_000_000 ∷ []))
        (cut_off "r2" "dota" "maps" 4 [] session empty_lobby)).1
unfolding get
cut_off_stays_example =
    cut_off_stays "r2" "dota" "maps" 4 [] session empty_lobby joiner refl refl refl refl
      (omega arith) (ending 10 session ∷ tick 99_000_000_000 ∷ []) (0 ∷ 1 ∷ 1 ∷ 1 ∷ [])
      idle-IsUnhosted (tt, (tt, tt))
