-- ===== src/Server/Tests/Lobby.antt =====
-- A lobby with a host, a joiner and a room.
use war3_battle_tool.Prelude.{
  ◌≡◌, ◌≤◌, ◌+◌, List, All, length, refl, true, false, none, some, [], ◌∷◌, arith, string_eq, ◌⊎◌,
  not,
}
use war3_battle_tool.HashMap
use war3_battle_tool.HashMap.{get, insert, remove, count}
use war3_battle_tool.HashMap.Unique.{keep_if}
use war3_battle_tool.Protocol.AddrSafety.{IpAddr, v4}
use war3_battle_tool.Protocol.War3.{v127}
use war3_battle_tool.Protocol.Messages.{register}
use war3_battle_tool.Server.State.{
  acquire, try_acquire_connection, ConnectedPlayer, Room, is_expired,
}
use war3_battle_tool.Server.Tunnel as Tunnel
use war3_battle_tool.Server.Tunnel.{register_token}
use war3_battle_tool.Server.Ws.{Env, Session, Server, new_session, new_limiter}
use war3_battle_tool.Server.Ws.Join.{handle_join_room}
use war3_battle_tool.Server.Ws.Join.Needs.{CanJoin, Joined}
use war3_battle_tool.Server.Ws.Join.Outcome.{handle_join_room-Joined}
use war3_battle_tool.Server.Ws.Upnp.{handle_upnp_mapped}
use war3_battle_tool.Server.Ws.Upnp.Forward.{Forwarded, handle_upnp_mapped-Forwarded}
use war3_battle_tool.Server.Ws.Sections.{
  Registration, register_refusal, register_enter, enter_all, AllNew, concurrent_registers-exceed,
}
use war3_battle_tool.Server.Ws.Rate.{allowed, allowed-second}
use war3_battle_tool.Server.Ws.Expiry.{on_cleanup_tick-players}
use war3_battle_tool.Server.Ws.Loop.{on_cleanup_tick, heartbeat_timeout, grace_period}
use war3_battle_tool.Server.System.{
  System, initial, accept, receive, accepts, receives, starts, steps,
}
use war3_battle_tool.Server.System.Safety.{IsSafe}
use war3_battle_tool.Server.System.Reachable.{Reach-IsSafe}

abbrev home : IpAddr
home = v4 93 184 216 34

-- Every frame registers; every address parses.
abbrev env : Env
env = record {
  parse_message = λ text. some (register "ann" v127 none);
  parse_socket_addr = λ text. some (record { ip = home; port = 6112 });
  show_ip = λ ip. "93.184.216.34";
}

abbrev one_open : System
one_open = (accept "p1" 1 home 0 initial).0

abbrev one_session : Session
one_session = new_session "p1" 1 home 0

Reach-IsSafe_example : IsSafe (receive env 5 "r1" "{}" "p1" one_session one_open)
unfolding accept get count remove insert acquire try_acquire_connection
Reach-IsSafe_example = Reach-IsSafe env (receive env 5 "r1" "{}" "p1" one_session one_open) (
    steps (steps starts (accepts "p1" 1 home 0 refl refl refl))
      (receives 5 "r1" "{}" "p1" one_session refl (refl, refl)))

abbrev one_player : System
one_player = receive env 5 "r1" "{}" "p1" one_session one_open

one_player-IsSafe : IsSafe one_player
unfolding accept get count remove insert acquire try_acquire_connection
one_player-IsSafe = Reach-IsSafe env one_player (
    steps (steps starts (accepts "p1" 1 home 0 refl refl refl))
      (receives 5 "r1" "{}" "p1" one_session refl (refl, refl)))

abbrev host : ConnectedPlayer
host = record {
  player_id = "p0";
  nickname = "host";
  war3_version = v127;
  client_ip = home;
  last_heartbeat = 0;
  tx = 0;
  hosting_room = some "r0";
  joined_room = none;
  disconnected_at = none;
}

abbrev guest : ConnectedPlayer
guest = record host { player_id = "p1"; nickname = "guest"; tx = 1; hosting_room = none }

abbrev room : Room
room = record {
  room_id = "r0";
  host_player_id = "p0";
  host_nickname = "host";
  room_name = "fun";
  map_name = "map";
  max_players = 4;
  current_players = 1;
  war3_version = v127;
  gameinfo = [];
}

abbrev lobby : Server
lobby = record {
  app = record {
    players = ("p0", host) ∷ ("p1", guest) ∷ [];
    rooms = ("r0", room) ∷ [];
    connections_per_ip = (home, 2) ∷ [];
  };
  tunnel = Tunnel.new;
  channels =
      (0, record { queue = []; closed = false }) ∷ (1, record { queue = []; closed = false }) ∷ [];
}

abbrev guest_session : Session
guest_session = record (new_session "p1" 1 home 0) { registered = true }

handle_join_room-Joined_example :
    (¬ CanJoin 9 "r0" guest_session lobby)
      × (((handle_join_room env 9 "t0" "r0" guest_session lobby).0 ≡ guest_session)
          × ((handle_join_room env 9 "t0" "r0" guest_session lobby).1.app ≡ lobby.app)
          × ((handle_join_room env 9 "t0" "r0" guest_session lobby).1.tunnel ≡ lobby.tunnel))
    ⊎ Joined 9 "t0" "r0" guest_session lobby (handle_join_room env 9 "t0" "r0" guest_session lobby)
handle_join_room-Joined_example = handle_join_room-Joined env 9 "t0" "r0" guest_session lobby

-- The host of the token "t0", and the lobby in which it is registered.
abbrev host_session : Session
host_session = record (new_session "p0" 0 home 0) { registered = true }

abbrev bound_lobby : Server
bound_lobby = record lobby { tunnel = register_token "t0" home home "p1" 0 lobby.tunnel }

handle_upnp_mapped-Forwarded_example :
    ((handle_upnp_mapped env "93.184.216.34:6112" "t0" host_session bound_lobby).1.channels
      ≡ bound_lobby.channels)
    ⊎ Forwarded env "93.184.216.34:6112" "t0" host_session bound_lobby
        (handle_upnp_mapped env "93.184.216.34:6112" "t0" host_session bound_lobby).1
handle_upnp_mapped-Forwarded_example =
    handle_upnp_mapped-Forwarded env "93.184.216.34:6112" "t0" host_session bound_lobby

allowed-second_example : allowed (3 ∷ 5 ∷ 9 ∷ []) (new_limiter 0) ≤ 20
allowed-second_example =
    allowed-second 3 (3 ∷ 5 ∷ 9 ∷ []) (new_limiter 0)
      ((omega arith, omega arith), ((omega arith, omega arith), ((omega arith, omega arith), tt)))
      (omega arith)

on_cleanup_tick-players_example :
    get "p1" (on_cleanup_tick 31000000000 lobby).app.players
    ≡ keep_if
        (λ p. not (is_expired 31000000000 heartbeat_timeout grace_period p))
        (get "p1" lobby.app.players)
unfolding get
on_cleanup_tick-players_example = on_cleanup_tick-players 31000000000 "p1" lobby (refl, (refl, tt))

-- Two connections register at once.
abbrev requests : List Registration
requests =
    record { now = 10; nickname = "ann"; war3_version = v127; session = new_session "p7" 7 home 0 }
    ∷ record {
      now = 11;
      nickname = "bob";
      war3_version = v127;
      session = new_session "p8" 8 home 0;
    }
    ∷ []

requests_new : AllNew env requests lobby
unfolding register_enter insert remove get
requests_new = (refl, (refl, tt))

concurrent_registers-exceed_example :
    All (λ r. register_refusal r.session lobby ≡ none) requests
    × (HashMap.len (enter_all env requests lobby).app.players
        ≡ HashMap.len lobby.app.players + length requests)
concurrent_registers-exceed_example =
    concurrent_registers-exceed env requests lobby (refl, (refl, tt)) (omega arith) requests_new
