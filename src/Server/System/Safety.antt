-- ===== src/Server/System/Safety.antt =====
-- What holds of every state that the server can come to, and of its first.
use war3_battle_tool.Prelude.{
  ℕ, ◌≤◌, ◌≡◌, refl, String, Bool, false, none, some, string_eq, ◌==◌, arith, nat_eq,
}
use war3_battle_tool.HashMap.{HashMap, get, count}
use war3_battle_tool.HashMap.Unique.{HasUniqueKeys}
use war3_battle_tool.Protocol.AddrSafety.{IpAddr, ip_eq}
use war3_battle_tool.Server.State.{AppState}
use war3_battle_tool.Server.State.Connections.{held}
use war3_battle_tool.Server.System.{System, initial}
use war3_battle_tool.Server.Ws.{Session}
use war3_battle_tool.Server.Ws.Keeps.{IsValid}

abbrev pub is_from : IpAddr → Session → Bool
is_from ip s = s.client_ip == ip

-- The state is valid, each connection has its id, the ids of those that have not registered are no
-- players', and each address is charged for its connections, ten at most.
pub record IsSafe (y : System) : Type 0 where
  pub valid : IsValid y.server.app
  pub sessions_unique : HasUniqueKeys y.sessions
  pub session_keyed : (id : String) (s : Session) → get id y.sessions ≡ some s → s.player_id ≡ id
  pub unregistered :
      (id : String) (s : Session)
      → get id y.sessions ≡ some s
      → s.registered ≡ false
      → get id y.server.app.players ≡ none
  pub charged :
      (ip : IpAddr) → held ip y.server.app.connections_per_ip ≡ count (is_from ip) y.sessions
  pub limited : (ip : IpAddr) → held ip y.server.app.connections_per_ip ≤ 10

-- The table of connections is no part of what is valid.
pub set_connections-IsValid :
    (a : AppState) (conns : HashMap IpAddr ℕ)
    → IsValid a
    → IsValid (record a { connections_per_ip = conns })
set_connections-IsValid a conns v = record {
  consistent = record {
    players_unique = v.consistent.players_unique;
    rooms_unique = v.consistent.rooms_unique;
    player_keyed = v.consistent.player_keyed;
    room_sound = λ room_id r h.
        let s = v.consistent.room_sound room_id r h in
        record {
          keyed = s.keyed;
          host = s.host;
          host_found = s.host_found;
          host_hosts = s.host_hosts;
          occupancy = s.occupancy;
          not_overfull = s.not_overfull;
          small = s.small;
        };
    room_of_host = v.consistent.room_of_host;
  };
  players_bounded = v.players_bounded;
  rooms_bounded = v.rooms_bounded;
}

pub initial-IsSafe : IsSafe initial
unfolding get count
initial-IsSafe = record {
  valid = record {
    consistent = record {
      players_unique = tt;
      rooms_unique = tt;
      player_keyed = λ id p h. cc;
      room_sound = λ room_id r h. cc;
      room_of_host = λ id p room_id h hosts. cc;
    };
    players_bounded = omega arith;
    rooms_bounded = omega arith;
  };
  sessions_unique = tt;
  session_keyed = λ id s h. cc;
  unregistered = λ id s h k. refl;
  charged = λ ip. refl;
  limited = λ ip. omega arith;
}
