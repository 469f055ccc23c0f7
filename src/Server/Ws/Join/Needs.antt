-- ===== src/Server/Ws/Join/Needs.antt =====
-- What a `JoinRoom` of crates/server/src/ws.rs needs, and what it leaves in each table.
use war3_battle_tool.Prelude.{
  ◌<◌, ◌≤◌, ◌≡◌, ap, ◌+◌, ◌-◌, ◌==◌, refl, String, true, false, Option, none, some, arith,
  string_eq, if◌then◌else◌, min, bit,
}
use mathlib.Core.Option
use war3_battle_tool.HashMap.{HashMap, get}
use war3_battle_tool.HashMap.Laws.{get-modify}
use war3_battle_tool.Protocol.War3.{War3Version, version_eq}
use war3_battle_tool.Server.State.{ConnectedPlayer, Room, leave, leave_room}
use war3_battle_tool.Server.State.Consistent.{names}
use war3_battle_tool.Server.Time.{Instant}
use war3_battle_tool.Server.Ws.{Session, Server}
use war3_battle_tool.Server.Ws.Join.{find_players}

-- What a join needs: a registered player whose last join is five seconds old, a room of the player's
-- version that has a slot, and its host, who is connected.
pub record CanJoin (now : Instant) (room_id : String) (s : Session) (w : Server) : Type 0 where
  pub registered : s.registered ≡ true
  pub plays : s.is_web_viewer ≡ false
  pub cool : (last : Instant) → s.last_join_at ≡ some last → last + 5_000_000_000 ≤ now
  pub room : Room
  pub room_found : get room_id w.app.rooms ≡ some room
  pub slot : room.current_players < room.max_players
  pub joiner : ConnectedPlayer
  pub joiner_found : get s.player_id w.app.players ≡ some joiner
  pub same_version : joiner.war3_version ≡ room.war3_version
  pub host : ConnectedPlayer
  pub host_found : get room.host_player_id w.app.players ≡ some host
  pub host_connected : host.disconnected_at ≡ none

-- What a room counts after the player has entered one and left another.
abbrev pub recount : String → Option String → String → Room → Room
recount room_id old rid r = record r {
  current_players =
      (if room_id == rid then min (r.current_players + 1) 255 else r.current_players)
      - bit (names old rid);
}

-- The player is in, told by what the tables have for any key.
pub record Joined (now : Instant) (token room_id : String) (s : Session) (w : Server)
    (out : Session × Server) : Type 0 where
  pub can : CanJoin now room_id s w
  pub session : out.0 ≡ record s { last_join_at = some now }
  pub same_connections : out.1.app.connections_per_ip ≡ w.app.connections_per_ip
  pub player_at :
      (id : String)
      → get id out.1.app.players ≡ (
          if s.player_id == id
          then some (record (can.joiner) { joined_room = some room_id })
          else get id w.app.players)
  pub room_at :
      (rid : String)
      → get rid out.1.app.rooms
        ≡ Option.map (recount room_id can.joiner.joined_room rid) (get rid w.app.rooms)
  pub binding_at :
      (t : String)
      → get t out.1.tunnel.token_bindings ≡ (
          if token == t
          then some (record { host_ip = can.host.client_ip; joiner_ip = s.client_ip })
          else get t w.tunnel.token_bindings)
  pub pending_at :
      (t : String)
      → get t out.1.tunnel.upnp_pending ≡ (
          if token == t
          then some (record {
            host_ip = can.host.client_ip;
            joiner_player_id = s.player_id;
            created_at = now;
          })
          else get t w.tunnel.upnp_pending)
  pub same_waiting : out.1.tunnel.waiting ≡ w.tunnel.waiting
  pub same_tunnels : out.1.tunnel.connections_per_ip ≡ w.tunnel.connections_per_ip

-- The two players that a join needs.
pub find_players_lem :
    (id host_id : String) (version : War3Version) (players : HashMap String ConnectedPlayer)
    (joiner host : ConnectedPlayer)
    → find_players id host_id version players ≡ some (some (joiner, host))
    → (get id players ≡ some joiner)
      × (joiner.war3_version ≡ version)
      × (get host_id players ≡ some host)
      × (host.disconnected_at ≡ none)
unfolding find_players
find_players_lem id host_id version players joiner host h =
    ground (arith, version_eq.beq_iff joiner.war3_version version)

pub found_players :
    (now : Instant) (room_id : String) (s : Session) (w : Server) (c : CanJoin now room_id s w)
    → find_players s.player_id c.room.host_player_id c.room.war3_version w.app.players
      ≡ some (some (c.joiner, c.host))
unfolding find_players
found_players now room_id s w c = ground (
  arith,
  c.joiner_found,
  c.same_version,
  c.host_found,
  c.host_connected,
  version_eq.beq_iff c.joiner.war3_version c.room.war3_version,
)

-- What a room counts after a player has left the room that is named, if any.
abbrev left_by : Option String → String → Room → Room
left_by o rid r = record r { current_players = r.current_players - bit (names o rid) }

pub get-leave_room :
    (o : Option String) (rid : String) (rooms : HashMap String Room)
    → get rid (leave_room o rooms) ≡ Option.map (left_by o rid) (get rid rooms)
unfolding leave_room
get-leave_room none rid rooms = elim (get rid rooms) as (λ x. x ≡ Option.map (left_by none rid) x) [
  | none ↦ refl
  | some r ↦
      let same : r.current_players ≡ r.current_players - 0 = omega arith in
      ap (λ n. some (record r { current_players = n })) same
]
get-leave_room (some j) rid rooms = ground (arith, get-modify j rid leave rooms)
