-- ===== src/Server/Ws/Join/Outcome.antt =====
-- What a `JoinRoom` comes to where no other task comes between its sections.
use war3_battle_tool.Prelude.{
  ◌≡◌, refl, String, true, false, Option, none, some, ◌⊎◌, inl, inr, arith, string_eq, eq_iff,
  if◌then◌else◌, by_if, by_option, Option-cases, subst, sym, ◌≢◌,
}
use mathlib.Core.Option
use war3_battle_tool.HashMap.{HashMap, get, modify}
use war3_battle_tool.HashMap.Laws.{get-modify, get-insert}
use war3_battle_tool.Protocol.War3.{version_eq}
use war3_battle_tool.Protocol.Messages.{join_failure}
use war3_battle_tool.Server.State.{ConnectedPlayer, Room, leave_room}
use war3_battle_tool.Server.Time.{Instant}
use war3_battle_tool.Server.Tunnel.{register_token}
use war3_battle_tool.Server.Ws.{Env, Session, Server, send, broadcast, set_rooms, is_barred}
use war3_battle_tool.Server.Ws.Join.{
  is_cooling_down, find_players, enter, try_reserve, move_player, announce, complete_join,
  handle_join_room, joined_in,
}
use war3_battle_tool.Server.Ws.Keeps.Joining.{try_reserve_lem}
use war3_battle_tool.Server.Ws.Join.Needs.{
  CanJoin, recount, Joined, find_players_lem, found_players, get-leave_room,
}

module _ (env : Env) (now : Instant) (token room_id : String) (s : Session) (w : Server) where
  abbrev IsUnchanged : Session × Server → Type 0
  IsUnchanged out = (out.0 ≡ s) × (out.1.app ≡ w.app) × (out.1.tunnel ≡ w.tunnel)

  abbrev Outcome : Session × Server → Type 0
  Outcome out = ((¬ CanJoin now room_id s w) × IsUnchanged out) ⊎ Joined now token room_id s w out

  -- A room after the increment and after the player has left the old room.
  room_after :
      (old : Option String) (rid : String) (rooms : HashMap String Room)
      → get rid (leave_room old (modify room_id enter rooms))
        ≡ Option.map (recount room_id old rid) (get rid rooms)
  room_after old rid rooms = ground (
    arith,
    get-leave_room old rid (modify room_id enter rooms),
    get-modify room_id rid enter rooms,
  )

  joined_with :
      (c : CanJoin now room_id s w)
      → Joined now token room_id s w (
          complete_join env now token room_id c.room.gameinfo c.joiner c.host s
            (set_rooms (modify room_id enter w.app.rooms) w))
  unfolding complete_join announce send broadcast move_player register_token
  joined_with c = record {
    can = c;
    session = refl;
    same_connections = refl;
    player_at = λ id. ground (
      arith,
      get-modify s.player_id id (joined_in room_id) w.app.players,
      eq_iff s.player_id id,
      c.joiner_found,
    );
    room_at =
        λ rid. ground (arith, c.joiner_found, room_after c.joiner.joined_room rid w.app.rooms);
    binding_at = λ t. get-insert token t _ w.tunnel.token_bindings;
    pending_at = λ t. get-insert token t _ w.tunnel.upnp_pending;
    same_waiting = refl;
    same_tunnels = refl;
  }

  too_soon : CanJoin now room_id s w → is_cooling_down now s ≢ true
  unfolding is_cooling_down
  too_soon c hot = elim (Option-cases s.last_join_at) [
    | inl never ↦ ground arith
    | inr (last, e) ↦ ground (arith, c.cool last e)
  ]

  outcome :
      (r : Room) (o : Option (Option (ConnectedPlayer × ConnectedPlayer)))
      → is_barred s ≡ false
      → is_cooling_down now s ≡ false
      → get room_id w.app.rooms ≡ some r
      → find_players s.player_id r.host_player_id r.war3_version w.app.players ≡ o
      → Outcome (elim o [
        | none ↦ (s, w)
        | some none ↦ (s, send s.tx join_failure w)
        | some (some (joiner, host)) ↦
            let (rooms, reserved) = try_reserve room_id w.app.rooms in
            if reserved
            then complete_join env now token room_id r.gameinfo joiner host s (set_rooms rooms w)
            else (s, send s.tx join_failure w)
      ])
  unfolding send try_reserve is_cooling_down
  outcome r none known cool found h =
      inl (λ c. ground (arith, c.room_found, found_players now room_id s w c), (refl, refl, refl))
  outcome r (some none) known cool found h =
      inl (λ c. ground (arith, c.room_found, found_players now room_id s w c), (refl, refl, refl))
  outcome r (some (some (joiner, host))) known cool found h =
      by_if Outcome (try_reserve room_id w.app.rooms).1 _ _
        (λ reserved.
          let (r', found', slot, same) = try_reserve_lem room_id w.app.rooms reserved in
          let (joiner_found, version, host_found, connected) =
            find_players_lem _ _ _ _ joiner host h in
          inr (
            subst
              (λ rooms.
                Joined now token room_id s w (
                  complete_join env now token room_id r.gameinfo joiner host s (set_rooms rooms w)))
              (sym same)
              (joined_with (record {
                registered = ground arith;
                plays = ground arith;
                cool = λ last e. ground arith;
                room = r;
                room_found = found;
                slot = ground (arith, found, found', slot);
                joiner = joiner;
                joiner_found = joiner_found;
                same_version = version;
                host = host;
                host_found = host_found;
                host_connected = connected;
              }))))
        (λ full. inl (λ c. ground (arith, c.room_found, c.slot, found), (refl, refl, refl)))

  -- Where no other task comes between its sections, `JoinRoom` lets the player in exactly where it can:
  -- the player is registered, no web viewer, and joined nothing in the last five seconds, the room is of
  -- the player's version and has a slot, and its host is connected. Then the player's room is the
  -- new one, the room has one player more and the player's old room one less, the token is bound to
  -- the addresses of the host and the joiner, the joiner is noted for it, the cooldown starts, and every
  -- other player, room and token is as before. Else the session, the lobby and the tunnels are unchanged.
  pub handle_join_room-Joined :
      (¬ CanJoin now room_id s w)
        × (((handle_join_room env now token room_id s w).0 ≡ s)
            × ((handle_join_room env now token room_id s w).1.app ≡ w.app)
            × ((handle_join_room env now token room_id s w).1.tunnel ≡ w.tunnel))
      ⊎ Joined now token room_id s w (handle_join_room env now token room_id s w)
  unfolding handle_join_room send is_cooling_down
  handle_join_room-Joined =
      by_if Outcome (is_barred s) _ _
        (λ barred. inl (λ c. ground (arith, c.registered, c.plays), (refl, refl, refl)))
        (λ known.
          by_if Outcome (is_cooling_down now s) _ _
            (λ hot. inl (λ c. too_soon c hot, (refl, refl, refl)))
            (λ cool.
              by_option Outcome (get room_id w.app.rooms) _ _
                (λ missing. inl (λ c. ground (arith, c.room_found), (refl, refl, refl)))
                (λ r found. outcome r _ known cool found refl)))
