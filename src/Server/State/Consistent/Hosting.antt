-- ===== src/Server/State/Consistent/Hosting.antt =====
-- A player registers, opens a room and closes it.
use mathlib.Core.Path.{subst₂}
use war3_battle_tool.Prelude.{
  ◌+◌, ◌≤◌, ◌≡◌, refl, sym, ap, ◌∙◌, String, none, some, arith, ◌==◌, string_eq, eq_iff,
  if◌then◌else◌, Bool-cases, inl, inr,
}
use war3_battle_tool.HashMap.{get, modify, insert, count}
use war3_battle_tool.HashMap.Laws.{
  get-modify, get-insert, modified_before, modified_after, count-modify_same, count-insert,
  remove_absent,
}
use war3_battle_tool.HashMap.Unique.{modify-HasUniqueKeys, insert-HasUniqueKeys}
use war3_battle_tool.Server.State.{AppState, ConnectedPlayer, Room}
use war3_battle_tool.Server.State.Consistent.{IsConsistent, IsSound, is_in}

module _ (id : String) (p : ConnectedPlayer) (a : AppState) (v : IsConsistent a)
    (fresh : get id a.players ≡ none) (keyed : p.player_id ≡ id) (no_room : p.hosting_room ≡ none)
    (not_joined : p.joined_room ≡ none) where
  abbrev with_player : AppState
  with_player = record a { players = insert id p a.players }

  count-with_player :
      (room_id : String)
      → count (is_in room_id) with_player.players ≡ count (is_in room_id) a.players
  count-with_player room_id =
      count-insert (is_in room_id) id p a.players
      ∙ ground (arith, not_joined, ap (count (is_in room_id)) (remove_absent id a.players fresh))

  with_player-IsSound :
      (room_id : String) (r : Room) → IsSound a room_id r → IsSound with_player room_id r
  with_player-IsSound room_id r s = record {
    keyed = s.keyed;
    host = s.host;
    host_found = ground (
      arith,
      s.host_found,
      get-insert id r.host_player_id p a.players,
      eq_iff id r.host_player_id,
      fresh,
    );
    host_hosts = s.host_hosts;
    occupancy = s.occupancy ∙ ap (λ n. 1 + n) (sym (count-with_player room_id));
    not_overfull = s.not_overfull;
    small = s.small;
  }

  -- A new player hosts nothing and is in no room.
  pub add_player-IsConsistent : IsConsistent (record a { players = insert id p a.players })
  add_player-IsConsistent = record {
    players_unique = insert-HasUniqueKeys id p a.players v.players_unique;
    rooms_unique = v.rooms_unique;
    player_keyed =
        λ j q h. ground (arith, get-insert id j p a.players, eq_iff id j, v.player_keyed j q);
    room_sound = λ room_id r h. with_player-IsSound room_id r (v.room_sound room_id r h);
    room_of_host = λ j q room_id h hosts.
        v.room_of_host j q room_id (ground (arith, get-insert id j p a.players)) hosts;
  }

-- No room has the identifier, and no player remembers a room that had it.
abbrev pub IsFreshRoom : String → AppState → Type 0
IsFreshRoom room_id a = (get room_id a.rooms ≡ none) × (count (is_in room_id) a.players ≡ 0)

abbrev hosting : String → ConnectedPlayer → ConnectedPlayer
hosting room_id p = record p { hosting_room = some room_id }

module _ (id room_id : String) (p : ConnectedPlayer) (room : Room) (a : AppState)
    (v : IsConsistent a) (found : get id a.players ≡ some p) (no_room : p.hosting_room ≡ none)
    (fresh : IsFreshRoom room_id a) (keyed : room.room_id ≡ room_id)
    (hosted : room.host_player_id ≡ id) (alone : room.current_players ≡ 1)
    (roomy : 1 ≤ room.max_players) (small : room.max_players ≤ 12) where
  abbrev with_room : AppState
  with_room = record a {
    rooms = insert room_id room a.rooms;
    players = modify id (hosting room_id) a.players;
  }

  count-with_room :
      (rid : String) → count (is_in rid) with_room.players ≡ count (is_in rid) a.players
  count-with_room rid = count-modify_same (is_in rid) id (hosting room_id) a.players (λ q. refl)

  new_room-IsSound : IsSound with_room room_id room
  new_room-IsSound = record {
    keyed = keyed;
    host = hosting room_id p;
    host_found = ground (
      arith,
      get-modify id room.host_player_id (hosting room_id) a.players,
      eq_iff id room.host_player_id,
      found,
      hosted,
    );
    host_hosts = refl;
    occupancy = omega (arith, alone, fresh.1, count-with_room room_id);
    not_overfull = omega arith;
    small = small;
  }

  old_room-IsSound : (rid : String) (r : Room) → get rid a.rooms ≡ some r → IsSound with_room rid r
  old_room-IsSound rid r h = record {
    keyed = s.keyed;
    host = if id == r.host_player_id then hosting room_id s.host else s.host;
    host_found = modified_after id r.host_player_id (hosting room_id) a.players s.host s.host_found;
    host_hosts = ground (arith, s.host_hosts, s.host_found, eq_iff id r.host_player_id);
    occupancy = s.occupancy ∙ ap (λ n. 1 + n) (sym (count-with_room rid));
    not_overfull = s.not_overfull;
    small = s.small;
  }
    where
      s : IsSound a rid r
      s = v.room_sound rid r h

  -- A player who hosts nothing opens a room under a fresh identifier.
  pub open_room-IsConsistent : IsConsistent (record a {
    rooms = insert room_id room a.rooms;
    players = modify id (hosting room_id) a.players;
  })
  open_room-IsConsistent = record {
    players_unique = modify-HasUniqueKeys id (hosting room_id) a.players v.players_unique;
    rooms_unique = insert-HasUniqueKeys room_id room a.rooms v.rooms_unique;
    player_keyed = λ j q h.
        let (o, before, same) = modified_before id j (hosting room_id) a.players q h in
        ground (arith, v.player_keyed j o before);
    room_sound = λ rid r h. elim (Bool-cases (room_id == rid)) [
      | inl here ↦
          let same_id : room_id ≡ rid = (eq_iff room_id rid).0 here in
          let same : room ≡ r = ground (arith, get-insert room_id rid room a.rooms) in
          subst₂ (IsSound with_room) same_id same new_room-IsSound
      | inr there ↦ old_room-IsSound rid r (ground (arith, get-insert room_id rid room a.rooms))
    ];
    room_of_host = λ j q rid h hosts.
        let (o, before, same) = modified_before id j (hosting room_id) a.players q h in
        elim (Bool-cases (id == j)) [
          | inl me ↦ (
            room,
            ground (arith, get-insert room_id rid room a.rooms, eq_iff room_id rid),
            ground (arith, eq_iff id j, hosted),
          )
          | inr other ↦
              let (r, room_found, is_host) = v.room_of_host j o rid before (ground arith) in
              (
                r,
                ground (arith, get-insert room_id rid room a.rooms, eq_iff room_id rid, fresh.0),
                is_host,
              )
        ];
  }
