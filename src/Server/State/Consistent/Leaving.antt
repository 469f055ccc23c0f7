-- ===== src/Server/State/Consistent/Leaving.antt =====
-- A player goes for good: `remove_player`.
use war3_battle_tool.Prelude.{
  ◌-◌, ◌≡◌, ◌∙◌, String, false, some, arith, ◌==◌, string_eq, eq_iff, bit, Bool-cases, Option-cases,
  inl, inr,
}
use war3_battle_tool.HashMap.{get, remove}
use war3_battle_tool.HashMap.Laws.{get-remove}
use war3_battle_tool.HashMap.Unique.{remove-HasUniqueKeys, count-split}
use war3_battle_tool.Server.State.{
  AppState, ConnectedPlayer, Room, leave_room, remove_room, remove_player,
}
use war3_battle_tool.Server.State.Consistent.{IsConsistent, IsSound, is_in, names}
use war3_battle_tool.Server.State.Consistent.Rooms.{
  left_before, left_after, leave_room-HasUniqueKeys, get-remove_room, remove_room-HasUniqueKeys,
  names-some, names_self, SameRoom,
}

module _ (id : String) (p : ConnectedPlayer) (a : AppState) (v : IsConsistent a)
    (found : get id a.players ≡ some p) where
  abbrev gone : AppState
  gone = record a {
    players = remove id a.players;
    rooms = leave_room p.joined_room (remove_room p.hosting_room a.rooms);
  }

  -- A room that the player does not host, after the player left it if in it.
  gone_room :
      (rid : String) (r r' : Room)
      → IsSound a rid r
      → names p.hosting_room rid ≡ false
      → SameRoom r r'
      → r'.current_players ≡ r.current_players - bit (names p.joined_room rid)
      → IsSound gone rid r'
  gone_room rid r r' s unhosted same current =
      let split = count-split (is_in rid) id p a.players v.players_unique found in
      record {
        keyed = same.0 ∙ s.keyed;
        host = s.host;
        host_found = ground (
          arith,
          get-remove id r'.host_player_id a.players,
          eq_iff id r'.host_player_id,
          s.host_found,
          s.host_hosts,
          same.1,
          found,
          names_self p.hosting_room rid,
        );
        host_hosts = s.host_hosts;
        occupancy = omega (arith, current, s.occupancy, split);
        not_overfull = omega (arith, current, s.not_overfull, same.2);
        small = omega (arith, s.small, same.2);
      }

  gone-IsSound : (rid : String) (r' : Room) → get rid gone.rooms ≡ some r' → IsSound gone rid r'
  gone-IsSound rid r' h =
      let (r, kept, same, current) =
        left_before p.joined_room rid (remove_room p.hosting_room a.rooms) r' h in
      gone_room rid r r'
        (v.room_sound rid r (ground (arith, get-remove_room p.hosting_room rid a.rooms)))
        (ground (arith, get-remove_room p.hosting_room rid a.rooms)) same current

  not_hosted :
      (j rid : String) (r : Room)
      → (id == j) ≡ false
      → get rid a.rooms ≡ some r
      → r.host_player_id ≡ j
      → names p.hosting_room rid ≡ false
  not_hosted j rid r other room_found is_host = elim (Bool-cases (names p.hosting_room rid)) [
    | inr no_host ↦ no_host
    | inl hosts ↦
        let (r', found', is_host') = v.room_of_host id p rid found (names-some _ _ hosts) in
        ground (arith, eq_iff id j)
  ]

  -- The rooms of the other hosts stay.
  gone_host :
      (j : String) (q : ConnectedPlayer) (rid : String)
      → get j gone.players ≡ some q
      → q.hosting_room ≡ some rid
      → (r : Room) × (get rid gone.rooms ≡ some r) × (r.host_player_id ≡ j)
  gone_host j q rid h hosts =
      let before : get j a.players ≡ some q = ground (arith, get-remove id j a.players) in
      let (r, room_found, is_host) = v.room_of_host j q rid before hosts in
      let kept : get rid (remove_room p.hosting_room a.rooms) ≡ some r = ground (
        arith,
        get-remove_room p.hosting_room rid a.rooms,
        get-remove id j a.players,
        not_hosted j rid r,
      ) in
      let (r', found', same) =
        left_after p.joined_room rid (remove_room p.hosting_room a.rooms) r kept in
      (r', found', same ∙ is_host)

  gone-IsConsistent : IsConsistent gone
  gone-IsConsistent = record {
    players_unique = remove-HasUniqueKeys id a.players v.players_unique;
    rooms_unique = leave_room-HasUniqueKeys _ _ (remove_room-HasUniqueKeys _ _ v.rooms_unique);
    player_keyed = λ j q h. v.player_keyed j q (ground (arith, get-remove id j a.players));
    room_sound = gone-IsSound;
    room_of_host = gone_host;
  }

-- Removing a player, whether there or not, keeps the lobby consistent: the room that the player
-- hosted goes, the room that the player was in counts one less, and every room left still counts its
-- players and has its host.
pub remove_player-IsConsistent :
    (id : String) (a : AppState) → IsConsistent a → IsConsistent (remove_player id a)
unfolding remove_player
remove_player-IsConsistent id a v = elim (Option-cases (get id a.players)) [
  | inl missing ↦ rw (missing, remove_player) v
  | inr (p, found) ↦ rw (found, remove_player) (gone-IsConsistent id p a v found)
]
