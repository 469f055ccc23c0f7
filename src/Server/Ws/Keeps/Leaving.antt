-- ===== src/Server/Ws/Keeps/Leaving.antt =====
-- The end of a connection and the cleanup keep the state valid.
use war3_battle_tool.Prelude.{
  ◌≤◌, ◌≡◌, refl, ◌∙◌, String, Option, none, some, List, [], ◌∷◌, string_eq, arith, Option-cases,
  inl, inr, is_empty, Bool-cases,
}
use war3_battle_tool.HashMap.{HashMap, get, len}
use war3_battle_tool.HashMap.Laws.{get-remove, len-remove-le}
use war3_battle_tool.Server.State.{
  AppState, ConnectedPlayer, Room, remove_room, remove_player, mark_disconnected, find_expired,
}
use war3_battle_tool.Server.State.Consistent.Leaving.{remove_player-IsConsistent}
use war3_battle_tool.Server.Time.{Instant}
use war3_battle_tool.Server.Ws.{Session, Server, broadcast}
use war3_battle_tool.Server.Ws.Loop.{
  on_end, remove_players, on_cleanup_tick, heartbeat_timeout, grace_period,
}
use war3_battle_tool.Server.Ws.Keeps.{IsValid}
use war3_battle_tool.Server.Ws.Keeps.Players.{absent-modify, update_player-IsValid}
use war3_battle_tool.Server.Ws.Keeps.Joining.{len-leave_room}

-- The state after is valid, and has no player that was not there.
pub record Shrinks (a a' : AppState) : Type 0 where
  pub valid : IsValid a'
  pub same_connections : a'.connections_per_ip ≡ a.connections_per_ip
  pub absent : (j : String) → get j a.players ≡ none → get j a'.players ≡ none

len-remove_room-le :
    (o : Option String) (rooms : HashMap String Room) → len (remove_room o rooms) ≤ len rooms
unfolding remove_room
len-remove_room-le none rooms = omega arith
len-remove_room-le (some room_id) rooms = len-remove-le room_id rooms

module _ (id : String) (a : AppState) (v : IsValid a) where
  gone-Shrinks :
      (o : Option ConnectedPlayer)
      → get id a.players ≡ o
      → IsValid (remove_player id a)
      → Shrinks a (remove_player id a)
  unfolding remove_player
  gone-Shrinks none h valid = record {
    valid = valid;
    same_connections = ground (arith, h);
    absent = λ j absent. rw (remove_player, h) absent;
  }
  gone-Shrinks (some p) h valid = record {
    valid = valid;
    same_connections = ground (arith, h);
    absent = λ j absent. ground (arith, h, get-remove id j a.players);
  }

  removed-IsValid : IsValid (remove_player id a)
  unfolding remove_player
  removed-IsValid = record {
    consistent = remove_player-IsConsistent id a v.consistent;
    players_bounded = ground (arith, len-remove-le id a.players, v.players_bounded);
    rooms_bounded = elim (Option-cases (get id a.players)) [
      | inl missing ↦ rw (remove_player, missing) v.rooms_bounded
      | inr (p, found) ↦
          rw (remove_player, found)
            (omega (
              arith,
              len-leave_room p.joined_room (remove_room p.hosting_room a.rooms),
              len-remove_room-le p.hosting_room a.rooms,
              v.rooms_bounded,
            ))
    ];
  }

  pub remove_player-Shrinks : Shrinks a (remove_player id a)
  remove_player-Shrinks = gone-Shrinks (get id a.players) refl removed-IsValid

pub remove_players-Shrinks :
    (ids : List String) (a : AppState) → IsValid a → Shrinks a (remove_players ids a)
unfolding remove_players
remove_players-Shrinks [] a v = record { valid = v; same_connections = refl; absent = λ j h. h }
remove_players-Shrinks (id ∷ ids) a v =
    let first = remove_player-Shrinks id a v in
    let rest = remove_players-Shrinks ids (remove_player id a) first.valid in
    record {
      valid = rest.valid;
      same_connections = rest.same_connections ∙ first.same_connections;
      absent = λ j h. rest.absent j (first.absent j h);
    }

mark_disconnected-Shrinks :
    (id : String) (now : Instant) (a : AppState)
    → IsValid a
    → Shrinks a (mark_disconnected id now a)
unfolding mark_disconnected
mark_disconnected-Shrinks id now a v = record {
  valid =
      update_player-IsValid id (λ p. record p { disconnected_at = some now }) a
        (λ p. (refl, refl, refl)) v;
  same_connections = refl;
  absent = λ j. absent-modify id j _ a;
}

-- The end of a connection, registered or not, web viewer or player.
pub on_end-Shrinks :
    (now : Instant) (s : Session) (w : Server) → IsValid w.app → Shrinks w.app (on_end now s w).app
unfolding on_end broadcast
on_end-Shrinks now s w v = elim (Bool-cases s.registered) [
  | inr never ↦ simp (never) (record { valid = v; same_connections = refl; absent = λ j h. h })
  | inl registered ↦ elim (Bool-cases s.is_web_viewer) [
    | inl viewer ↦ simp (registered, viewer) (remove_player-Shrinks s.player_id w.app v)
    | inr player ↦ simp (registered, player) (mark_disconnected-Shrinks s.player_id now w.app v)
  ]
]

pub on_cleanup_tick-Shrinks :
    (now : Instant) (w : Server) → IsValid w.app → Shrinks w.app (on_cleanup_tick now w).app
unfolding on_cleanup_tick broadcast
on_cleanup_tick-Shrinks now w v =
    elim (Bool-cases (is_empty (find_expired now heartbeat_timeout grace_period w.app))) [
      | inl nobody ↦
          simp (nobody) (record { valid = v; same_connections = refl; absent = λ j h. h })
      | inr some_expired ↦
          simp (some_expired)
            (remove_players-Shrinks (find_expired now heartbeat_timeout grace_period w.app) w.app v)
    ]
