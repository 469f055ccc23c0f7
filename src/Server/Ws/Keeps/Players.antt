-- ===== src/Server/Ws/Keeps/Players.antt =====
-- Registering and the heartbeat keep the state valid.
use war3_battle_tool.Prelude.{
  ◌≡◌, refl, String, Bool, true, false, none, inl, inr, string_eq, ◌==◌, eq_iff, arith,
  if◌then◌else◌, Bool-cases, leb, sym, ap, starts_with,
}
use war3_battle_tool.HashMap.{get, insert, modify, len}
use war3_battle_tool.HashMap.Laws.{get-insert, get-modify, len-insert-le, len-modify}
use war3_battle_tool.Protocol.War3.{War3Version}
use war3_battle_tool.Server.State.{AppState, ConnectedPlayer}
use war3_battle_tool.Server.State.Consistent.Players.{KeepsRooms, update_player-IsConsistent}
use war3_battle_tool.Server.State.Consistent.Hosting.{add_player-IsConsistent}
use war3_battle_tool.Server.Time.{Instant}
use war3_battle_tool.Server.Ws.{
  Env, Session, Server, send, broadcast, new_player, registered_session, handle_register,
  handle_heartbeat, web_viewer_prefix,
}
use war3_battle_tool.Server.Ws.Keeps.{IsValid, Keeps, keeps, Keeps-all, Keeps-if}

pub absent-modify :
    (id j : String) (f : ConnectedPlayer → ConnectedPlayer) (a : AppState)
    → get j a.players ≡ none
    → get j (modify id f a.players) ≡ none
absent-modify id j f a h = ground (arith, get-modify id j f a.players)

pub update_player-IsValid :
    (id : String) (f : ConnectedPlayer → ConnectedPlayer) (a : AppState)
    → KeepsRooms f
    → IsValid a
    → IsValid (record a { players = modify id f a.players })
update_player-IsValid id f a same v = record {
  consistent = update_player-IsConsistent id f same a v.consistent;
  players_bounded = omega (arith, len-modify id f a.players, v.players_bounded);
  rooms_bounded = v.rooms_bounded;
}

pub handle_heartbeat-Keeps :
    (now : Instant) (s : Session) (w : Server)
    → IsValid w.app
    → Keeps s w (handle_heartbeat now s w)
unfolding handle_heartbeat
handle_heartbeat-Keeps now s w v =
    keeps s s w _ refl refl refl refl
      (update_player-IsValid s.player_id (λ p. record p { last_heartbeat = now }) w.app
        (λ p. (refl, refl, refl)) v)
      (λ j. absent-modify s.player_id j _ w.app)

module _ (env : Env) (now : Instant) (nickname : String) (version : War3Version) (s : Session)
    (w : Server) (v : IsValid w.app) (fresh : get s.player_id w.app.players ≡ none)
    (room : leb 500 (len w.app.players) ≡ false) where
  abbrev player : ConnectedPlayer
  player = new_player now nickname version s

  added : IsValid (record w.app { players = insert s.player_id player w.app.players })
  unfolding new_player
  added = record {
    consistent = add_player-IsConsistent s.player_id player w.app v.consistent fresh refl refl refl;
    players_bounded = ground (arith, len-insert-le s.player_id player w.app.players);
    rooms_bounded = v.rooms_bounded;
  }

  registered-Keeps :
      (w' : Server)
      → w'.app ≡ record w.app { players = insert s.player_id player w.app.players }
      → Keeps s w (registered_session now nickname s, w')
  unfolding registered_session
  registered-Keeps w' same = record {
    same_id = refl;
    still_registered = λ h. refl;
    same_ip = refl;
    same_connections = ap (λ a. a.connections_per_ip) same;
    valid = rw (same) added;
    absent = λ j h. rw (same) (elim (Bool-cases (s.player_id == j)) [
      | inl me ↦ inr (ground (arith, eq_iff s.player_id j), refl)
      | inr other ↦ inl (ground (arith, get-insert s.player_id j player w.app.players))
    ]);
  }

-- The messages after a registration leave the state.
app-welcome : (b : Bool) (x y : Server) → x.app ≡ y.app → (if b then x else y).app ≡ x.app
app-welcome true x y h = refl
app-welcome false x y h = sym h

pub handle_register-Keeps :
    (env : Env) (now : Instant) (nickname : String) (version : War3Version) (s : Session)
    (w : Server)
    → IsValid w.app
    → (s.registered ≡ false → get s.player_id w.app.players ≡ none)
    → Keeps s w (handle_register env now nickname version s w)
unfolding handle_register send broadcast registered_session
handle_register-Keeps env now nickname version s w v fresh =
    Keeps-if s w _ _ _ (λ again. Keeps-all s w _ refl v)
      (λ first.
        Keeps-if s w _ _ _ (λ full. Keeps-all s w _ refl v)
          (λ room.
            registered-Keeps env now nickname version s w v (fresh first) room _
              (app-welcome (starts_with nickname web_viewer_prefix) _ _ refl)))
