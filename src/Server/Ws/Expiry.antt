-- ===== src/Server/Ws/Expiry.antt =====
-- Who the cleanup removes.
use war3_battle_tool.Prelude.{
  ℕ, ◌≡◌, refl, ap, ◌∙◌, String, Bool, Option, none, some, List, [], ◌∷◌, any, not, arith, ◌==◌,
  string_eq, if◌then◌else◌, eq_iff, is_empty,
}
use war3_battle_tool.HashMap.{HashMap, get}
use war3_battle_tool.HashMap.Laws.{get-remove}
use war3_battle_tool.HashMap.Unique.{HasUniqueKeys, keep_if, holds}
use war3_battle_tool.Server.State.{
  AppState, ConnectedPlayer, is_expired, expired_ids, find_expired, remove_player,
}
use war3_battle_tool.Server.Time.{Instant}
use war3_battle_tool.Server.Ws.{Server, broadcast}
use war3_battle_tool.Server.Ws.Loop.{
  heartbeat_timeout, grace_period, remove_players, on_cleanup_tick,
}

pub expired_ids_lem :
    (now : Instant) (t g : ℕ) (j : String) (players : HashMap String ConnectedPlayer)
    → HasUniqueKeys players
    → any (λ i. i == j) (expired_ids now t g players) ≡ holds (is_expired now t g) (get j players)
unfolding expired_ids get
expired_ids_lem now t g j [] u = refl
expired_ids_lem now t g j ((id, p) ∷ players) u =
    ground (arith, expired_ids_lem now t g j players u.1, eq_iff id j)

get-remove_player :
    (id j : String) (a : AppState)
    → get j (remove_player id a).players ≡ (if id == j then none else get j a.players)
unfolding remove_player
get-remove_player id j a = ground (arith, get-remove id j a.players, eq_iff id j)

get-remove_players :
    (ids : List String) (j : String) (a : AppState)
    → get j (remove_players ids a).players
      ≡ (if any (λ i. i == j) ids then none else get j a.players)
unfolding remove_players
get-remove_players [] j a = refl
get-remove_players (id ∷ ids) j a =
    ground (arith, get-remove_players ids j (remove_player id a), get-remove_player id j a)

after_tick :
    (ids : List String) (a : AppState) (x y : Server)
    → x.app ≡ a
    → y.app ≡ remove_players ids a
    → (if is_empty ids then x else y).app ≡ remove_players ids a
unfolding remove_players
after_tick [] a x y h k = h
after_tick (id ∷ ids) a x y h k = k

pub on_cleanup_tick-app :
    (now : Instant) (w : Server)
    → (on_cleanup_tick now w).app
      ≡ remove_players (expired_ids now heartbeat_timeout grace_period w.app.players) w.app
unfolding on_cleanup_tick broadcast find_expired
on_cleanup_tick-app now w =
    after_tick (expired_ids now heartbeat_timeout grace_period w.app.players) w.app _ _ refl refl

keep_if-not :
    (p : ConnectedPlayer → Bool) (o : Option ConnectedPlayer)
    → (if holds p o then none else o) ≡ keep_if (λ v. not (p v)) o
keep_if-not p none = refl
keep_if-not p (some v) = ground arith

-- One tick of the cleanup leaves exactly the players who are not expired, as they were: a connected
-- player is expired where the last heartbeat is more than 30 s old, a disconnected one where the
-- connection ended more than 60 s ago.
pub on_cleanup_tick-players :
    (now : Instant) (j : String) (w : Server)
    → HasUniqueKeys w.app.players
    → get j (on_cleanup_tick now w).app.players
      ≡ keep_if (λ p. not (is_expired now heartbeat_timeout grace_period p)) (get j w.app.players)
on_cleanup_tick-players now j w u =
    ap (λ a. get j a.players) (on_cleanup_tick-app now w)
    ∙ get-remove_players (expired_ids now heartbeat_timeout grace_period w.app.players) j w.app
    ∙ ap (λ b. if b then none else get j w.app.players)
        (expired_ids_lem now heartbeat_timeout grace_period j w.app.players u)
    ∙ keep_if-not _ (get j w.app.players)
