-- ===== src/Server/Ws/Tasks/Orphan.antt =====
-- `CreateRoom` of crates/server/src/ws.rs that is dropped between the two sections in which it writes:
-- the room is in the map, and no player hosts it.
use mathlib.Core.Option.{some-injective, none-ne-some}
use war3_battle_tool.Prelude.{
  ℕ, ◌≡◌, ◌≢◌, ◌<◌, sym, subst, ap, ◌∙◌, String, Bool, true, false, Option, none, some, List, [],
  ◌∷◌, All, map, arith, string_eq, eq_iff, ◌==◌, Bool-cases, Option-cases, inl, inr, leb, by_if,
  by_option,
}
use war3_battle_tool.HashMap as HashMap
use war3_battle_tool.HashMap.{HashMap, get, insert, remove, modify}
use war3_battle_tool.HashMap.Laws.{get-insert, get-remove, modified_before, modified_after}
use war3_battle_tool.Server.State.{AppState, ConnectedPlayer, Room, leave, leave_room, remove_room}
use war3_battle_tool.Server.Ws.{Session, hosted, host_in, host_nothing, new_room}
use war3_battle_tool.Server.Ws.Join.{enter, try_reserve}
use war3_battle_tool.Server.Ws.Tasks.{Work, task_of, create_task, interleave, open_room}
use war3_battle_tool.Server.Ws.Tasks.Keeps.{SectionsKeep, IsAdmitted}
use war3_battle_tool.Server.Ws.Tasks.Interleaved.{interleaved-Keeps}

module _ (room_id : String) where
  abbrev pub IsThere : HashMap String Room → Type 0
  IsThere rooms = (r : Room) × (get room_id rooms ≡ some r)

  -- No player hosts the room.
  abbrev pub IsUnhosted : HashMap String ConnectedPlayer → Type 0
  IsUnhosted players =
      (id : String) (p : ConnectedPlayer) → get id players ≡ some p → p.hosting_room ≢ some room_id

  abbrev pub IsOrphan : AppState → Type 0
  IsOrphan a = IsThere a.rooms × IsUnhosted a.players

  modify-IsThere :
      (k : String) (f : Room → Room) (rooms : HashMap String Room)
      → IsThere rooms
      → IsThere (modify k f rooms)
  modify-IsThere k f rooms (r, at) = (_, modified_after k room_id f rooms r at)

  remove-IsThere :
      (k : String) (rooms : HashMap String Room)
      → k ≢ room_id
      → IsThere rooms
      → IsThere (remove k rooms)
  remove-IsThere k rooms other (r, at) =
      (r, ground (arith, get-remove k room_id rooms, eq_iff k room_id))

  insert-IsThere :
      (k : String) (v : Room) (rooms : HashMap String Room)
      → k ≢ room_id
      → IsThere rooms
      → IsThere (insert k v rooms)
  insert-IsThere k v rooms other (r, at) =
      (r, ground (arith, get-insert k room_id v rooms, eq_iff k room_id))

  leave_room-IsThere :
      (o : Option String) (rooms : HashMap String Room)
      → IsThere rooms
      → IsThere (leave_room o rooms)
  unfolding leave_room
  leave_room-IsThere none rooms h = h
  leave_room-IsThere (some k) rooms h = modify-IsThere k leave rooms h

  remove_room-IsThere :
      (o : Option String) (rooms : HashMap String Room)
      → o ≢ some room_id
      → IsThere rooms
      → IsThere (remove_room o rooms)
  unfolding remove_room
  remove_room-IsThere none rooms other h = h
  remove_room-IsThere (some k) rooms other h =
      remove-IsThere k rooms (λ same. other (ap some same)) h

  try_reserve-IsThere :
      (k : String) (rooms : HashMap String Room) → IsThere rooms → IsThere (try_reserve k rooms).0
  unfolding try_reserve
  try_reserve-IsThere k rooms h =
      by_option (λ (t : HashMap String Room × Bool). IsThere t.0) (get k rooms) (rooms, false) _
        (λ _. h)
        (λ r at.
          by_if (λ (t : HashMap String Room × Bool). IsThere t.0)
            (leb r.max_players r.current_players) _ _ (λ _. h)
            (λ _. modify-IsThere k enter rooms h))

  change-IsUnhosted :
      (k : String) (f : ConnectedPlayer → ConnectedPlayer)
      (players : HashMap String ConnectedPlayer)
      → ((p : ConnectedPlayer) → p.hosting_room ≢ some room_id → (f p).hosting_room ≢ some room_id)
      → IsUnhosted players
      → IsUnhosted (modify k f players)
  change-IsUnhosted k f players keeps h j p' at =
      let (p, before, same) = modified_before k j f players p' at in
      subst (λ (q : ConnectedPlayer). q.hosting_room ≢ some room_id) (sym same)
        (by_if (λ (q : ConnectedPlayer). q.hosting_room ≢ some room_id) (k == j) (f p) p
          (λ _. keeps p (h j p before)) (λ _. h j p before))

  enter-IsUnhosted :
      (k : String) (p : ConnectedPlayer) (players : HashMap String ConnectedPlayer)
      → p.hosting_room ≡ none
      → IsUnhosted players
      → IsUnhosted (insert k p players)
  enter-IsUnhosted k p players idle h j q at hosts = elim (Bool-cases (k == j)) [
    | inl here ↦ ground (arith, get-insert k j p players)
    | inr elsewhere ↦ h j q (ground (arith, get-insert k j p players)) hosts
  ]

  hosted-IsUnhosted :
      (id k : String) (players : HashMap String ConnectedPlayer)
      → IsUnhosted players
      → hosted (get id players) ≡ some k
      → k ≢ room_id
  hosted-IsUnhosted id k players h at same = elim (Option-cases (get id players)) [
    | inl absent ↦ ground arith
    | inr (p, found) ↦ h id p found (ground arith)
  ]

  sections-IsOrphan : SectionsKeep IsOrphan (λ fresh. fresh ≢ room_id)
  sections-IsOrphan = record {
    enters = λ id p a idle h. (h.0, enter-IsUnhosted id p a.players idle h.1);
    changes = λ id f a same h.
        (h.0, change-IsUnhosted id f a.players (λ p not_it it. not_it (sym (same p) ∙ it)) h.1);
    unhosts = λ id a h. (
      h.0,
      change-IsUnhosted id host_nothing a.players (λ p not_it it. none-ne-some room_id it) h.1,
    );
    hosts = λ id fresh a other h. (
      h.0,
      change-IsUnhosted id (host_in fresh) a.players (λ p not_it it. other (some-injective _ _ it))
          h.1,
    );
    forgets = λ id a h. (h.0, λ j p at. h.1 j p (ground (arith, get-remove id j a.players)));
    opens = λ fresh r a other now limit h. (insert-IsThere fresh r a.rooms other h.0, h.1);
    drops = λ id k b a h_b at h.
        (remove-IsThere k a.rooms (hosted-IsUnhosted id k b.players h_b.1 at) h.0, h.1);
    settles = λ id p b a h_b at h. (
      leave_room-IsThere p.joined_room _
          (remove_room-IsThere p.hosting_room a.rooms (h_b.1 id p at) h.0),
      h.1,
    );
    vacates = λ k a h. (leave_room-IsThere (some k) a.rooms h.0, h.1);
    reserves = λ k a h. (try_reserve-IsThere k a.rooms h.0, h.1);
  }

  -- A room that no player hosts stays in the map, whatever else is done: no message, end of a connection
  -- or tick of the cleanup removes it, however their sections interleave, as long as no new room draws
  -- its identifier.
  interleaved-IsOrphan :
      (works : List Work) (schedule : List ℕ) (a : AppState)
      → All (IsAdmitted (λ fresh. fresh ≢ room_id)) works
      → IsOrphan a
      → IsOrphan (interleave schedule (map task_of works) a).1
  interleaved-IsOrphan = interleaved-Keeps IsOrphan (λ fresh. fresh ≢ room_id) sections-IsOrphan

module _ (room_id room_name map_name : String) (n : ℕ) (gameinfo : List ℕ) (s : Session) where
  -- Three of the four sections of `CreateRoom`.
  unfoldable pub cut_off : AppState → AppState
  unfolding interleave create_task
  cut_off a =
      (interleave (0 ∷ 0 ∷ 0 ∷ []) (create_task room_id room_name map_name n gameinfo s ∷ []) a).1

  module _ (a : AppState) (p : ConnectedPlayer) (registered : s.registered ≡ true)
      (player : s.is_web_viewer ≡ false) (found : get s.player_id a.players ≡ some p)
      (idle : p.hosting_room ≡ none) (few : HashMap.len a.rooms < 200) where
    cut_off-eq :
        cut_off a
        ≡ open_room room_id (new_room room_id room_name map_name n gameinfo s.player_id p) a
    unfolding cut_off create_task interleave
    cut_off-eq = ground arith

    cut_off-IsOrphan : IsUnhosted room_id a.players → IsOrphan room_id (cut_off a)
    cut_off-IsOrphan unhosted =
        let r = new_room room_id room_name map_name n gameinfo s.player_id p in
        subst (IsOrphan room_id) (sym cut_off-eq) (
          (r, ground (arith, get-insert room_id room_id r a.rooms, eq_iff room_id room_id)),
          unhosted,
        )

    -- A `CreateRoom` that is dropped after it has put its room into the map, and before it notes the
    -- room with its host, leaves a room that nothing removes: whatever messages, ends of connections and
    -- ticks of the cleanup follow, and however they interleave, the room is in the map and no player
    -- hosts it, as long as no new room draws its identifier.
    pub cut_off_stays :
        (works : List Work) (schedule : List ℕ)
        → IsUnhosted room_id a.players
        → All (IsAdmitted (λ fresh. fresh ≢ room_id)) works
        → IsOrphan room_id (interleave schedule (map task_of works) (cut_off a)).1
    cut_off_stays works schedule unhosted fresh =
        interleaved-IsOrphan room_id works schedule (cut_off a) fresh (cut_off-IsOrphan unhosted)
