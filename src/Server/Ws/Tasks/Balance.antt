-- ===== src/Server/Ws/Tasks/Balance.antt =====
-- How the sections of crates/server/src/ws.rs that take or give back a place change the ledger of the
-- rooms.
use war3_battle_tool.Prelude.{
  ◌+◌, ◌≤◌, ◌<◌, ◌≡◌, refl, String, Option, none, some, arith, string_eq, eq_iff, ◌==◌, Bool-cases,
  inl, inr,
}
use war3_battle_tool.HashMap.{get, remove, modify}
use war3_battle_tool.HashMap.Laws.{get-insert, get-modify, modified_before}
use war3_battle_tool.HashMap.Unique.{
  remove-HasUniqueKeys, modify-HasUniqueKeys, count-split, count-modify,
}
use war3_battle_tool.Server.State.{AppState, ConnectedPlayer, Room, leave, leave_room, remove_room}
use war3_battle_tool.Server.State.Consistent.{is_in}
use war3_battle_tool.Server.Ws.Join.{enter, joined_in}
use war3_battle_tool.Server.Ws.Tasks.{change_player, forget_player, open_room, vacate, settle}
use war3_battle_tool.Server.Ws.Tasks.Rooms.{modify-AllFit, insert-AllFit, leave_room-AllFit}
use war3_battle_tool.Server.Ws.Tasks.Ledger.{
  Amounts, one, Balanced, Balanced-ext, players_change, drop-Balanced,
}

-- The player enters `room_id`, for which a place has been taken, and owes the place in the old room.
pub move-Balanced :
    (o d : Amounts) (a : AppState) (id room_id : String) (p : ConnectedPlayer)
    → get id a.players ≡ some p
    → Balanced (λ i. one (some room_id) i + o i) d a
    → Balanced (λ i. one p.joined_room i + o i) d (change_player id (joined_in room_id) a)
move-Balanced o d a id room_id p found b =
    players_change (λ i. one (some room_id) i + o i) d (λ i. one p.joined_room i + o i) a
      (modify id (joined_in room_id) a.players)
      (modify-HasUniqueKeys id (joined_in room_id) a.players b.players_unique)
      (λ i.
        omega
          (arith, count-modify (is_in i) id (joined_in room_id) p a.players b.players_unique found))
      b

-- The place of a player who is removed is owed.
pub forget-Balanced :
    (o d : Amounts) (a : AppState) (id : String) (p : ConnectedPlayer)
    → get id a.players ≡ some p
    → Balanced o d a
    → Balanced (λ i. one p.joined_room i + o i) d (forget_player id a)
forget-Balanced o d a id p found b =
    players_change o d (λ i. one p.joined_room i + o i) a (remove id a.players)
      (remove-HasUniqueKeys id a.players b.players_unique)
      (λ i. omega (arith, count-split (is_in i) id p a.players b.players_unique found)) b

-- A place that is owed is given back.
pub vacate-Balanced :
    (o d : Amounts) (a : AppState) (j : Option String)
    → Balanced (λ i. one j i + o i) d a
    → Balanced o d (vacate j a)
unfolding leave_room
vacate-Balanced o d a none b =
    Balanced-ext (λ i. one none i + o i) d o d a (λ i. omega arith) (λ i. refl) b
vacate-Balanced o d a (some k) b = record {
  players_unique = b.players_unique;
  fit = leave_room-AllFit (some k) a.rooms b.fit;
  counted = λ i r' at.
      let (r, before, same) = modified_before k i leave a.rooms r' at in
      ground (arith, same, b.counted i r before);
  drawn_once = b.drawn_once;
  undrawn = λ i h.
      let (no_room, empty) = b.undrawn i h in
      (ground (arith, get-modify k i leave a.rooms), omega (arith, empty));
}

-- A place that is taken is owed.
pub enter-room-Balanced :
    (o d : Amounts) (a : AppState) (k : String) (r : Room)
    → get k a.rooms ≡ some r
    → r.current_players < r.max_players
    → Balanced o d a
    → Balanced (λ i. one (some k) i + o i) d (record a { rooms = modify k enter a.rooms })
enter-room-Balanced o d a k r found free b = record {
  players_unique = b.players_unique;
  fit = modify-AllFit k enter a.rooms (λ r' at h. (ground arith, h.1)) b.fit;
  counted = λ i r' at.
      let (q, before, same) = modified_before k i enter a.rooms r' at in
      ground (arith, same, b.counted i q before, eq_iff k i, b.fit i q before);
  drawn_once = b.drawn_once;
  undrawn = λ i h.
      let (no_room, empty) = b.undrawn i h in
      (ground (arith, get-modify k i enter a.rooms), ground (arith, empty, eq_iff k i));
}

-- The room of an identifier that has not been drawn before.
pub open-Balanced :
    (o d : Amounts) (a : AppState) (k : String) (r : Room)
    → r.current_players ≡ 1
    → 2 ≤ r.max_players
    → r.max_players ≤ 12
    → Balanced o (λ i. one (some k) i + d i) a
    → Balanced o d (open_room k r a)
open-Balanced o d a k r alone low high b = record {
  players_unique = b.players_unique;
  fit = insert-AllFit k r a.rooms (omega arith, high) b.fit;
  counted = λ i r' at. elim (Bool-cases (k == i)) [
    | inl here ↦
        let (no_room, empty) = b.undrawn i (ground (arith, eq_iff k i)) in
        ground (arith, get-insert k i r a.rooms, empty)
    | inr elsewhere ↦ b.counted i r' (ground (arith, get-insert k i r a.rooms))
  ];
  drawn_once = λ i. omega (arith, b.drawn_once i);
  undrawn = λ i h.
      let (no_room, empty) = b.undrawn i (omega arith) in
      (ground (arith, get-insert k i r a.rooms, b.drawn_once i), empty);
}

close-Balanced :
    (o d : Amounts) (a : AppState) (h : Option String)
    → Balanced o d a
    → Balanced o d (record a { rooms = remove_room h a.rooms })
unfolding remove_room
close-Balanced o d a none b = b
close-Balanced o d a (some k) b = drop-Balanced o d a b k

pub settle-Balanced :
    (o d : Amounts) (a : AppState) (p : ConnectedPlayer)
    → Balanced (λ i. one p.joined_room i + o i) d a
    → Balanced o d (settle p a)
settle-Balanced o d a p b =
    vacate-Balanced o d (record a { rooms = remove_room p.hosting_room a.rooms }) p.joined_room
      (close-Balanced (λ i. one p.joined_room i + o i) d a p.hosting_room b)
