-- ===== src/Server/Ws/Tasks/Ledger.antt =====
-- What the rooms count, while tasks of crates/server/src/ws.rs are on their way: each place of a room is
-- its host's, that of a player in it, or owed by a task that has taken it or has yet to give it back.
use war3_battle_tool.Prelude.{
  ℕ, ◌+◌, ◌≤◌, ◌≡◌, ap, String, Bool, Option, none, some, [], ◌∷◌, arith, string_eq, bit,
}
use war3_battle_tool.HashMap.{HashMap, get, insert, remove, modify, count}
use war3_battle_tool.HashMap.Laws.{get-remove, count-insert, count-modify_same}
use war3_battle_tool.HashMap.Unique.{HasUniqueKeys, insert-HasUniqueKeys, modify-HasUniqueKeys}
use war3_battle_tool.Server.State.{AppState, ConnectedPlayer, Room}
use war3_battle_tool.Server.State.Consistent.{is_in, names}
use war3_battle_tool.Server.Ws.Tasks.{enter_player, change_player, drop_room}
use war3_battle_tool.Server.Ws.Tasks.Rooms.{AllFit, remove-AllFit}

-- How many players are in the room.
abbrev pub members : String → HashMap String ConnectedPlayer → ℕ
members i players = count (is_in i) players

-- For each room the places that are owed, and how many tasks may still draw its identifier.
abbrev pub Amounts : Type 0
Amounts = String → ℕ

abbrev pub nothing : Amounts
nothing i = 0

abbrev pub one : Option String → Amounts
one o i = bit (names o i)

pub record Balanced (owed drawn : Amounts) (a : AppState) : Type 0 where
  pub players_unique : HasUniqueKeys a.players
  pub fit : AllFit a.rooms
  pub counted :
      (i : String) (r : Room)
      → get i a.rooms ≡ some r
      → 1 + (members i a.players + owed i) ≤ r.current_players
  pub drawn_once : (i : String) → drawn i ≤ 1
  pub undrawn :
      (i : String) → 1 ≤ drawn i → (get i a.rooms ≡ none) × (members i a.players + owed i ≡ 0)

-- Only the amounts matter, not how they are written.
pub Balanced-ext :
    (o d o' d' : Amounts) (a : AppState)
    → ((i : String) → o' i ≡ o i)
    → ((i : String) → d' i ≡ d i)
    → Balanced o d a
    → Balanced o' d' a
Balanced-ext o d o' d' a same_o same_d b = record {
  players_unique = b.players_unique;
  fit = b.fit;
  counted = λ i r at. omega (arith, same_o i, b.counted i r at);
  drawn_once = λ i. omega (arith, same_d i, b.drawn_once i);
  undrawn = λ i h.
      let (no_room, empty) = b.undrawn i (omega (arith, same_d i)) in
      (no_room, omega (arith, same_o i, empty));
}

-- The players change, and no room has more players and debts than before.
pub players_change :
    (o d o' : Amounts) (a : AppState) (players : HashMap String ConnectedPlayer)
    → HasUniqueKeys players
    → ((i : String) → members i players + o' i ≤ members i a.players + o i)
    → Balanced o d a
    → Balanced o' d (record a { players = players })
players_change o d o' a players unique fewer b = record {
  players_unique = unique;
  fit = b.fit;
  counted = λ i r at. omega (arith, fewer i, b.counted i r at);
  drawn_once = b.drawn_once;
  undrawn = λ i h. let (no_room, empty) = b.undrawn i h in (no_room, omega (arith, fewer i, empty));
}

count-remove_le :
    (p : ConnectedPlayer → Bool) (k : String) (m : HashMap String ConnectedPlayer)
    → count p (remove k m) ≤ count p m
unfolding count remove
count-remove_le p k [] = omega arith
count-remove_le p k ((j, q) ∷ m) = ground (arith, count-remove_le p k m)

module _ (o d : Amounts) (a : AppState) (b : Balanced o d a) where
  pub enter-Balanced :
      (id : String) (p : ConnectedPlayer)
      → p.joined_room ≡ none
      → Balanced o d (enter_player id p a)
  enter-Balanced id p outside =
      players_change o d o a (insert id p a.players)
        (insert-HasUniqueKeys id p a.players b.players_unique)
        (λ i.
          let outsider : bit (is_in i p) ≡ 0 = ap (λ j. bit (names j i)) outside in
          omega (
            arith,
            outsider,
            count-insert (is_in i) id p a.players,
            count-remove_le (is_in i) id a.players,
          ))
        b

  pub change-Balanced :
      (id : String) (f : ConnectedPlayer → ConnectedPlayer)
      → ((p : ConnectedPlayer) → (f p).joined_room ≡ p.joined_room)
      → Balanced o d (change_player id f a)
  change-Balanced id f same =
      players_change o d o a (modify id f a.players)
        (modify-HasUniqueKeys id f a.players b.players_unique)
        (λ i.
          omega
            (arith, count-modify_same (is_in i) id f a.players (λ p. ap (λ j. names j i) (same p))))
        b

  pub drop-Balanced : (k : String) → Balanced o d (drop_room k a)
  drop-Balanced k = record {
    players_unique = b.players_unique;
    fit = remove-AllFit k a.rooms b.fit;
    counted = λ i r at. b.counted i r (ground (arith, get-remove k i a.rooms));
    drawn_once = b.drawn_once;
    undrawn = λ i h.
        let (no_room, empty) = b.undrawn i h in (ground (arith, get-remove k i a.rooms), empty);
  }
