-- ===== src/Server/Ws/Tasks/Rooms.antt =====
-- Rooms within their limits, and what keeps them so: each change that a section of
-- crates/server/src/ws.rs makes to the map of the rooms.
use mathlib.Core.Option.{some-injective}
use war3_battle_tool.Prelude.{
  ◌≤◌, ◌≡◌, String, Bool, false, Option, none, some, arith, by_if, by_option, string_eq, eq_iff,
  leb, subst, sym, ◌==◌, Bool-cases, inl, inr,
}
use war3_battle_tool.HashMap.{HashMap, empty, get, insert, remove, modify}
use war3_battle_tool.HashMap.Laws.{get-insert, get-remove, modified_before}
use war3_battle_tool.Server.State.{Room, leave, leave_room, remove_room}
use war3_battle_tool.Server.Ws.Join.{enter, try_reserve}

-- A room has no more players than its limit, which is 12 at most.
abbrev pub Fits : Room → Type 0
Fits r = (r.current_players ≤ r.max_players) × (r.max_players ≤ 12)

abbrev pub AllFit : HashMap String Room → Type 0
AllFit rooms = (room_id : String) (r : Room) → get room_id rooms ≡ some r → Fits r

pub modify-AllFit :
    (k : String) (f : Room → Room) (rooms : HashMap String Room)
    → ((r : Room) → get k rooms ≡ some r → Fits r → Fits (f r))
    → AllFit rooms
    → AllFit (modify k f rooms)
modify-AllFit k f rooms keeps fit j r' h =
    let (r, before, same) = modified_before k j f rooms r' h in
    subst Fits (sym same) (
      by_if Fits (k == j) (f r) r (λ e. keeps r (ground (arith, eq_iff k j)) (fit j r before))
        (λ _. fit j r before))

pub remove-AllFit :
    (k : String) (rooms : HashMap String Room) → AllFit rooms → AllFit (remove k rooms)
remove-AllFit k rooms fit j r h = fit j r (ground (arith, get-remove k j rooms))

pub insert-AllFit :
    (k : String) (v : Room) (rooms : HashMap String Room)
    → Fits v
    → AllFit rooms
    → AllFit (insert k v rooms)
insert-AllFit k v rooms new fit j r h = elim (Bool-cases (k == j)) [
  | inl here ↦
      let same : some v ≡ some r = ground (arith, get-insert k j v rooms) in
      subst Fits (some-injective v r same) new
  | inr elsewhere ↦ fit j r (ground (arith, get-insert k j v rooms))
]

pub empty-AllFit : AllFit empty
unfolding get
empty-AllFit j r h = absurd (ground arith)

pub leave_room-AllFit :
    (o : Option String) (rooms : HashMap String Room) → AllFit rooms → AllFit (leave_room o rooms)
unfolding leave_room
leave_room-AllFit none rooms fit = fit
leave_room-AllFit (some k) rooms fit =
    modify-AllFit k leave rooms (λ r at h. (omega (arith, h.0), h.1)) fit

pub remove_room-AllFit :
    (o : Option String) (rooms : HashMap String Room) → AllFit rooms → AllFit (remove_room o rooms)
unfolding remove_room
remove_room-AllFit none rooms fit = fit
remove_room-AllFit (some k) rooms fit = remove-AllFit k rooms fit

pub try_reserve-AllFit :
    (k : String) (rooms : HashMap String Room) → AllFit rooms → AllFit (try_reserve k rooms).0
unfolding try_reserve
try_reserve-AllFit k rooms fit =
    by_option (λ (t : HashMap String Room × Bool). AllFit t.0) (get k rooms) (rooms, false) _
      (λ _. fit)
      (λ r at.
        by_if (λ (t : HashMap String Room × Bool). AllFit t.0) (leb r.max_players r.current_players)
          _ _ (λ _. fit)
          (λ free. modify-AllFit k enter rooms (λ r' at' h. (ground arith, h.1)) fit))
