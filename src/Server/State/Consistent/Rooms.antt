-- ===== src/Server/State/Consistent/Rooms.antt =====
-- How rooms change when players enter and leave: what a lookup finds after and before.
use war3_battle_tool.Prelude.{
  ◌-◌, ◌≡◌, refl, ap, String, true, Option, none, some, arith, ◌==◌, string_eq, eq_iff,
  if◌then◌else◌, bit,
}
use war3_battle_tool.HashMap.{HashMap, get}
use war3_battle_tool.HashMap.Laws.{get-remove, modified_before, modified_after}
use war3_battle_tool.HashMap.Unique.{HasUniqueKeys, modify-HasUniqueKeys, remove-HasUniqueKeys}
use war3_battle_tool.Server.State.{Room, leave, leave_room, remove_room}
use war3_battle_tool.Server.State.Consistent.{names}

-- The parts of a room that entering and leaving keep.
abbrev pub SameRoom : Room → Room → Type 0
SameRoom r r' =
    (r'.room_id ≡ r.room_id)
    × (r'.host_player_id ≡ r.host_player_id)
    × (r'.max_players ≡ r.max_players)

pub left_before :
    (o : Option String) (rid : String) (rooms : HashMap String Room) (r' : Room)
    → get rid (leave_room o rooms) ≡ some r'
    → (r : Room) × (get rid rooms ≡ some r)
      × SameRoom r r'
      × (r'.current_players ≡ r.current_players - bit (names o rid))
unfolding leave_room
left_before none rid rooms r' h = (r', h, (refl, refl, refl), omega arith)
left_before (some j) rid rooms r' h =
    let (r, found, same) = modified_before j rid leave rooms r' h in
    (r, found, ground arith, ground arith)

pub left_after :
    (o : Option String) (rid : String) (rooms : HashMap String Room) (r : Room)
    → get rid rooms ≡ some r
    → (r' : Room) × (get rid (leave_room o rooms) ≡ some r')
      × (r'.host_player_id ≡ r.host_player_id)
unfolding leave_room
left_after none rid rooms r h = (r, h, refl)
left_after (some j) rid rooms r h =
    (if j == rid then leave r else r, modified_after j rid leave rooms r h, ground arith)

pub leave_room-HasUniqueKeys :
    (o : Option String) (rooms : HashMap String Room)
    → HasUniqueKeys rooms
    → HasUniqueKeys (leave_room o rooms)
unfolding leave_room
leave_room-HasUniqueKeys none rooms u = u
leave_room-HasUniqueKeys (some j) rooms u = modify-HasUniqueKeys j leave rooms u

pub get-remove_room :
    (o : Option String) (rid : String) (rooms : HashMap String Room)
    → get rid (remove_room o rooms) ≡ (if names o rid then none else get rid rooms)
unfolding remove_room
get-remove_room none rid rooms = refl
get-remove_room (some j) rid rooms = get-remove j rid rooms

pub remove_room-HasUniqueKeys :
    (o : Option String) (rooms : HashMap String Room)
    → HasUniqueKeys rooms
    → HasUniqueKeys (remove_room o rooms)
unfolding remove_room
remove_room-HasUniqueKeys none rooms u = u
remove_room-HasUniqueKeys (some j) rooms u = remove-HasUniqueKeys j rooms u

pub names-some : (o : Option String) (rid : String) → names o rid ≡ true → o ≡ some rid
names-some none rid h = cc
names-some (some j) rid h = ap some ((eq_iff j rid).0 h)

pub names_self : (o : Option String) (rid : String) → o ≡ some rid → names o rid ≡ true
names_self o rid h = ground (arith, eq_iff rid rid)
