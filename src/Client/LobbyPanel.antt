-- ===== src/Client/LobbyPanel.antt =====
-- `LobbyPanel` of crates/client/src/ui/lobby.rs: what it keeps between frames, the dialog for a new
-- room, and which button and colour a room has. The drawing is left out.
use war3_battle_tool.Prelude.{
  ℕ, ◌*◌, String, Bool, true, false, Option, none, some, List, [], ◌∷◌, not, leb, ◌==◌, string_eq,
  if◌then◌else◌, ◌≡◌, ◌≢◌, ◌↔◌, All, ◌≤◌, arith,
}
use war3_battle_tool.Protocol.Messages.{RoomInfo}

pub record LobbyPanel : Type 0 where
  pub create_max_players : ℕ
  pub show_create_dialog : Bool
  pub show_diagnostics : Bool
  pub viewer_base_url : String

abbrev pub new : String → LobbyPanel
new viewer_base_url = record {
  create_max_players = 4;
  show_create_dialog = false;
  show_diagnostics = false;
  viewer_base_url = viewer_base_url;
}

pub data LobbyAction : Type 0 where
  no_action : LobbyAction
  create_room : ℕ → LobbyAction

-- What the user does with the panel's own controls. The slider of egui is an argument: the value that
-- it is set to, by the lower and the upper end of its range.
pub data Input : Type 0 where
  open_dialog : Input
  slide : (ℕ → ℕ → ℕ) → Input
  create : Input
  cancel : Input
  toggle_diagnostics : Input

-- `show_create_room_dialog`
unfoldable show_create_room_dialog : Input → LobbyPanel → LobbyPanel × LobbyAction
show_create_room_dialog (slide slider) p =
    (record p { create_max_players = slider 2 12 }, no_action)
show_create_room_dialog create p =
    (record p { show_create_dialog = false }, create_room p.create_max_players)
show_create_room_dialog cancel p = (record p { show_create_dialog = false }, no_action)
show_create_room_dialog _ p = (p, no_action)

-- The controls that are there: the button that opens the dialog while no room is hosted, the dialog
-- while it is open, and the details while there are any.
unfoldable pub show : Bool → Bool → Input → LobbyPanel → LobbyPanel × LobbyAction
unfolding show_create_room_dialog
show is_hosting has_diagnostics open_dialog p =
    (if is_hosting then p else record p { show_create_dialog = true }, no_action)
show is_hosting has_diagnostics toggle_diagnostics p = (
  if has_diagnostics then record p { show_diagnostics = not p.show_diagnostics } else p,
  no_action,
)
show is_hosting has_diagnostics (slide slider) p =
    if p.show_create_dialog then show_create_room_dialog (slide slider) p else (p, no_action)
show is_hosting has_diagnostics create p =
    if p.show_create_dialog then show_create_room_dialog create p else (p, no_action)
show is_hosting has_diagnostics cancel p =
    if p.show_create_dialog then show_create_room_dialog cancel p else (p, no_action)

-- A frame: whether a room is hosted, whether there are details, and what the user does.
pub record PanelFrame : Type 0 where
  pub is_hosting : Bool
  pub has_diagnostics : Bool
  pub input : Input

unfoldable pub run : List PanelFrame → LobbyPanel → LobbyPanel × List LobbyAction
unfolding show
run [] p = (p, [])
run (f ∷ frames) p =
    let (p', action) = show f.is_hosting f.has_diagnostics f.input p in
    let (p'', actions) = run frames p' in (p'', action ∷ actions)

-- The button of a room.
data Button : Type 0 where
  copy_link : Button
  full : Button
  join : Button

unfoldable room_button : Option String → RoomInfo → Button
room_button my_nickname room =
    let is_mine : Bool = elim my_nickname [
      | none ↦ false
      | some name ↦ room.host_nickname == name
    ] in
    if is_mine then copy_link else if leb room.max_players room.current_players then full else join

data Colour : Type 0 where
  green : Colour
  amber : Colour
  red : Colour

-- The badge with the number of players.
unfoldable badge_color : RoomInfo → Colour
badge_color room =
    if leb room.max_players room.current_players
    then red
    else if leb (room.max_players * 3) (room.current_players * 4)
    then amber
    else green

-- A slider sets its value within its range.
abbrev pub KeepsRange : Input → Type 0
KeepsRange (slide slider) =
    (low high : ℕ) → low ≤ high → (low ≤ slider low high) × (slider low high ≤ high)
KeepsRange _ = Unit

abbrev Holds : LobbyPanel → Type 0
Holds p = (2 ≤ p.create_max_players) × (p.create_max_players ≤ 12)

abbrev pub IsFair : LobbyAction → Type 0
IsFair no_action = Unit
IsFair (create_room n) = (2 ≤ n) × (n ≤ 12)

show-IsFair :
    (hosting details : Bool) (i : Input) (p : LobbyPanel)
    → KeepsRange i
    → Holds p
    → Holds (show hosting details i p).0 × IsFair (show hosting details i p).1
unfolding show
show-IsFair hosting details open_dialog p fits h = ground arith
show-IsFair hosting details (slide slider) p fits h = ground (arith, fits 2 12 (omega arith))
show-IsFair hosting details create p fits h = ground arith
show-IsFair hosting details cancel p fits h = ground arith
show-IsFair hosting details toggle_diagnostics p fits h = ground arith

-- Every room that the panel asks for has 2 to 12 players.
pub run-IsFair :
    (frames : List PanelFrame) (p : LobbyPanel)
    → All (λ f. KeepsRange f.input) frames
    → Holds p
    → All IsFair (run frames p).1
unfolding run
run-IsFair [] p fits h = tt
run-IsFair (f ∷ frames) p fits h =
    let (h', fair) = show-IsFair f.is_hosting f.has_diagnostics f.input p fits.0 h in
    (fair, run-IsFair frames _ fits.1 h')

-- A room that is not the user's own can be joined exactly while its badge is not red.
room_button-join_iff :
    (name : String) (room : RoomInfo)
    → (room_button (some name) room ≡ join)
      ↔ ((room.host_nickname == name) ≡ false) × (badge_color room ≢ red)
unfolding room_button badge_color
room_button-join_iff name room = ground arith
