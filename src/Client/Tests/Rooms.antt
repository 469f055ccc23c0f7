-- ===== src/Client/Tests/Rooms.antt =====
-- A room that the user makes.
use Prim.Native.String.{count}
use war3_battle_tool.Prelude.{
  ℕ, true, false, some, List, [], ◌∷◌, ok, refl, take, min, max, length-take, ◌≤◌, ◌≡◌, ◌↔◌, arith,
}
use war3_battle_tool.Protocol.Messages as Messages
use war3_battle_tool.Protocol.Messages.{validate}
use war3_battle_tool.Protocol.Messages.Validate.{IsBlank}
use war3_battle_tool.Client.LobbyPanel.{PanelFrame, open_dialog, slide, create, run, show}
use war3_battle_tool.Client.Packet.{Calls, check_room, send_times, answer}
use war3_battle_tool.Client.App.Creating.{created_room-validate}

-- The dialog is opened, set to eight players, and sent.
abbrev frames : List PanelFrame
frames =
    record { is_hosting = false; has_diagnostics = false; input = open_dialog }
    ∷ record {
      is_hosting = false;
      has_diagnostics = false;
      input = slide (λ low high. min (max 8 low) high);
    }
    ∷ record { is_hosting = false; has_diagnostics = false; input = create }
    ∷ []

abbrev packet : List ℕ
packet = 1 ∷ 2 ∷ 3 ∷ 4 ∷ 5 ∷ 6 ∷ 7 ∷ 8 ∷ 9 ∷ 10 ∷ 11 ∷ 12 ∷ 13 ∷ 14 ∷ 15 ∷ 16 ∷ 17 ∷ []

abbrev calls : Calls
calls = record {
  bound = true;
  timeout_set = true;
  sent = λ i. true;
  received = λ size. some (take size packet);
}

created_room-validate_example :
    (validate (Messages.create_room "dota" "maps" 8 packet) ≡ ok tt)
    ↔ ((count "dota" ≤ 64) × (¬ IsBlank "dota") × (count "maps" ≤ 128))
unfolding run show check_room send_times answer
created_room-validate_example =
    created_room-validate "https://war3.example" frames 2 8 calls packet "dota" "maps"
      (tt, (λ low high h. (omega arith, omega arith), (tt, tt))) refl
      (λ size bytes h. ground (arith, length-take size packet)) refl
