-- ===== src/Client/App/Creating.antt =====
-- The message with which the client asks for a room: the number of players is the panel's, the packet is
-- what the game answered.
use Prim.Native.String.{count}
use war3_battle_tool.Prelude.{
  ℕ, String, List, [], ◌∷◌, Option, none, some, ap, subst, get_elem?, zero, suc, All, ok, ◌≡◌, ◌≤◌,
  ◌↔◌, arith,
}
use war3_battle_tool.Protocol.Messages as Messages
use war3_battle_tool.Protocol.Messages.{validate}
use war3_battle_tool.Protocol.Messages.Validate.{IsBlank, validate-ok_iff}
use war3_battle_tool.Client.LobbyPanel as LobbyPanel
use war3_battle_tool.Client.LobbyPanel.{
  PanelFrame, KeepsRange, IsFair, run-IsFair, new, create_room,
}
use war3_battle_tool.Client.Packet.{Calls, FitsBuffer, check_room, check_room_bounds}

or_else {ℓ} : {A : Type ℓ} → A → Option A → A
or_else a none = a
or_else a (some b) = b

All-get_elem? {ℓ κ} :
    {A : Type ℓ} (P : A → Type κ) (xs : List A) (i : ℕ) (x : A)
    → All P xs
    → get_elem? xs i ≡ some x
    → P x
unfolding or_else
All-get_elem? P [] i x all h = cc
All-get_elem? P (y ∷ ys) zero x all h = subst P (ap (or_else y) h) all.0
All-get_elem? P (y ∷ ys) (suc i) x all h = All-get_elem? P ys i x all.1 h

-- Whatever is done with the panel, where its slider keeps within the range that it is made with, and
-- whatever packet the game answers, where the socket keeps within the buffer: the server accepts the
-- message that asks for a room with this number of players and this packet exactly where the names that
-- are sent with it are within their limits, and the room's is not blank.
pub created_room-validate :
    (url : String) (frames : List PanelFrame) (i max_players : ℕ) (c : Calls) (gameinfo : List ℕ)
    (room_name map_name : String)
    → All (λ f. KeepsRange f.input) frames
    → get_elem? (LobbyPanel.run frames (new url)).1 i ≡ some (create_room max_players)
    → FitsBuffer c.received
    → check_room c ≡ ok gameinfo
    → (validate (Messages.create_room room_name map_name max_players gameinfo) ≡ ok tt)
      ↔ ((count room_name ≤ 64) × (¬ IsBlank room_name) × (count map_name ≤ 128))
created_room-validate url frames i max_players c gameinfo room_name map_name fits asked got found =
    let actions = (LobbyPanel.run frames (new url)).1 in
    let fair =
      All-get_elem? IsFair actions i (create_room max_players)
        (run-IsFair frames (new url) fits (omega arith, omega arith)) asked in
    let (longer, no_longer) = check_room_bounds c gameinfo got found in
    let (to, from) =
      validate-ok_iff (Messages.create_room room_name map_name max_players gameinfo) in
    (λ h. let ok = to h in (ok.0, ok.1, ok.2), λ h. from (h.0, h.1, h.2, fair.0, fair.1, no_longer))
