-- ===== src/Client/App/Banner.antt =====
-- `show_pending_action_banner` of crates/client/src/app.rs: what the banner says, and whether it has a
-- spinner or a button. Colours and margins are left out.
use Prim.Native.String.{◌++◌ as cat}
use war3_battle_tool.Prelude.{
  String, Bool, true, false, Option, none, some, ◌≡◌, refl, not, is_none,
}
use war3_battle_tool.Client.App.{
  PendingAction, joining, join_success, join_failed, creating_room, server_error, is_in_flight,
}
use war3_battle_tool.Client.App.Frame.{dismiss}

record Banner : Type 0 where
  text : String
  has_spinner : Bool
  has_button : Bool

abbrev spinner : String → Banner
spinner text = record { text = text; has_spinner = true; has_button = false }

abbrev notice : String → Banner
notice text = record { text = text; has_spinner = false; has_button = true }

unfoldable banner : Option PendingAction → Option Banner
banner none = none
banner (some (joining room_name)) = some (spinner (cat "正在加入「" (cat room_name "」...")))
banner (some join_success) = some (notice "加入成功！請切換到 War3 區域網路畫面。")
banner (some (join_failed reason)) = some (notice (cat "加入失敗：" reason))
banner (some (creating_room room_name)) = some (spinner (cat "正在建立房間「" (cat room_name "」...")))
banner (some (server_error message)) = some (notice (cat "錯誤：" message))

-- What a banner offers: a spinner while the action waits for an answer, and otherwise the button that
-- dismisses it.
abbrev Offers : Option Banner → Option PendingAction → Type 0
Offers none action = (action ≡ none)
Offers (some b) action =
    (b.has_button ≡ not b.has_spinner) × (is_none (dismiss action) ≡ b.has_button)

-- There is a banner exactly while something is pending; its button is there exactly where the click of it
-- clears what is pending, and there is a spinner in its place otherwise.
banner-Offers : (action : Option PendingAction) → Offers (banner action) action
unfolding banner dismiss is_in_flight
banner-Offers none = refl
banner-Offers (some (joining room_name)) = (refl, refl)
banner-Offers (some join_success) = (refl, refl)
banner-Offers (some (join_failed reason)) = (refl, refl)
banner-Offers (some (creating_room room_name)) = (refl, refl)
banner-Offers (some (server_error message)) = (refl, refl)
