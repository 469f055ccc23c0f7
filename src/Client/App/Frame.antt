-- ===== src/Client/App/Frame.antt =====
-- `update` of crates/client/src/app.rs, with the buttons of the lobby (crates/client/src/ui/lobby.rs),
-- of the banner, of the wizard and of the settings: in one frame the user does one thing at most.
use war3_battle_tool.Prelude.{
  ℕ, String, List, [], ◌∷◌, Option, none, some, Bool, true, false, not, ◌&&◌, ◌==◌, leb, get_elem?,
  string_eq, if◌then◌else◌, Checked, done, ◌>>=◌,
}
use war3_battle_tool.Protocol.AddrSafety.{IpAddr, SocketAddr}
use war3_battle_tool.Protocol.Messages.{RoomInfo, join_room, close_room}
use war3_battle_tool.Protocol.War3.{War3Version}
use war3_battle_tool.Protocol.War3.Parse.{parse_gameinfo}
use war3_battle_tool.Client.CmdSender.{send_or_warn}
use war3_battle_tool.Client.Config.{AppConfig, is_configured}
use war3_battle_tool.Client.Tunnel.{TunnelEvent, gameinfo_captured}
use war3_battle_tool.Client.App.{
  War3App, ConnectionState, PendingAction, joining, creating_room, is_in_flight, is_hosting,
  send_register, abort_tunnel, abort_injection,
}
use war3_battle_tool.Client.App.Network.{Inbox, process_network_events}

pub data Ui : Type 0 where
  idle : Ui
  -- the button of the banner
  acknowledge : Ui
  -- the button of the room at an index
  join : ℕ → Ui
  -- the dialog, with the number of players
  create : ℕ → Ui
  close : Ui
  settings : AppConfig → Ui
  wizard_done : String → War3Version → Ui

-- `show_connection_overlay`: whether it covers the lobby.
unfoldable pub is_covered : War3App → Bool
is_covered a = elim a.connection_state [
  | ConnectionState.connected ↦ false
  | ConnectionState.disconnected ↦ not a.ever_connected
  | ConnectionState.reconnecting attempt ↦ true
]

unfoldable pub dismiss : Option PendingAction → Option PendingAction
unfolding is_in_flight
dismiss none = none
dismiss (some action) = if is_in_flight action then some action else none

-- Whether the room's button is 「加入」.
abbrev pub can_join : War3App → RoomInfo → Bool
can_join a room =
    not (is_configured a.config && room.host_nickname == a.config.nickname)
    && not (leb room.max_players room.current_players)

abbrev pub click_join : RoomInfo → War3App → War3App
click_join room a =
    let (sent, cmd_tx) = send_or_warn (join_room room.room_id) a.cmd_tx in
    record a {
      cmd_tx = cmd_tx;
      pending_action = if sent then some (joining room.room_name) else a.pending_action;
    }

unfoldable pub in_lobby : Ui → War3App → War3App
unfolding dismiss is_hosting send_or_warn is_configured
in_lobby acknowledge a = record a { pending_action = dismiss a.pending_action }
in_lobby (join i) a = elim (get_elem? a.rooms i) [
  | none ↦ a
  | some room ↦ if can_join a room then click_join room a else a
]
in_lobby (create max_players) a = record a {
  pending_action = some (creating_room "偵測中...");
  captures = max_players ∷ a.captures;
}
in_lobby close a =
    if is_hosting a
    then (let (_, cmd_tx) = send_or_warn close_room a.cmd_tx in record a { cmd_tx = cmd_tx })
    else a
in_lobby _ a = a

abbrev pub register_if_connected : ConnectionState → War3App → War3App
register_if_connected ConnectionState.connected a = send_register a
register_if_connected ConnectionState.disconnected a = a
register_if_connected (ConnectionState.reconnecting attempt) a = a

-- The wizard ends when its form is sent.
unfoldable pub in_wizard : Ui → War3App → War3App
unfolding send_register
in_wizard (wizard_done nickname war3_version) a =
    let a' : War3App = record a {
      config = record (a.config) { nickname = nickname; war3_version = war3_version };
      wizard = false;
    } in
    register_if_connected a.connection_state a'
in_wizard _ a = a

-- The main window, once the wizard is done.
unfoldable pub in_main : Ui → War3App → War3App
unfolding in_lobby is_covered
in_main (settings config) a = record a { config = config }
in_main u a = if is_covered a then a else in_lobby u a

unfoldable pub act : Ui → War3App → War3App
unfolding in_main in_wizard
act u a = if a.wizard then in_wizard u a else in_main u a

pub record FrameInput : Type 0 where
  pub inbox : Inbox
  pub ui : Ui

module _ (parse_ip : String → Option IpAddr) (parse_addr : String → Option SocketAddr)
    (show_addr : SocketAddr → String) where
  unfoldable pub update : FrameInput → War3App → War3App
  unfolding process_network_events act
  update frame a = act frame.ui (process_network_events parse_ip parse_addr show_addr frame.inbox a)

  unfoldable pub run : List FrameInput → War3App → War3App
  run [] a = a
  run (frame ∷ frames) a = run frames (update frame a)

-- `impl Drop`
unfoldable pub drop_app : War3App → War3App
unfolding abort_tunnel abort_injection
drop_app a = abort_injection (abort_tunnel a)

-- The task that `CreateRoom` starts, after `check_room`: the names are read from the packet.
-- `text` is the text of a list of code points.
unfoldable pub capture :
    (List ℕ → List ℕ) → (List ℕ → String) → ℕ → Option (List ℕ) → Checked TunnelEvent
unfolding parse_gameinfo
capture from_utf8_lossy text max_players checked =
    let gameinfo : List ℕ = elim checked [ none ↦ [] | some bytes ↦ bytes ] in
    parse_gameinfo from_utf8_lossy gameinfo >>= λ fields. elim fields [
      | none ↦ done (gameinfo_captured "" "" max_players gameinfo)
      | some f ↦ done (
          gameinfo_captured (text f.game_name)
            (elim f.map_path [ none ↦ "" | some path ↦ text path ]) max_players gameinfo)
    ]
