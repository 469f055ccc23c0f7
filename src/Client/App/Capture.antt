-- ===== src/Client/App/Capture.antt =====
-- The capture task of `LobbyAction::CreateRoom` in crates/client/src/app.rs, after the parser of
-- crates/protocol/src/war3.rs, and what the app does with its event.
use war3_battle_tool.Prelude.{
  ℕ, String, List, [], ◌∷◌, ◌++◌, Option, none, some, ◌≡◌, refl, Checked, done, >>=-done, is_empty,
  if◌then◌else◌, arith,
}
use war3_battle_tool.Protocol.Messages.{create_room}
use war3_battle_tool.Protocol.War3.Parse.{GameinfoFields, parse_gameinfo}
use war3_battle_tool.Protocol.War3.Total.{parse_gameinfo-Returns}
use war3_battle_tool.Client.CmdSender.{send_or_warn}
use war3_battle_tool.Client.Tunnel.{TunnelEvent, gameinfo_captured}
use war3_battle_tool.Client.App.{War3App}
use war3_battle_tool.Client.App.Frame.{capture}
use war3_battle_tool.Client.App.Network.{on_tunnel_event}

-- The packet that was found, or no bytes.
abbrev pub packet : Option (List ℕ) → List ℕ
packet checked = elim checked [ none ↦ [] | some bytes ↦ bytes ]

-- What is sent to the server, and what stays pending, after a capture of these bytes.
pub record IsReported (room_name map_name : String) (max_players : ℕ) (gameinfo : List ℕ)
    (a b : War3App) : Type 0 where
  pub queued : b.cmd_tx.queue ≡ (
      if is_empty gameinfo
      then a.cmd_tx.queue
      else if a.cmd_tx.open_end
      then a.cmd_tx.queue ++ create_room room_name map_name max_players gameinfo ∷ []
      else a.cmd_tx.queue)
  pub pending :
      b.pending_action
      ≡ (if is_empty gameinfo then none else if a.cmd_tx.open_end then a.pending_action else none)

captured-IsReported :
    (room_name map_name : String) (max_players : ℕ) (gameinfo : List ℕ) (a : War3App)
    → IsReported room_name map_name max_players gameinfo a
        (on_tunnel_event (gameinfo_captured room_name map_name max_players gameinfo) a)
unfolding on_tunnel_event send_or_warn
captured-IsReported room_name map_name max_players [] a = record { queued = refl; pending = refl }
captured-IsReported room_name map_name max_players (x ∷ gameinfo) a = record {
  queued = ground arith;
  pending = ground arith;
}

captured_fields :
    (text : List ℕ → String) (max_players : ℕ) (gameinfo : List ℕ) (fields : Option GameinfoFields)
    → (room_name : String) × (map_name : String) × (elim fields as (λ _. Checked TunnelEvent) [
      | none ↦ done (gameinfo_captured "" "" max_players gameinfo)
      | some f ↦ done (
          gameinfo_captured
            (text f.game_name)
            (elim f.map_path [ none ↦ "" | some path ↦ text path ])
            max_players
            gameinfo)
    ]
        ≡ done (gameinfo_captured room_name map_name max_players gameinfo))
captured_fields text max_players gameinfo none = ("", "", refl)
captured_fields text max_players gameinfo (some f) = (_, _, refl)

-- Whatever bytes answer on the game's port, or if none do: the capture does not panic and tells the
-- app of those bytes; then the app asks the server for the room with them if there are any and the
-- network task runs, and otherwise stops waiting.
pub capture_reports :
    (from_utf8_lossy : List ℕ → List ℕ) (text : List ℕ → String) (max_players : ℕ)
    (checked : Option (List ℕ)) (a : War3App)
    → (room_name : String) × (map_name : String) × (e : TunnelEvent) × (capture from_utf8_lossy text
          max_players checked
        ≡ done e)
      × IsReported room_name map_name max_players (packet checked) a (on_tunnel_event e a)
unfolding capture
capture_reports lossy text max_players checked a =
    let (fields, parsed) = parse_gameinfo-Returns lossy (packet checked) in
    let (room_name, map_name, same) = captured_fields text max_players (packet checked) fields in
    (
      room_name,
      map_name,
      gameinfo_captured room_name map_name max_players (packet checked),
      >>=-done (parse_gameinfo lossy (packet checked)) _ parsed same,
      captured-IsReported room_name map_name max_players (packet checked) a,
    )
