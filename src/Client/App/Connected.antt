-- ===== src/Client/App/Connected.antt =====
-- crates/client/src/app.rs together with the network task of crates/client/src/net/discovery.rs.
use war3_battle_tool.Prelude.{
  ℕ, ◌≡◌, refl, String, List, [], ◌∷◌, ◌++◌, Option, none, some, Bool, true, false, by_if,
  by_option, not, ◌&&◌, is_empty, get_elem?, ap, sym, ◌∙◌, subst, Bool-cases, inl, inr,
}
use war3_battle_tool.Protocol.AddrSafety.{IpAddr, SocketAddr, is_safe_external_addr}
use war3_battle_tool.Protocol.Messages.{
  create_room, RoomInfo, ServerMessage, join_result, player_joined, tunnel_ready, stun_info,
  peer_upnp_addr, your_observed_addr,
}
use war3_battle_tool.Client.CmdSender.{CmdSender, send_or_warn}
use war3_battle_tool.Client.Config.{AppConfig, is_configured}
use war3_battle_tool.Client.Discovery.{NetEvent, server_message}
use war3_battle_tool.Client.Discovery.Backoff.{accepts, accepts-split}
use war3_battle_tool.Client.Tunnel.{TunnelEvent, proxy_ready, finished, gameinfo_captured}
use war3_battle_tool.Client.App.{
  War3App, ConnectionState, PendingAction, joining, join_success, join_failed, creating_room,
  server_error, is_in_flight, is_registered, send_register, abort_tunnel, abort_injection,
  start_joiner_tunnel, start_host_tunnel, new, is_hosting, inject_pending, start_gameinfo_injection,
}
use war3_battle_tool.Client.App.Server.{hand_addr, join_ended, is_joining, handle_server_message}
use war3_battle_tool.Client.App.Network.{on_net_event, on_net_events, on_tunnel_event}
use war3_battle_tool.Client.App.Frame.{
  Ui, acknowledge, join, create, close, dismiss, can_join, in_lobby, FrameInput, update, run,
}
use war3_battle_tool.Client.App.Keep.{Kept, update-Kept}
use war3_battle_tool.Client.App.Pending.{cancel-idle}

abbrev pub is_connected : ConnectionState → Bool
is_connected ConnectionState.connected = true
is_connected ConnectionState.disconnected = false
is_connected (ConnectionState.reconnecting attempt) = false

-- The events of the network that the frames take, one after the other.
abbrev pub net_of : List FrameInput → List NetEvent
net_of [] = []
net_of (frame ∷ frames) = frame.inbox.net ++ net_of frames

-- What holds while the network task is connected, or is not.
abbrev Lobby : Bool → ConnectionState → List RoomInfo → Option PendingAction → Type 0
Lobby up c rooms p =
    (is_connected c ≡ up) × (up ≡ false → rooms ≡ []) × (is_joining p ≡ true → up ≡ true)

abbrev InLobby : Bool → War3App → Type 0
InLobby up a = Lobby up a.connection_state a.rooms a.pending_action

-- Operations that leave the connection and the rooms, and start no join.
drops :
    {up : Bool} (a : War3App) (q : Option PendingAction)
    → is_joining q ≡ false
    → InLobby up a
    → Lobby up a.connection_state a.rooms q
drops a q e (c, r, _) = (c, r, λ h. cc)

abort_tunnel-state : (a : War3App) → (abort_tunnel a).connection_state ≡ a.connection_state
unfolding abort_tunnel
abort_tunnel-state a =
    by_option (λ (b : War3App). b.connection_state ≡ a.connection_state) a.tunnel_handle _ _
      (λ _. refl) (λ _ _. refl)

hand_addr-state :
    (addr : SocketAddr) (a : War3App) → (hand_addr addr a).connection_state ≡ a.connection_state
unfolding hand_addr
hand_addr-state addr a =
    by_option (λ (b : War3App). b.connection_state ≡ a.connection_state) a.upnp_addr_sender _ _
      (λ _. refl) (λ _ _. refl)

join_ended-state :
    (success : Bool) (token : Option String) (gi : Option (List ℕ)) (a : War3App)
    → (join_ended success token gi a).connection_state ≡ a.connection_state
unfolding join_ended start_joiner_tunnel
join_ended-state true (some token) (some gi) a =
    abort_tunnel-state (record a { pending_action = some join_success })
join_ended-state true none gi a = refl
join_ended-state true (some token) none a = refl
join_ended-state false token gi a = refl

module _ (parse_ip : String → Option IpAddr) (parse_addr : String → Option SocketAddr) where
  handle_server_message-state :
      (msg : ServerMessage) (a : War3App)
      → (handle_server_message parse_ip parse_addr msg a).connection_state ≡ a.connection_state
  unfolding handle_server_message start_host_tunnel
  handle_server_message-state (join_result success room_id token gi) a =
      by_if (λ (b : War3App). b.connection_state ≡ a.connection_state) (is_joining a.pending_action)
        _ _ (λ _. join_ended-state success token gi a) (λ _. refl)
  handle_server_message-state (peer_upnp_addr external_addr) a =
      by_option (λ (b : War3App). b.connection_state ≡ a.connection_state)
        (parse_addr external_addr) _ _ (λ _. refl)
        (λ addr _.
          by_if (λ (b : War3App). b.connection_state ≡ a.connection_state)
            (is_safe_external_addr addr.ip) _ _ (λ _. hand_addr-state addr a) (λ _. refl))
  handle_server_message-state (your_observed_addr ip) a =
      by_option (λ (b : War3App). b.connection_state ≡ a.connection_state) (parse_ip ip) _ _
        (λ _. refl) (λ _ _. refl)
  handle_server_message-state (stun_info ip) a =
      by_option (λ (b : War3App). b.connection_state ≡ a.connection_state) (parse_ip ip) _ _
        (λ _. refl) (λ _ _. refl)
  handle_server_message-state (player_joined nickname token) a = abort_tunnel-state a
  handle_server_message-state (tunnel_ready token) a = abort_tunnel-state a
  handle_server_message-state _ a = refl

  on_net_events-InLobby :
      (up v : Bool) (es : List NetEvent) (a : War3App)
      → accepts up es ≡ some v
      → InLobby up a
      → InLobby v (on_net_events parse_ip parse_addr es a)
  unfolding on_net_events on_net_event accepts send_register
  on_net_events-InLobby up v [] a e h = let same : up ≡ v = cc in subst (λ w. InLobby w a) same h
  on_net_events-InLobby false v (NetEvent.connected ∷ es) a e h =
      on_net_events-InLobby true v es _ e (
        by_if (InLobby true) (not (is_registered a) && is_configured a.config) _ _
          (λ _. (refl, (λ x. cc), (λ _. refl))) (λ _. (refl, (λ x. cc), (λ _. refl))))
  on_net_events-InLobby true v (NetEvent.disconnected ∷ es) a e h =
      on_net_events-InLobby false v es _ e
        (refl, (λ _. refl), (λ x. sym (cancel-idle a.pending_action) ∙ x))
  on_net_events-InLobby false v (NetEvent.reconnecting n ∷ es) a e h =
      on_net_events-InLobby false v es _ e
        (refl, h.1, (λ x. sym (cancel-idle a.pending_action) ∙ x))
  on_net_events-InLobby true v (server_message msg ∷ es) a e h =
      on_net_events-InLobby true v es _ e
        (ap is_connected (handle_server_message-state msg a) ∙ h.0, (λ x. cc), (λ _. refl))
  on_net_events-InLobby true v (NetEvent.connected ∷ es) a e h = cc
  on_net_events-InLobby false v (NetEvent.disconnected ∷ es) a e h = cc
  on_net_events-InLobby true v (NetEvent.reconnecting n ∷ es) a e h = cc
  on_net_events-InLobby false v (server_message msg ∷ es) a e h = cc

abort_injection-InLobby : {up : Bool} (a : War3App) → InLobby up a → InLobby up (abort_injection a)
unfolding abort_injection
abort_injection-InLobby {up} a h = by_option (InLobby up) a.injection_handle _ _ (λ _. h) (λ _ _. h)

on_tunnel_event-InLobby :
    {up : Bool} (e : TunnelEvent) (a : War3App) → InLobby up a → InLobby up (on_tunnel_event e a)
unfolding on_tunnel_event start_gameinfo_injection
on_tunnel_event-InLobby {up} proxy_ready a h =
    injected (abort_injection a) (abort_injection-InLobby a h)
  where
    injected : (a : War3App) → InLobby up a → InLobby up (inject_pending a)
    injected a h =
        by_option (InLobby up) a.pending_gameinfo _ _ (λ _. h)
          (λ gameinfo _. by_if (InLobby up) (is_empty gameinfo) _ _ (λ _. h) (λ _. h))
on_tunnel_event-InLobby (finished e) a h = abort_injection-InLobby a h
on_tunnel_event-InLobby {up} (gameinfo_captured room_name map_name max_players gameinfo) a h =
    by_if (InLobby up) (is_empty gameinfo) _ _ (λ _. drops a none refl h)
      (λ _.
        by_if (Lobby up a.connection_state a.rooms)
          (send_or_warn (create_room room_name map_name max_players gameinfo) a.cmd_tx).0
          a.pending_action none (λ _. h) (λ _. drops a none refl h))
on_tunnel_event-InLobby _ a h = h

dismiss-joining : (p : Option PendingAction) → is_joining (dismiss p) ≡ true → is_joining p ≡ true
unfolding dismiss is_in_flight
dismiss-joining none h = h
dismiss-joining (some (joining room)) h = h
dismiss-joining (some (creating_room room)) h = h
dismiss-joining (some join_success) h = cc
dismiss-joining (some (join_failed reason)) h = cc
dismiss-joining (some (server_error message)) h = cc

-- A room to join is on the list only while the client is connected.
room_connected :
    {up : Bool} (i : ℕ) {room : RoomInfo} (rooms : List RoomInfo)
    → (up ≡ false → rooms ≡ [])
    → get_elem? rooms i ≡ some room
    → up ≡ true
room_connected {up} i rooms none_left e = elim (Bool-cases up) [
  | inl t ↦ t
  | inr f ↦ absurd_room i rooms (none_left f) e
]
  where
    absurd_room :
        (i : ℕ) {room : RoomInfo} (rooms : List RoomInfo)
        → rooms ≡ []
        → get_elem? rooms i ≡ some room
        → up ≡ true
    absurd_room i [] z e = cc
    absurd_room i (r ∷ rooms) z e = cc

in_lobby-InLobby : {up : Bool} (u : Ui) (a : War3App) → InLobby up a → InLobby up (in_lobby u a)
unfolding in_lobby
in_lobby-InLobby {up} (join i) a h =
    by_option (InLobby up) (get_elem? a.rooms i) _ _ (λ _. h)
      (λ room e.
        by_if (InLobby up) (can_join a room) _ _
          (λ _. (h.0, h.1, (λ _. room_connected i a.rooms h.1 e))) (λ _. h))
in_lobby-InLobby {up} close a h = by_if (InLobby up) (is_hosting a) _ _ (λ _. h) (λ _. h)
in_lobby-InLobby acknowledge a h = (h.0, h.1, (λ j. h.2 (dismiss-joining a.pending_action j)))
in_lobby-InLobby (create max_players) a h = drops a (some (creating_room "偵測中...")) refl h
in_lobby-InLobby _ a h = h

InLobby-Kept : (up : Bool) → Kept (InLobby up)
InLobby-Kept up = record {
  by_sender = λ cmd_tx a h. h;
  by_tunnel = on_tunnel_event-InLobby;
  by_lobby = in_lobby-InLobby;
  by_setup = λ config wizard a h. h;
}

module _ (parse_ip : String → Option IpAddr) (parse_addr : String → Option SocketAddr)
    (show_addr : SocketAddr → String) where
  run-InLobby :
      (up v : Bool) (frames : List FrameInput) (a : War3App)
      → accepts up (net_of frames) ≡ some v
      → InLobby up a
      → InLobby v (run parse_ip parse_addr show_addr frames a)
  unfolding run accepts
  run-InLobby up v [] a e h = let same : up ≡ v = cc in subst (λ w. InLobby w a) same h
  run-InLobby up v (frame ∷ frames) a e h =
      let (w, first, rest) = accepts-split up v frame.inbox.net (net_of frames) e in
      run-InLobby w v frames (update parse_ip parse_addr show_addr frame a) rest (
        update-Kept parse_ip parse_addr show_addr (InLobby-Kept w) frame a
          (on_net_events-InLobby parse_ip parse_addr up w frame.inbox.net a first h))

  -- Whatever the user does, and however the events that the network task emits are spread over the
  -- frames: while the app waits for the answer to a join, it is connected.
  pub joining-connected :
      (config : AppConfig) (cmd_tx : CmdSender) (frames : List FrameInput) {up : Bool}
      → accepts false (net_of frames) ≡ some up
      → is_joining (run parse_ip parse_addr show_addr frames (new config cmd_tx)).pending_action
        ≡ true
      → is_connected (run parse_ip parse_addr show_addr frames (new config cmd_tx)).connection_state
        ≡ true
  unfolding new
  joining-connected config cmd_tx frames {up} e j =
      let (state, _, asked) =
        run-InLobby false up frames (new config cmd_tx) e (refl, (λ _. refl), (λ x. x)) in
      state ∙ asked j
