-- ===== src/Client/App/Pending.antt =====
-- What crates/client/src/app.rs waits for: a join that was asked for and not answered.
use war3_battle_tool.Prelude.{
  ℕ, ◌≡◌, refl, String, List, [], ◌∷◌, ◌++◌, Option, none, some, Bool, true, false, by_if,
  by_option, not, ◌&&◌, ap, ◌∙◌,
}
use war3_battle_tool.Protocol.AddrSafety.{IpAddr, SocketAddr, is_safe_external_addr}
use war3_battle_tool.Protocol.Messages.{
  ServerMessage, room_update, join_result, player_joined, tunnel_ready, stun_info, peer_upnp_addr,
  your_observed_addr, error,
}
use war3_battle_tool.Client.Config.{is_configured}
use war3_battle_tool.Client.Discovery.{NetEvent, server_message}
use war3_battle_tool.Client.App.{
  War3App, PendingAction, joining, join_success, join_failed, creating_room, server_error,
  is_in_flight, is_registered, send_register, abort_tunnel, start_joiner_tunnel, start_host_tunnel,
}
use war3_battle_tool.Client.App.Server.{
  hand_addr, join_ended, is_joining, is_creating, surface, handle_server_message,
}
use war3_battle_tool.Client.App.Network.{cancel_in_flight, clear_error, on_net_event, on_net_events}

-- No join is waited for.
abbrev pub IsIdle : War3App → Type 0
IsIdle a = is_joining a.pending_action ≡ false

-- The answers to a request, and the losses of the connection.
abbrev pub is_answer : NetEvent → Bool
is_answer NetEvent.disconnected = true
is_answer (NetEvent.reconnecting attempt) = true
is_answer (server_message (join_result success room_id token gi)) = true
is_answer (server_message (error message)) = true
is_answer _ = false

pub cancel-idle : (p : Option PendingAction) → is_joining (cancel_in_flight p) ≡ false
unfolding cancel_in_flight is_in_flight
cancel-idle none = refl
cancel-idle (some (joining room)) = refl
cancel-idle (some (creating_room room)) = refl
cancel-idle (some join_success) = refl
cancel-idle (some (join_failed reason)) = refl
cancel-idle (some (server_error message)) = refl

surface-idle : (m : String) (p : Option PendingAction) → is_joining (surface m p) ≡ false
unfolding surface
surface-idle m none = refl
surface-idle m (some (joining room)) = refl
surface-idle m (some (creating_room room)) = refl
surface-idle m (some join_success) = refl
surface-idle m (some (join_failed reason)) = refl
surface-idle m (some (server_error message)) = refl

clear-idle : (p : Option PendingAction) → is_joining p ≡ false → is_joining (clear_error p) ≡ false
unfolding clear_error
clear-idle none h = h
clear-idle (some (joining room)) h = h
clear-idle (some (creating_room room)) h = h
clear-idle (some join_success) h = h
clear-idle (some (join_failed reason)) h = h
clear-idle (some (server_error message)) h = refl

abort_tunnel-pending : (a : War3App) → (abort_tunnel a).pending_action ≡ a.pending_action
unfolding abort_tunnel
abort_tunnel-pending a =
    by_option (λ (b : War3App). b.pending_action ≡ a.pending_action) a.tunnel_handle _ _ (λ _. refl)
      (λ _ _. refl)

join_ended-IsIdle :
    (success : Bool) (token : Option String) (gi : Option (List ℕ)) (a : War3App)
    → IsIdle (join_ended success token gi a)
unfolding join_ended start_joiner_tunnel
join_ended-IsIdle true (some token) (some gi) a =
    ap is_joining (abort_tunnel-pending (record a { pending_action = some join_success }))
join_ended-IsIdle true none gi a = refl
join_ended-IsIdle true (some token) none a = refl
join_ended-IsIdle false token gi a = refl

hand_addr-pending :
    (addr : SocketAddr) (a : War3App) → (hand_addr addr a).pending_action ≡ a.pending_action
unfolding hand_addr
hand_addr-pending addr a =
    by_option (λ (b : War3App). b.pending_action ≡ a.pending_action) a.upnp_addr_sender _ _
      (λ _. refl) (λ _ _. refl)

start_host-IsIdle : (token : String) (a : War3App) → IsIdle a → IsIdle (start_host_tunnel token a)
unfolding start_host_tunnel
start_host-IsIdle token a h = ap is_joining (abort_tunnel-pending a) ∙ h

module _ (parse_ip : String → Option IpAddr) (parse_addr : String → Option SocketAddr) where
  join_result-IsIdle :
      (success : Bool) (room_id token : Option String) (gi : Option (List ℕ)) (a : War3App)
      → IsIdle (handle_server_message parse_ip parse_addr (join_result success room_id token gi) a)
  unfolding handle_server_message
  join_result-IsIdle success room_id token gi a =
      by_if IsIdle (is_joining a.pending_action) _ _ (λ _. join_ended-IsIdle success token gi a)
        (λ e. e)

  -- No message starts a join.
  handle_server_message-IsIdle :
      (msg : ServerMessage) (a : War3App)
      → IsIdle a
      → IsIdle (handle_server_message parse_ip parse_addr msg a)
  unfolding handle_server_message
  handle_server_message-IsIdle (join_result success room_id token gi) a h =
      join_result-IsIdle success room_id token gi a
  handle_server_message-IsIdle (error message) a h = surface-idle message a.pending_action
  handle_server_message-IsIdle (room_update rooms) a h =
      by_if (λ p. is_joining p ≡ false) (is_creating a.pending_action) none a.pending_action
        (λ _. refl) (λ _. h)
  handle_server_message-IsIdle (peer_upnp_addr external_addr) a h =
      by_option IsIdle (parse_addr external_addr) _ _ (λ _. h)
        (λ addr _.
          by_if IsIdle (is_safe_external_addr addr.ip) _ _
            (λ _. ap is_joining (hand_addr-pending addr a) ∙ h) (λ _. h))
  handle_server_message-IsIdle (your_observed_addr ip) a h =
      by_option IsIdle (parse_ip ip) _ _ (λ _. h) (λ _ _. h)
  handle_server_message-IsIdle (stun_info ip) a h =
      by_option IsIdle (parse_ip ip) _ _ (λ _. h) (λ _ _. h)
  handle_server_message-IsIdle (player_joined nickname token) a h = start_host-IsIdle token a h
  handle_server_message-IsIdle (tunnel_ready token) a h = start_host-IsIdle token a h
  handle_server_message-IsIdle _ a h = h

  on_net_event-IsIdle :
      (e : NetEvent) (a : War3App) → IsIdle a → IsIdle (on_net_event parse_ip parse_addr e a)
  unfolding on_net_event send_register
  on_net_event-IsIdle NetEvent.connected a h =
      by_if IsIdle (not (is_registered a) && is_configured a.config) _ _
        (λ _. clear-idle a.pending_action h) (λ _. clear-idle a.pending_action h)
  on_net_event-IsIdle NetEvent.disconnected a h = cancel-idle a.pending_action
  on_net_event-IsIdle (NetEvent.reconnecting n) a h = cancel-idle a.pending_action
  on_net_event-IsIdle (server_message msg) a h = handle_server_message-IsIdle msg a h

  answer-IsIdle :
      (e : NetEvent) (a : War3App)
      → is_answer e ≡ true
      → IsIdle (on_net_event parse_ip parse_addr e a)
  unfolding on_net_event
  answer-IsIdle NetEvent.disconnected a h = cancel-idle a.pending_action
  answer-IsIdle (NetEvent.reconnecting n) a h = cancel-idle a.pending_action
  answer-IsIdle (server_message (join_result success room_id token gi)) a h =
      join_result-IsIdle success room_id token gi a
  answer-IsIdle (server_message (error message)) a h = surface-idle message a.pending_action
  answer-IsIdle _ a h = cc

  -- From any state and through any events of the network: once one of them is a `JoinResult`, an
  -- error of the server, or the loss of the connection, no join is waited for at the end, so the
  -- spinner of 「加入」 never stays for lack of an answer.
  pub joining_is_answered :
      (es es' : List NetEvent) (e : NetEvent) (a : War3App)
      → is_answer e ≡ true
      → IsIdle (on_net_events parse_ip parse_addr (es ++ e ∷ es') a)
  unfolding on_net_events
  joining_is_answered [] es' e a h = stays es' _ (answer-IsIdle e a h)
    where
      stays :
          (es : List NetEvent) (a : War3App)
          → IsIdle a
          → IsIdle (on_net_events parse_ip parse_addr es a)
      stays [] a h = h
      stays (e ∷ es) a h =
          stays es (on_net_event parse_ip parse_addr e a) (on_net_event-IsIdle e a h)
  joining_is_answered (x ∷ es) es' e a h =
      joining_is_answered es es' e (on_net_event parse_ip parse_addr x a) h
