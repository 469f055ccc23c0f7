-- ===== src/Client/App/Addresses.antt =====
-- The addresses that crates/client/src/app.rs passes on to a tunnel.
use war3_battle_tool.Prelude.{
  ℕ, ◌+◌, ◌<◌, ◌≢◌, ◌≡◌, String, List, [], ◌∷◌, Option, none, some, Bool, true, false, All, arith,
  by_if, by_option, not, ◌&&◌, is_empty, get_elem?, subst,
}
use war3_battle_tool.Protocol.AddrSafety.{IpAddr, SocketAddr, is_safe_external_addr}
use war3_battle_tool.Protocol.Messages.{
  ServerMessage, join_result, player_joined, tunnel_ready, stun_info, peer_upnp_addr,
  your_observed_addr,
}
use war3_battle_tool.Client.CmdSender.{CmdSender}
use war3_battle_tool.Client.Config.{AppConfig, is_configured}
use war3_battle_tool.Client.Discovery.{NetEvent, server_message}
use war3_battle_tool.Client.Tunnel.{TunnelEvent, proxy_ready, finished, gameinfo_captured}
use war3_battle_tool.Client.App.{
  War3App, new, is_registered, send_register, abort_tunnel, abort_injection, start_joiner_tunnel,
  start_host_tunnel, inject_pending, start_gameinfo_injection, is_hosting,
}
use war3_battle_tool.Client.App.Server.{hand_addr, join_ended, is_joining, handle_server_message}
use war3_battle_tool.Client.App.Network.{on_net_event, on_tunnel_event}
use war3_battle_tool.Client.App.Frame.{Ui, join, close, in_lobby, run, FrameInput, can_join}
use war3_battle_tool.Client.App.Keep.{Kept, run-Kept}

abbrev NotTo : ℕ → List (ℕ × SocketAddr) → Type 0
NotTo id = All (λ h. h.0 ≢ id)

-- No tunnel is sent two addresses.
abbrev pub NoneTwice : List (ℕ × SocketAddr) → Type 0
NoneTwice [] = Unit
NoneTwice ((id, addr) ∷ handed) = NotTo id handed × NoneTwice handed

abbrev pub AllSafe : List (ℕ × SocketAddr) → Type 0
AllSafe = All (λ h. is_safe_external_addr h.1.ip ≡ true)

-- The tunnel that waits for an address has been started, and has none yet.
abbrev Waits : Option ℕ → List (ℕ × SocketAddr) → ℕ → Type 0
Waits none handed n = Unit
Waits (some id) handed n = (id < n) × NotTo id handed

abbrev Started : List (ℕ × SocketAddr) → ℕ → Type 0
Started handed n = All (λ h. h.0 < n) handed

abbrev Good : Option ℕ → List (ℕ × SocketAddr) → ℕ → Type 0
Good sender handed n = AllSafe handed × NoneTwice handed × Started handed n × Waits sender handed n

abbrev IsGood : War3App → Type 0
IsGood a = Good a.upnp_addr_sender a.handed a.next_task

Started-suc : (handed : List (ℕ × SocketAddr)) (n : ℕ) → Started handed n → Started handed (n + 1)
Started-suc [] n h = tt
Started-suc (x ∷ handed) n h = (omega (arith, h.0), Started-suc handed n h.1)

Started-NotTo : (handed : List (ℕ × SocketAddr)) (n : ℕ) → Started handed n → NotTo n handed
Started-NotTo [] n h = tt
Started-NotTo (x ∷ handed) n h = (λ e. omega (arith, h.0, e), Started-NotTo handed n h.1)

Waits-suc :
    (sender : Option ℕ) (handed : List (ℕ × SocketAddr)) (n : ℕ)
    → Waits sender handed n
    → Waits sender handed (n + 1)
Waits-suc none handed n h = tt
Waits-suc (some id) handed n h = (omega (arith, h.0), h.1)

-- A task is spawned, and may be the one that waits from now on.
Good-suc :
    (sender : Option ℕ) (handed : List (ℕ × SocketAddr)) (n : ℕ)
    → Good sender handed n
    → Good sender handed (n + 1)
Good-suc sender handed n (s, o, b, w) = (s, o, Started-suc handed n b, Waits-suc sender handed n w)

Good-wait :
    (sender : Option ℕ) (handed : List (ℕ × SocketAddr)) (n : ℕ)
    → Good sender handed n
    → Good (some n) handed (n + 1)
Good-wait sender handed n (s, o, b, w) =
    (s, o, Started-suc handed n b, (omega arith, Started-NotTo handed n b))

abort_tunnel-IsGood : (a : War3App) → IsGood a → IsGood (abort_tunnel a)
unfolding abort_tunnel
abort_tunnel-IsGood a h = by_option IsGood a.tunnel_handle _ _ (λ _. h) (λ id _. h)

abort_injection-IsGood : (a : War3App) → IsGood a → IsGood (abort_injection a)
unfolding abort_injection
abort_injection-IsGood a h = by_option IsGood a.injection_handle _ _ (λ _. h) (λ id _. h)

hand_addr-IsGood :
    (addr : SocketAddr) (a : War3App)
    → is_safe_external_addr addr.ip ≡ true
    → IsGood a
    → IsGood (hand_addr addr a)
unfolding hand_addr
hand_addr-IsGood addr a safe h =
    let (s, o, b, w) = h in
    by_option IsGood a.upnp_addr_sender _ _ (λ _. h)
      (λ id e.
        let w' = subst (λ sender. Waits sender a.handed a.next_task) e w in
        ((safe, s), (w'.1, o), (w'.0, b), tt))

start_joiner-IsGood :
    (token : String) (gi : List ℕ) (a : War3App)
    → IsGood a
    → IsGood (start_joiner_tunnel token gi a)
unfolding start_joiner_tunnel
start_joiner-IsGood token gi a h =
    Good-wait (abort_tunnel a).upnp_addr_sender (abort_tunnel a).handed (abort_tunnel a).next_task
      (abort_tunnel-IsGood a h)

start_host-IsGood : (token : String) (a : War3App) → IsGood a → IsGood (start_host_tunnel token a)
unfolding start_host_tunnel
start_host-IsGood token a h =
    Good-suc (abort_tunnel a).upnp_addr_sender (abort_tunnel a).handed (abort_tunnel a).next_task
      (abort_tunnel-IsGood a h)

join_ended-IsGood :
    (success : Bool) (token : Option String) (gi : Option (List ℕ)) (a : War3App)
    → IsGood a
    → IsGood (join_ended success token gi a)
unfolding join_ended
join_ended-IsGood true (some token) (some gi) a h = start_joiner-IsGood token gi _ h
join_ended-IsGood true none gi a h = h
join_ended-IsGood true (some token) none a h = h
join_ended-IsGood false token gi a h = h

module _ (parse_ip : String → Option IpAddr) (parse_addr : String → Option SocketAddr) where
  handle_server_message-IsGood :
      (msg : ServerMessage) (a : War3App)
      → IsGood a
      → IsGood (handle_server_message parse_ip parse_addr msg a)
  unfolding handle_server_message
  handle_server_message-IsGood (peer_upnp_addr external_addr) a h =
      by_option IsGood (parse_addr external_addr) _ _ (λ _. h)
        (λ addr _.
          by_if IsGood (is_safe_external_addr addr.ip) _ _ (λ safe. hand_addr-IsGood addr a safe h)
            (λ _. h))
  handle_server_message-IsGood (your_observed_addr ip) a h =
      by_option IsGood (parse_ip ip) _ _ (λ _. h) (λ addr _. h)
  handle_server_message-IsGood (stun_info ip) a h =
      by_option IsGood (parse_ip ip) _ _ (λ _. h) (λ addr _. h)
  handle_server_message-IsGood (join_result success room_id token gi) a h =
      by_if IsGood (is_joining a.pending_action) _ _ (λ _. join_ended-IsGood success token gi a h)
        (λ _. h)
  handle_server_message-IsGood (player_joined nickname token) a h = start_host-IsGood token a h
  handle_server_message-IsGood (tunnel_ready token) a h = start_host-IsGood token a h
  handle_server_message-IsGood _ a h = h

  on_net_event-IsGood :
      (e : NetEvent) (a : War3App) → IsGood a → IsGood (on_net_event parse_ip parse_addr e a)
  unfolding on_net_event send_register
  on_net_event-IsGood NetEvent.connected a h =
      by_if IsGood (not (is_registered a) && is_configured a.config) _ _ (λ _. h) (λ _. h)
  on_net_event-IsGood NetEvent.disconnected a h = h
  on_net_event-IsGood (NetEvent.reconnecting n) a h = h
  on_net_event-IsGood (server_message msg) a h = handle_server_message-IsGood msg a h

inject_pending-IsGood : (a : War3App) → IsGood a → IsGood (inject_pending a)
inject_pending-IsGood a h =
    by_option IsGood a.pending_gameinfo _ _ (λ _. h)
      (λ gameinfo _.
        by_if IsGood (is_empty gameinfo) _ _ (λ _. h)
          (λ _. Good-suc a.upnp_addr_sender a.handed a.next_task h))

on_tunnel_event-IsGood : (e : TunnelEvent) (a : War3App) → IsGood a → IsGood (on_tunnel_event e a)
unfolding on_tunnel_event start_gameinfo_injection
on_tunnel_event-IsGood proxy_ready a h = inject_pending-IsGood _ (abort_injection-IsGood a h)
on_tunnel_event-IsGood (finished e) a h = abort_injection-IsGood a h
on_tunnel_event-IsGood (gameinfo_captured room_name map_name max_players gameinfo) a h =
    by_if IsGood (is_empty gameinfo) _ _ (λ _. h) (λ _. h)
on_tunnel_event-IsGood _ a h = h

in_lobby-IsGood : (u : Ui) (a : War3App) → IsGood a → IsGood (in_lobby u a)
unfolding in_lobby
in_lobby-IsGood (join i) a h =
    by_option IsGood (get_elem? a.rooms i) _ _ (λ _. h)
      (λ room _. by_if IsGood (can_join a room) _ _ (λ _. h) (λ _. h))
in_lobby-IsGood close a h = by_if IsGood (is_hosting a) _ _ (λ _. h) (λ _. h)
in_lobby-IsGood _ a h = h

IsGood-Kept : Kept IsGood
IsGood-Kept = record {
  by_sender = λ cmd_tx a h. h;
  by_tunnel = on_tunnel_event-IsGood;
  by_lobby = in_lobby-IsGood;
  by_setup = λ config wizard a h. h;
}

module _ (parse_ip : String → Option IpAddr) (parse_addr : String → Option SocketAddr)
    (show_addr : SocketAddr → String) where
  -- Over any run of the app, whatever the server sends: each address that a tunnel is sent is one that
  -- the filter calls safe, and no tunnel is sent two.
  pub handed_safe_once :
      (config : AppConfig) (cmd_tx : CmdSender) (frames : List FrameInput)
      → let a = run parse_ip parse_addr show_addr frames (new config cmd_tx) in
        AllSafe a.handed × NoneTwice a.handed
  unfolding new
  handed_safe_once config cmd_tx frames =
      let good =
        run-Kept parse_ip parse_addr show_addr IsGood-Kept (on_net_event-IsGood parse_ip parse_addr)
          frames (new config cmd_tx) (tt, tt, tt, tt) in
      (good.0, good.1)
