-- ===== src/Client/App/Ghosts.antt =====
-- Which tunnel tasks of crates/client/src/app.rs run, and which one the app can abort.
use war3_battle_tool.Prelude.{
  ℕ, suc, ◌≡◌, refl, String, List, [], ◌∷◌, Option, none, some, Bool, true, false, All, by_if,
  by_option, not, ◌&&◌, nat_eq, beq_refl, is_empty, length, ap, sym, ◌∙◌, subst,
}
use war3_battle_tool.Protocol.AddrSafety.{IpAddr, SocketAddr, is_safe_external_addr}
use war3_battle_tool.Protocol.Messages.{
  ServerMessage, join_result, player_joined, tunnel_ready, stun_info, peer_upnp_addr,
  your_observed_addr,
}
use war3_battle_tool.Client.CmdSender.{CmdSender}
use war3_battle_tool.Client.Config.{AppConfig, is_configured}
use war3_battle_tool.Client.Discovery.{NetEvent, server_message}
use war3_battle_tool.Client.Tunnel.{TunnelEvent, proxy_ready, finished, gameinfo_captured}
use war3_battle_tool.Client.Tunnel.Runs.{is_finished}
use war3_battle_tool.Client.App.{
  War3App, TunnelTask, new, is_registered, send_register, without_tunnel, abort_tunnel,
  abort_injection, start_joiner_tunnel, start_host_tunnel, inject_pending, start_gameinfo_injection,
}
use war3_battle_tool.Client.App.Server.{hand_addr, join_ended, is_joining, handle_server_message}
use war3_battle_tool.Client.App.Network.{on_net_event, on_tunnel_event}

-- Every tunnel that runs is the one that the app can abort.
abbrev Held : Option ℕ → List TunnelTask → Type 0
Held handle = All (λ t. handle ≡ some t.id)

abbrev pub IsHeld : War3App → Type 0
IsHeld a = Held a.tunnel_handle a.tunnels

Held-none : (tunnels : List TunnelTask) → Held none tunnels → tunnels ≡ []
Held-none [] h = refl
Held-none (t ∷ tunnels) h = cc (h.0)

Held-without :
    (id : ℕ) (tunnels : List TunnelTask) → Held (some id) tunnels → without_tunnel id tunnels ≡ []
Held-without id [] h = refl
Held-without id (t ∷ tunnels) h =
    let same : t.id ≡ id = cc (h.0) in rw same (rw (beq_refl id) (Held-without id tunnels h.1))

abort_tunnel-tunnels : (a : War3App) → IsHeld a → (abort_tunnel a).tunnels ≡ []
unfolding abort_tunnel
abort_tunnel-tunnels a h =
    by_option (λ (b : War3App). b.tunnels ≡ []) a.tunnel_handle _ _
      (λ e. Held-none a.tunnels (subst (λ o. Held o a.tunnels) e h))
      (λ id e. Held-without id a.tunnels (subst (λ o. Held o a.tunnels) e h))

start_host-IsHeld : (token : String) (a : War3App) → IsHeld a → IsHeld (start_host_tunnel token a)
unfolding start_host_tunnel
start_host-IsHeld token a h =
    (refl, subst (Held (some (abort_tunnel a).next_task)) (sym (abort_tunnel-tunnels a h)) tt)

start_joiner-IsHeld :
    (token : String) (gi : List ℕ) (a : War3App)
    → IsHeld a
    → IsHeld (start_joiner_tunnel token gi a)
unfolding start_joiner_tunnel
start_joiner-IsHeld token gi a h =
    (refl, subst (Held (some (abort_tunnel a).next_task)) (sym (abort_tunnel-tunnels a h)) tt)

join_ended-IsHeld :
    (success : Bool) (token : Option String) (gi : Option (List ℕ)) (a : War3App)
    → IsHeld a
    → IsHeld (join_ended success token gi a)
unfolding join_ended
join_ended-IsHeld true (some token) (some gi) a h = start_joiner-IsHeld token gi _ h
join_ended-IsHeld true none gi a h = h
join_ended-IsHeld true (some token) none a h = h
join_ended-IsHeld false token gi a h = h

hand_addr-IsHeld : (addr : SocketAddr) (a : War3App) → IsHeld a → IsHeld (hand_addr addr a)
unfolding hand_addr
hand_addr-IsHeld addr a h = by_option IsHeld a.upnp_addr_sender _ _ (λ _. h) (λ _ _. h)

module _ (parse_ip : String → Option IpAddr) (parse_addr : String → Option SocketAddr) where
  handle_server_message-IsHeld :
      (msg : ServerMessage) (a : War3App)
      → IsHeld a
      → IsHeld (handle_server_message parse_ip parse_addr msg a)
  unfolding handle_server_message
  handle_server_message-IsHeld (join_result success room_id token gi) a h =
      by_if IsHeld (is_joining a.pending_action) _ _ (λ _. join_ended-IsHeld success token gi a h)
        (λ _. h)
  handle_server_message-IsHeld (peer_upnp_addr external_addr) a h =
      by_option IsHeld (parse_addr external_addr) _ _ (λ _. h)
        (λ addr _.
          by_if IsHeld (is_safe_external_addr addr.ip) _ _ (λ _. hand_addr-IsHeld addr a h)
            (λ _. h))
  handle_server_message-IsHeld (your_observed_addr ip) a h =
      by_option IsHeld (parse_ip ip) _ _ (λ _. h) (λ _ _. h)
  handle_server_message-IsHeld (stun_info ip) a h =
      by_option IsHeld (parse_ip ip) _ _ (λ _. h) (λ _ _. h)
  handle_server_message-IsHeld (player_joined nickname token) a h = start_host-IsHeld token a h
  handle_server_message-IsHeld (tunnel_ready token) a h = start_host-IsHeld token a h
  handle_server_message-IsHeld _ a h = h

  on_net_event-IsHeld :
      (e : NetEvent) (a : War3App) → IsHeld a → IsHeld (on_net_event parse_ip parse_addr e a)
  unfolding on_net_event send_register
  on_net_event-IsHeld NetEvent.connected a h =
      by_if IsHeld (not (is_registered a) && is_configured a.config) _ _ (λ _. h) (λ _. h)
  on_net_event-IsHeld NetEvent.disconnected a h = h
  on_net_event-IsHeld (NetEvent.reconnecting n) a h = h
  on_net_event-IsHeld (server_message msg) a h = handle_server_message-IsHeld msg a h

abort_injection-IsHeld : (a : War3App) → IsHeld a → IsHeld (abort_injection a)
unfolding abort_injection
abort_injection-IsHeld a h = by_option IsHeld a.injection_handle _ _ (λ _. h) (λ _ _. h)

inject_pending-IsHeld : (a : War3App) → IsHeld a → IsHeld (inject_pending a)
inject_pending-IsHeld a h =
    by_option IsHeld a.pending_gameinfo _ _ (λ _. h)
      (λ gameinfo _. by_if IsHeld (is_empty gameinfo) _ _ (λ _. h) (λ _. h))

on_tunnel_event-IsHeld :
    (e : TunnelEvent) (a : War3App)
    → is_finished e ≡ false
    → IsHeld a
    → IsHeld (on_tunnel_event e a)
unfolding on_tunnel_event start_gameinfo_injection
on_tunnel_event-IsHeld proxy_ready a f h = inject_pending-IsHeld _ (abort_injection-IsHeld a h)
on_tunnel_event-IsHeld (finished e) a f h = cc
on_tunnel_event-IsHeld (gameinfo_captured room_name map_name max_players gameinfo) a f h =
    by_if IsHeld (is_empty gameinfo) _ _ (λ _. h) (λ _. h)
on_tunnel_event-IsHeld _ a f h = h

-- The tunnel that the app holds sends `Finished` and returns, and the app takes the event.
unfoldable pub finish_held : Option String → War3App → War3App
unfolding abort_tunnel
finish_held e a = on_tunnel_event (finished e) (record a { tunnels = (abort_tunnel a).tunnels })

abort_injection-tunnels : (a : War3App) → (abort_injection a).tunnels ≡ a.tunnels
unfolding abort_injection
abort_injection-tunnels a =
    by_option (λ (b : War3App). b.tunnels ≡ a.tunnels) a.injection_handle _ _ (λ _. refl)
      (λ _ _. refl)

finish_held-IsHeld : (e : Option String) (a : War3App) → IsHeld a → IsHeld (finish_held e a)
unfolding finish_held on_tunnel_event
finish_held-IsHeld e a h =
    let a' : War3App = record a { tunnels = (abort_tunnel a).tunnels } in
    subst (Held none) (sym (abort_injection-tunnels a' ∙ abort_tunnel-tunnels a h)) tt

-- What happens to the app, with a `Finished` only from the tunnel that it holds.
pub data Moment : Type 0 where
  net : NetEvent → Moment
  told : (e : TunnelEvent) → is_finished e ≡ false → Moment
  finishes : Option String → Moment

module _ (parse_ip : String → Option IpAddr) (parse_addr : String → Option SocketAddr) where
  unfoldable pub live : List Moment → War3App → War3App
  live [] a = a
  live (net e ∷ ms) a = live ms (on_net_event parse_ip parse_addr e a)
  live (told e f ∷ ms) a = live ms (on_tunnel_event e a)
  live (finishes e ∷ ms) a = live ms (finish_held e a)

  live-IsHeld : (ms : List Moment) (a : War3App) → IsHeld a → IsHeld (live ms a)
  unfolding live
  live-IsHeld [] a h = h
  live-IsHeld (net e ∷ ms) a h = live-IsHeld ms _ (on_net_event-IsHeld parse_ip parse_addr e a h)
  live-IsHeld (told e f ∷ ms) a h = live-IsHeld ms _ (on_tunnel_event-IsHeld e a f h)
  live-IsHeld (finishes e ∷ ms) a h = live-IsHeld ms _ (finish_held-IsHeld e a h)

  -- As long as the app takes the `Finished` of a tunnel before it starts the next one, every tunnel
  -- that runs is the one whose handle it holds, over any messages and events in any order.
  pub running-IsHeld :
      (config : AppConfig) (cmd_tx : CmdSender) (ms : List Moment)
      → IsHeld (live ms (new config cmd_tx))
  unfolding new
  running-IsHeld config cmd_tx ms = live-IsHeld ms (new config cmd_tx) tt

-- A `Finished` that an older tunnel has sent, and that the app takes only after it started the next
-- one, makes it forget the handle of the tunnel that runs: the start after that aborts nothing, and two
-- tunnels run.
pub late_finished-two_tunnels :
    (e : Option String) (token : String) (t : TunnelTask) (a : War3App)
    → a.tunnels ≡ t ∷ []
    → length (start_host_tunnel token (on_tunnel_event (finished e) a)).tunnels ≡ 2
unfolding start_host_tunnel on_tunnel_event abort_tunnel
late_finished-two_tunnels e token t a one =
    ap (λ ts. suc (length ts)) (abort_injection-tunnels a ∙ one)
