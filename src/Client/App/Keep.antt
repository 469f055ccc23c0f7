-- ===== src/Client/App/Keep.antt =====
-- What the parts of a frame of crates/client/src/app.rs keep, every run of frames keeps.
use war3_battle_tool.Prelude.{String, List, [], ◌∷◌, Option, Bool, false, by_if}
use war3_battle_tool.Protocol.AddrSafety.{IpAddr, SocketAddr}
use war3_battle_tool.Protocol.Messages.{upnp_mapped}
use war3_battle_tool.Client.CmdSender.{CmdSender, send_or_warn}
use war3_battle_tool.Client.Discovery.{NetEvent}
use war3_battle_tool.Client.Tunnel.{TunnelEvent}
use war3_battle_tool.Client.Config.{AppConfig}
use war3_battle_tool.Client.App.{War3App, ConnectionState, send_register}
use war3_battle_tool.Client.App.Network.{
  on_net_event, on_net_events, on_mapped, on_tunnel_event, on_tunnel_events, process_network_events,
}
use war3_battle_tool.Client.App.Frame.{
  Ui, settings, wizard_done, is_covered, in_lobby, in_wizard, in_main, register_if_connected, act,
  FrameInput, update, run,
}

-- A property that each sent message, each event of a tunnel and each act of the user keeps.
pub record Kept (P : War3App → Type 0) : Type 0 where
  pub by_sender : (cmd_tx : CmdSender) (a : War3App) → P a → P (record a { cmd_tx = cmd_tx })
  pub by_tunnel : (e : TunnelEvent) (a : War3App) → P a → P (on_tunnel_event e a)
  pub by_lobby : (u : Ui) (a : War3App) → P a → P (in_lobby u a)
  pub by_setup :
      (config : AppConfig) (wizard : Bool) (a : War3App)
      → P a
      → P (record a { config = config; wizard = wizard })

module _ (parse_ip : String → Option IpAddr) (parse_addr : String → Option SocketAddr)
    (show_addr : SocketAddr → String) where
  module _ {P : War3App → Type 0} (kept : Kept P) where
    on_mapped-Kept :
        (notices : List (String × SocketAddr)) (a : War3App)
        → P a
        → P (on_mapped show_addr notices a)
    unfolding on_mapped
    on_mapped-Kept [] a h = h
    on_mapped-Kept ((token, addr) ∷ notices) a h =
        let sent = send_or_warn (upnp_mapped (show_addr addr) token) a.cmd_tx in
        let a' : War3App = record a { cmd_tx = sent.1 } in
        let h' = kept.by_sender sent.1 a h in
        by_if P sent.0 _ _ (λ _. on_mapped-Kept notices a' h') (λ _. h')

    on_tunnel_events-Kept : (es : List TunnelEvent) (a : War3App) → P a → P (on_tunnel_events es a)
    unfolding on_tunnel_events
    on_tunnel_events-Kept [] a h = h
    on_tunnel_events-Kept (e ∷ es) a h =
        on_tunnel_events-Kept es (on_tunnel_event e a) (kept.by_tunnel e a h)

    register-Kept : (c : ConnectionState) (a : War3App) → P a → P (register_if_connected c a)
    unfolding send_register
    register-Kept ConnectionState.connected a h = kept.by_sender _ a h
    register-Kept ConnectionState.disconnected a h = h
    register-Kept (ConnectionState.reconnecting n) a h = h

    in_wizard-Kept : (u : Ui) (a : War3App) → P a → P (in_wizard u a)
    unfolding in_wizard
    in_wizard-Kept (wizard_done nickname version) a h =
        register-Kept a.connection_state _ (kept.by_setup _ false a h)
    in_wizard-Kept _ a h = h

    in_main-Kept : (u : Ui) (a : War3App) → P a → P (in_main u a)
    unfolding in_main
    in_main-Kept (settings config) a h = kept.by_setup config a.wizard a h
    in_main-Kept u a h = by_if P (is_covered a) _ _ (λ _. h) (λ _. kept.by_lobby u a h)

    act-Kept : (u : Ui) (a : War3App) → P a → P (act u a)
    unfolding act
    act-Kept u a h = by_if P a.wizard _ _ (λ _. in_wizard-Kept u a h) (λ _. in_main-Kept u a h)

    -- A frame keeps it if its events of the network do.
    pub update-Kept :
        (frame : FrameInput) (a : War3App)
        → P (on_net_events parse_ip parse_addr frame.inbox.net a)
        → P (update parse_ip parse_addr show_addr frame a)
    unfolding update process_network_events
    update-Kept frame a h =
        act-Kept frame.ui _
          (on_tunnel_events-Kept frame.inbox.tunnel _ (on_mapped-Kept frame.inbox.mapped _ h))

    module _
        (by_net : (e : NetEvent) (a : War3App)
          → P a
          → P (on_net_event parse_ip parse_addr e a)) where
      on_net_events-Kept :
          (es : List NetEvent) (a : War3App) → P a → P (on_net_events parse_ip parse_addr es a)
      unfolding on_net_events
      on_net_events-Kept [] a h = h
      on_net_events-Kept (e ∷ es) a h =
          on_net_events-Kept es (on_net_event parse_ip parse_addr e a) (by_net e a h)

      pub run-Kept :
          (frames : List FrameInput) (a : War3App)
          → P a
          → P (run parse_ip parse_addr show_addr frames a)
      unfolding run
      run-Kept [] a h = h
      run-Kept (frame ∷ frames) a h =
          run-Kept frames (update parse_ip parse_addr show_addr frame a)
            (update-Kept frame a (on_net_events-Kept frame.inbox.net a h))
