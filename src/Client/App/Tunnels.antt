-- ===== src/Client/App/Tunnels.antt =====
-- The tunnel tasks of crates/client/src/app.rs: which of them run, and which one the app holds.
use war3_battle_tool.Prelude.{
  ℕ, inl, inr, Result, ◌≡◌, refl, String, List, [], ◌∷◌, ◌++◌, Option, none, by_option, nat_eq, ap,
  sym, ◌∙◌, subst,
}
use war3_battle_tool.Protocol.AddrSafety.{IpAddr, SocketAddr}
use war3_battle_tool.Client.Quic.{StrategyKind}
use war3_battle_tool.Client.Tunnel.{
  TunnelEvent, finished, Ends, Mapping, Connect, run_host_tunnel, run_joiner_tunnel,
}
use war3_battle_tool.Client.Tunnel.Runs.{IsLate, FinishesOnce, tunnels_finish}
use war3_battle_tool.Client.App.{War3App, abort_injection}
use war3_battle_tool.Client.App.Network.{on_tunnel_event, on_tunnel_events}

-- Nothing of a tunnel is left in the app.
pub record NoTunnel (a : War3App) : Type 0 where
  pub no_handle : a.tunnel_handle ≡ none
  pub no_injection : a.injection_handle ≡ none
  pub no_transport : a.transport ≡ none
  pub no_latency : a.tunnel_latency_ms ≡ 0

on_tunnel_events-append :
    (es es' : List TunnelEvent) (a : War3App)
    → on_tunnel_events (es ++ es') a ≡ on_tunnel_events es' (on_tunnel_events es a)
unfolding on_tunnel_events
on_tunnel_events-append [] es' a = refl
on_tunnel_events-append (e ∷ es) es' a = on_tunnel_events-append es es' (on_tunnel_event e a)

abort_injection-none : (a : War3App) → (abort_injection a).injection_handle ≡ none
unfolding abort_injection
abort_injection-none a =
    by_option (λ (b : War3App). b.injection_handle ≡ none) a.injection_handle _ _ (λ e. e)
      (λ _ _. refl)

finished-NoTunnel :
    (error : Option String) (a : War3App) → NoTunnel (on_tunnel_event (finished error) a)
unfolding on_tunnel_event
finished-NoTunnel e a = record {
  no_handle = refl;
  no_injection = abort_injection-none a;
  no_transport = refl;
  no_latency = refl;
}

-- The results of the background task change nothing of this.
late-NoTunnel :
    (es : List TunnelEvent) (a : War3App)
    → IsLate es
    → NoTunnel a
    → NoTunnel (on_tunnel_events es a)
unfolding on_tunnel_events on_tunnel_event
late-NoTunnel es a (inl e) h = subst (λ l. NoTunnel (on_tunnel_events l a)) (sym e) h
late-NoTunnel es a (inr (rs, e)) h =
    subst (λ l. NoTunnel (on_tunnel_events l a)) (sym e)
      (record {
        no_handle = h.no_handle;
        no_injection = h.no_injection;
        no_transport = h.no_transport;
        no_latency = h.no_latency;
      })

finishes-NoTunnel :
    (es : List TunnelEvent) (a : War3App) → FinishesOnce es → NoTunnel (on_tunnel_events es a)
unfolding on_tunnel_events
finishes-NoTunnel es a f =
    subst NoTunnel
      (sym (on_tunnel_events-append f.before (finished f.error ∷ f.after) a)
        ∙ ap (λ x. on_tunnel_events x a) (sym f.split))
      (late-NoTunnel f.after _ f.late (finished-NoTunnel f.error (on_tunnel_events f.before a)))

-- However a tunnel's run that nobody aborts ends, wherever among its events its background task tells
-- its results, and whatever the app was before: once the app has taken these events, it holds no tunnel
-- and no injection, shows no transport, and its latency is that of the lobby again.
pub tunnel_run_cleans_up :
    (tunnel_token : String) (bound : Result String ℕ) (map_port : ℕ → Mapping) (accepted : Connect)
    (connect : SocketAddr → Connect) (peer_addr : Option IpAddr) (upnp_addr : Option SocketAddr)
    (first : StrategyKind) (ends : Ends) (a : War3App)
    → NoTunnel (on_tunnel_events (run_host_tunnel tunnel_token bound map_port accepted ends) a)
      × NoTunnel (on_tunnel_events (run_joiner_tunnel connect peer_addr upnp_addr first ends) a)
tunnel_run_cleans_up tunnel_token bound map_port accepted connect peer_addr upnp_addr first ends a =
    let (hosts, joins) =
      tunnels_finish tunnel_token bound map_port accepted connect peer_addr upnp_addr first ends in
    (finishes-NoTunnel _ a hosts, finishes-NoTunnel _ a joins)
