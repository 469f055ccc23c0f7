-- ===== src/Client/Tunnel/Runs.antt =====
-- What a tunnel of crates/client/src/net/tunnel.rs tells the app over its life, its background task
-- included.
use war3_battle_tool.Prelude.{
  ℕ, zero, suc, String, List, [], ◌∷◌, ◌++◌, Option, none, some, Bool, true, false, ◌≡◌, refl, ◌⊎◌,
  inl, inr, Result, ok, err, any, by_result, if◌then◌else◌, ap, if-false, by_if,
}
use war3_battle_tool.Protocol.AddrSafety.{IpAddr, SocketAddr}
use war3_battle_tool.Client.Bridge.{Bridge}
use war3_battle_tool.Client.Quic.{StrategyKind, StrategyResult}
use war3_battle_tool.Client.Tunnel.{
  TunnelEvent, finished, proxy_ready, transport_selected, transport_upgraded, strategy_results,
  relay, Ends, Mapping, Connect, Background, bridge_events, place, beside, run_host_tunnel,
  run_joiner_tunnel, background_quic_host, background_quic_joiner,
}

abbrev pub is_finished : TunnelEvent → Bool
is_finished (finished e) = true
is_finished _ = false

-- The results of the background task, or nothing.
abbrev pub IsLate : List TunnelEvent → Type 0
IsLate after =
    (after ≡ []) ⊎ ((results : List StrategyResult) × (after ≡ strategy_results results ∷ []))

-- One `Finished`, which only the results of the background task may follow.
pub record FinishesOnce (events : List TunnelEvent) : Type 0 where
  pub before : List TunnelEvent
  pub error : Option String
  pub after : List TunnelEvent
  pub split : events ≡ before ++ finished error ∷ after
  pub unfinished : any is_finished before ≡ false
  pub late : IsLate after

only : (error : Option String) → FinishesOnce (finished error ∷ [])
only error = record {
  before = [];
  error = error;
  after = [];
  split = refl;
  unfinished = refl;
  late = inl refl;
}

followed :
    (error : Option String) (rs : List StrategyResult)
    → FinishesOnce (finished error ∷ strategy_results rs ∷ [])
followed error rs = record {
  before = [];
  error = error;
  after = strategy_results rs ∷ [];
  split = refl;
  unfinished = refl;
  late = inr (rs, refl);
}

earlier :
    (e : TunnelEvent) {events : List TunnelEvent}
    → is_finished e ≡ false
    → FinishesOnce events
    → FinishesOnce (e ∷ events)
earlier e h f = record {
  before = e ∷ f.before;
  error = f.error;
  after = f.after;
  split = ap (◌∷◌ e) f.split;
  unfinished = if-false (is_finished e) _ _ h f.unfinished;
  late = f.late;
}

-- The results come before the last event, after it, or not at all.
placed_at_end :
    (o : Option ℕ) (rs : List StrategyResult) (error : Option String)
    → FinishesOnce (place o (strategy_results rs) (finished error ∷ []))
unfolding place
placed_at_end none rs error = only error
placed_at_end (some zero) rs error = earlier (strategy_results rs) refl (only error)
placed_at_end (some (suc zero)) rs error = followed error rs
placed_at_end (some (suc (suc n))) rs error = followed error rs

placed_before_end :
    (o : Option ℕ) (rs : List StrategyResult) (e : TunnelEvent) (error : Option String)
    → is_finished e ≡ false
    → FinishesOnce (place o (strategy_results rs) (e ∷ finished error ∷ []))
unfolding place
placed_before_end none rs e error h = earlier e h (only error)
placed_before_end (some zero) rs e error h =
    earlier (strategy_results rs) refl (earlier e h (only error))
placed_before_end (some (suc n)) rs e error h = earlier e h (placed_at_end (some n) rs error)

beside-FinishesOnce : (b : Background) (ends : Ends) → FinishesOnce (beside b ends)
unfolding beside bridge_events
beside-FinishesOnce b ends = returned ends.bridge
  where
    returned :
        (r : Result String Bridge)
        → FinishesOnce (place ends.told_after (strategy_results b.results) (bridge_events r))
    returned (err e) = placed_at_end ends.told_after b.results (some e)
    returned (ok bridge) =
        by_if (λ es. FinishesOnce (place ends.told_after (strategy_results b.results) es))
          bridge.upgraded _ _
          (λ _. placed_before_end ends.told_after b.results transport_upgraded none refl)
          (λ _. placed_at_end ends.told_after b.results none)

connected-FinishesOnce :
    (b : Background) (ends : Ends) (e : String)
    → FinishesOnce (if ends.game then beside b ends else finished (some e) ∷ [])
connected-FinishesOnce b ends e =
    by_if FinishesOnce ends.game _ _ (λ _. beside-FinishesOnce b ends) (λ _. only (some e))

-- However the listener, the WebSocket, the game, the bridge and the background task end, and wherever
-- among the events of the run those of the background task come: a host's tunnel and a joiner's that
-- nobody aborts tell the app exactly once that they have finished, and after that at most the results of
-- the background task are told.
pub tunnels_finish :
    (tunnel_token : String) (bound : Result String ℕ) (map_port : ℕ → Mapping) (accepted : Connect)
    (connect : SocketAddr → Connect) (peer_addr : Option IpAddr) (upnp_addr : Option SocketAddr)
    (first : StrategyKind) (ends : Ends)
    → FinishesOnce (run_host_tunnel tunnel_token bound map_port accepted ends)
      × FinishesOnce (run_joiner_tunnel connect peer_addr upnp_addr first ends)
unfolding run_host_tunnel run_joiner_tunnel
tunnels_finish tunnel_token bound map_port accepted connect peer_addr upnp_addr first ends = (
  earlier (transport_selected relay) refl (
      by_result FinishesOnce ends.web_socket _ _ (λ e. only _)
        (λ _.
          connected-FinishesOnce (background_quic_host tunnel_token bound map_port accepted).0 ends
            _)),
  by_result FinishesOnce ends.listener _ _ (λ e. only _)
      (λ _. earlier proxy_ready refl (
        earlier (transport_selected relay) refl (
          by_result FinishesOnce ends.web_socket _ _ (λ e. only _)
            (λ _.
              connected-FinishesOnce (background_quic_joiner connect peer_addr upnp_addr first) ends
                _)))),
)
