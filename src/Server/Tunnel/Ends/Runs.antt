-- ===== src/Server/Tunnel/Ends/Runs.antt =====
-- Longer runs of the sections of `handle_tunnel` (crates/server/src/tunnel.rs), one known outcome at a
-- time.
use war3_battle_tool.Prelude.{◌≡◌, refl, String, true, none, some, subst, string_eq, nat_eq}
use war3_battle_tool.HashMap.{get, remove}
use war3_battle_tool.Protocol.AddrSafety.{IpAddr}
use war3_battle_tool.Server.Channel.{Sender}
use war3_battle_tool.Server.Tunnel.{WaitingPeer}
use war3_battle_tool.Server.Tunnel.Pairing.{is_admitted}
use war3_battle_tool.Server.Tunnel.Ends.{
  absent, admitted, missed, found, unbound, listens, notified, second, Ends, Steps, goes, update,
  set, admit, look, notify, admits, looks, notifies,
}

module _ {x y : Ends} (path : Steps x y) (tx : Sender) where
  pub admitted_run :
      (token role : String) (ip : IpAddr)
      → (y.end tx).stage ≡ absent
      → is_admitted token role ip y.tunnel ≡ true
      → Steps x (record y {
        end =
            update y.end tx
              (record { token = token; role = role; client_ip = ip; stage = admitted });
      })
  unfolding admit
  admitted_run token role ip e verified =
      subst (Steps x) (rw (admit, verified) refl) (goes path (admits tx token role ip e))

  pub missed_run :
      (y.end tx).stage ≡ admitted
      → get (y.end tx).token y.tunnel.waiting ≡ none
      → Steps x (set tx missed y)
  unfolding look
  missed_run e nobody = subst (Steps x) (rw (look, nobody) refl) (goes path (looks tx e))

  pub found_run :
      (w : WaitingPeer)
      → (y.end tx).stage ≡ admitted
      → get (y.end tx).token y.tunnel.waiting ≡ some w
      → Steps x (
          set tx (found w.tx) (record y {
            tunnel = record y.tunnel { waiting = remove (y.end tx).token y.tunnel.waiting };
          }))
  unfolding look
  found_run w e at_token = subst (Steps x) (rw (look, at_token) refl) (goes path (looks tx e))

  pub joined_run :
      (peer : Sender)
      → (y.end tx).stage ≡ unbound peer
      → (y.end peer).stage ≡ listens
      → Steps x (set peer (notified tx) (set tx (second peer) y))
  unfolding notify
  joined_run peer e heard =
      subst (Steps x) (rw (notify, heard) refl) (goes path (notifies tx peer e))
