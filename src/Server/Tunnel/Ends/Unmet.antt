-- ===== src/Server/Tunnel/Ends/Unmet.antt =====
-- An end of `handle_tunnel` (crates/server/src/tunnel.rs) that stands in the table no more, and whose
-- channel no other task has.
use war3_battle_tool.Prelude.{
  ◌≡◌, refl, ◌≢◌, String, Bool, true, false, some, string_eq, nat_eq, arith, by_if, by_option,
}
use war3_battle_tool.HashMap.{get}
use war3_battle_tool.HashMap.Laws.{get-insert, get-remove}
use war3_battle_tool.Server.Channel.{Sender}
use war3_battle_tool.Server.Tunnel.{TunnelState, WaitingPeer, register_token}
use war3_battle_tool.Server.Tunnel.Pairing.{is_admitted}
use war3_battle_tool.Server.Tunnel.Ends.{
  Stage, admitted, missed, listens, notified, late, first, second, over, End, Ends, Step, Steps,
  stays, goes, target, set, update, admit, look, unbind, notify, enlist, withdraw, is_listening,
  admits, looks, unbinds, notifies, enlists, wakes, fails, expires, expires_notified, withdraws,
  leaves, registers, cleans,
}
use war3_battle_tool.Server.Tunnel.Ends.Sections.{cleaned-listed}

-- A task that waits, whose wait is over, or that is over: it has not been joined to anyone.
abbrev pub is_alone : Stage → Bool
is_alone listens = true
is_alone late = true
is_alone over = true
is_alone _ = false

pub record IsUnmet (h : Sender) (y : Ends) : Type 0 where
  pub alone : is_alone (y.end h).stage ≡ true
  pub unlisted : (token : String) (w : WaitingPeer) → get token y.tunnel.waiting ≡ some w → w.tx ≢ h
  pub unreached : (a : Sender) → target (y.end a).stage ≢ some h

alone-target : (stage : Stage) (p : Sender) → is_alone stage ≡ true → target stage ≢ some p
alone-target stage p h k = ground arith

module _ (h : Sender) where
  -- A change of one end, and of the table.
  moved-IsUnmet :
      (tx : Sender) (e : End) (w : TunnelState) (y : Ends)
      → (tx ≡ h → is_alone e.stage ≡ true)
      → target e.stage ≢ some h
      → ((token : String) (peer : WaitingPeer) → get token w.waiting ≡ some peer → peer.tx ≢ h)
      → IsUnmet h y
      → IsUnmet h (record { tunnel = w; end = update y.end tx e })
  moved-IsUnmet tx e w y alone apart listed u = record {
    alone = ground (arith, u.alone, alone);
    unlisted = listed;
    unreached = λ a k. ground (arith, u.unreached a, apart);
  }

  -- Only the end changes.
  set-IsUnmet :
      (tx : Sender) (stage : Stage) (y : Ends)
      → (tx ≡ h → is_alone stage ≡ true)
      → target stage ≢ some h
      → IsUnmet h y
      → IsUnmet h (set tx stage y)
  set-IsUnmet tx stage y alone apart u = moved-IsUnmet tx _ y.tunnel y alone apart u.unlisted u

  -- An end that is not alone is another one.
  other : (tx : Sender) (y : Ends) → IsUnmet h y → is_alone (y.end tx).stage ≡ false → tx ≢ h
  other tx y u busy k = ground (arith, u.alone)

  step-IsUnmet : {y z : Ends} → Step y z → IsUnmet h y → IsUnmet h z
  unfolding admit look unbind notify enlist withdraw register_token
  step-IsUnmet {y} (admits tx token role ip e) u =
      moved-IsUnmet tx _ y.tunnel y (λ k. absurd (other tx y u (rw (e) refl) k))
        (by_if (λ st. target st ≢ some h) (is_admitted token role ip y.tunnel) admitted over
          (λ _ k. cc) (λ _ k. cc))
        u.unlisted u
  step-IsUnmet {y} (looks tx e) u =
      by_option (IsUnmet h) (get (y.end tx).token y.tunnel.waiting) _ _
        (λ n. set-IsUnmet tx missed y (λ k. absurd (other tx y u (rw (e) refl) k)) (λ k. cc) u)
        (λ peer at_token.
          moved-IsUnmet tx _ _ y (λ k. absurd (other tx y u (rw (e) refl) k))
            (λ k. ground (arith, u.unlisted _ peer at_token))
            (λ t p k.
              u.unlisted t p (ground (arith, get-remove (y.end tx).token t y.tunnel.waiting)))
            u)
  step-IsUnmet {y} (unbinds tx peer e) u =
      moved-IsUnmet tx _ _ y (λ k. absurd (other tx y u (rw (e) refl) k))
        (λ k. u.unreached tx (rw (e) k)) u.unlisted u
  step-IsUnmet {y} (notifies tx peer e) u =
      let apart = other tx y u (rw (e) refl) in
      by_if (IsUnmet h) (is_listening (y.end peer).stage) _ _
        (λ heard.
          set-IsUnmet peer (notified tx) _ (λ k. absurd (u.unreached tx (rw (e) ground arith)))
            (λ k. ground arith)
            (set-IsUnmet tx (second peer) y (λ k. absurd (apart k)) (λ k. u.unreached tx (rw (e) k))
              u))
        (λ gone. set-IsUnmet tx over y (λ k. refl) (λ k. cc) u)
  step-IsUnmet {y} (enlists tx now e) u =
      let apart = other tx y u (rw (e) refl) in
      moved-IsUnmet tx _ _ y (λ k. refl) (λ k. cc)
        (λ t p k c. ground (
          arith,
          get-insert (y.end tx).token t
              (record { tx = tx; role = (y.end tx).role; created_at = now }) y.tunnel.waiting,
          u.unlisted t p,
          apart,
        ))
        u
  step-IsUnmet {y} (wakes tx peer e) u =
      set-IsUnmet tx (first peer) y (λ k. absurd (other tx y u (rw (e) refl) k))
        (λ k. u.unreached tx (rw (e) k)) u
  step-IsUnmet {y} (fails tx e dropped) u = set-IsUnmet tx over y (λ k. refl) (λ k. cc) u
  step-IsUnmet {y} (expires tx e) u = set-IsUnmet tx late y (λ k. refl) (λ k. cc) u
  step-IsUnmet {y} (expires_notified tx peer e) u = set-IsUnmet tx late y (λ k. refl) (λ k. cc) u
  step-IsUnmet {y} (withdraws tx e) u =
      moved-IsUnmet tx _ _ y (λ k. refl) (λ k. cc)
        (λ t p k. u.unlisted t p (ground (arith, get-remove (y.end tx).token t y.tunnel.waiting))) u
  step-IsUnmet {y} (leaves tx peer e) u = set-IsUnmet tx over y (λ k. refl) (λ k. cc) u
  step-IsUnmet {y} (registers token host_ip joiner_ip joiner now) u = record {
    alone = u.alone;
    unlisted = u.unlisted;
    unreached = u.unreached;
  }
  step-IsUnmet {y} (cleans now) u = record {
    alone = u.alone;
    unlisted = λ t p k. u.unlisted t p (cleaned-listed now t p y.tunnel k);
    unreached = u.unreached;
  }

  -- Nothing that follows joins the end to another.
  pub steps-IsUnmet : {y z : Ends} → Steps y z → IsUnmet h y → IsUnmet h z
  steps-IsUnmet stays u = u
  steps-IsUnmet (goes path step) u = step-IsUnmet step (steps-IsUnmet path u)
