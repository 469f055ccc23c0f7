-- ===== src/Server/Tunnel/Ends/Sections.antt =====
-- Every section of `handle_tunnel` (crates/server/src/tunnel.rs) keeps what holds between the ends.
use war3_battle_tool.Prelude.{
  ◌≡◌, refl, String, true, none, some, string_eq, nat_eq, arith, eq_iff, subst, sym, ◌∙◌, ap,
  by_option, by_if, inl, inr,
}
use war3_battle_tool.HashMap.{get, remove}
use war3_battle_tool.HashMap.Laws.{get-remove}
use war3_battle_tool.Protocol.AddrSafety.{IpAddr}
use war3_battle_tool.Server.Channel.{Sender}
use war3_battle_tool.Server.Time.{Instant}
use war3_battle_tool.Server.Tunnel.{
  TunnelState, WaitingPeer, expired_tokens, register_token, cleanup_expired,
}
use war3_battle_tool.Server.Tunnel.Cleanup.{get-remove_all}
use war3_battle_tool.Server.Tunnel.Pairing.{is_admitted}
use war3_battle_tool.Server.Tunnel.Ends.{
  Stage, absent, admitted, missed, found, unbound, listens, notified, late, first, second, over,
  Ends, set, target, admit, look, unbind, notify, enlist, withdraw, is_listening, IsDropped, Step,
  admits, looks, unbinds, notifies, enlists, wakes, fails, expires, expires_notified, withdraws,
  leaves, registers, cleans,
}
use war3_battle_tool.Server.Tunnel.Ends.Changes.{
  smaller-Inv, unlisted, unknown-Inv, quiet-Inv, same_table-Inv, grown-Inv, unknown-untargeted,
  claim-Inv, listed-Inv,
}
use war3_battle_tool.Server.Tunnel.Ends.Invariant.{is_open, is_known, to, Inv}

pub cleaned-listed :
    (now : Instant) (token : String) (peer : WaitingPeer) (s : TunnelState)
    → get token (cleanup_expired now s).waiting ≡ some peer
    → get token s.waiting ≡ some peer
unfolding cleanup_expired
cleaned-listed now token peer s h =
    ground (arith, get-remove_all token (expired_tokens now s.waiting) s.waiting)

module _ (tx : Sender) (y : Ends) (i : Inv y) where
  abbrev now_at : Stage
  now_at = (y.end tx).stage

  unbind-Inv : (peer : Sender) → now_at ≡ found peer → Inv (unbind tx peer y)
  unfolding unbind
  unbind-Inv peer e =
      quiet-Inv tx y i (unbound peer) _ (λ t p h. h) (rw (e) refl)
        (λ t p h k. absurd (unlisted tx y i t p (rw (e) refl) h k)) (λ p h. rw (e) h)

  withdraw-Inv : now_at ≡ late → Inv (withdraw tx y)
  unfolding withdraw
  withdraw-Inv e =
      quiet-Inv tx y i over _
        (λ t p h. ground (arith, get-remove (y.end tx).token t y.tunnel.waiting)) (rw (e) refl)
        (λ t p h k. ground (
          arith,
          get-remove (y.end tx).token t y.tunnel.waiting,
          i.token_eq t p,
          eq_iff (y.end tx).token t,
        ))
        (λ p h. cc)

  fail-Inv : now_at ≡ listens → IsDropped tx y → Inv (set tx over y)
  fail-Inv e dropped =
      quiet-Inv tx y i over y.tunnel (λ t p h. h) (rw (e) refl)
        (λ t p h k. absurd (
          dropped.unlisted p
            (subst (λ n. get n y.tunnel.waiting ≡ some p)
              (sym (ap (λ a. (y.end a).token) (sym k) ∙ i.token_eq t p h)) h)
            k))
        (λ p h. cc)

  admit-Inv : (token role : String) (ip : IpAddr) → now_at ≡ absent → Inv (admit tx token role ip y)
  unfolding admit
  admit-Inv token role ip e = unknown-Inv tx y i _ (rw (e) refl) (rw (e) refl) (
      by_if (λ st. target st ≡ none) (is_admitted token role ip y.tunnel) admitted over (λ h. refl)
        (λ h. refl))

-- An end that nobody knew joins the table.
enlist-Inv :
    (tx : Sender) (now : Instant) (y : Ends)
    → Inv y
    → (y.end tx).stage ≡ missed
    → Inv (enlist tx now y)
unfolding enlist
enlist-Inv tx now y i e =
    listed-Inv tx (set tx listens y)
      (grown-Inv tx y i listens (rw (e) refl) (rw (e) refl) (λ p h. cc)) (y.end tx).token _
      (ground arith) (ground arith)
      (λ a h. ground (arith, unknown-untargeted tx y i (rw (e) refl) a))

open-known : (stage : Stage) → is_open stage ≡ true → is_known stage ≡ true
open-known stage h = ground arith

open-target : (stage : Stage) → is_open stage ≡ true → target stage ≡ none
open-target stage h = ground arith

listening : (stage : Stage) → is_listening stage ≡ true → stage ≡ listens
listening stage h = ground arith

module _ (tx : Sender) (y : Ends) (i : Inv y) where
  -- The end that waited leaves the table and is another's.
  take-Inv :
      (peer : WaitingPeer)
      → (y.end tx).stage ≡ admitted
      → get (y.end tx).token y.tunnel.waiting ≡ some peer
      → Inv (
          set tx (found peer.tx) (record y {
            tunnel = record y.tunnel { waiting = remove (y.end tx).token y.tunnel.waiting };
          }))
  take-Inv peer e at_token =
      let opened = i.waits _ peer at_token in
      let i1 =
        smaller-Inv y (record y.tunnel { waiting = remove (y.end tx).token y.tunnel.waiting })
          (λ t w h. ground (arith, get-remove (y.end tx).token t y.tunnel.waiting)) i in
      claim-Inv tx _ i1 (found peer.tx) peer.tx refl (open-known _ opened) (λ h. cc)
        (sym (i.token_eq _ peer at_token)) (λ a. i.unclaimed _ peer a at_token)
        (λ t w h. (
          unlisted tx _ i1 t w (rw (e) refl) h,
          λ k. ground (
            arith,
            get-remove (y.end tx).token t y.tunnel.waiting,
            i.token_eq t w,
            i.token_eq (y.end tx).token peer,
            eq_iff (y.end tx).token t,
          ),
        ))
        (λ a h. absurd (unknown-untargeted tx _ i1 (rw (e) refl) a h))
        (λ b h. ground (arith, open-target (y.end peer.tx).stage opened))

  look-Inv : (y.end tx).stage ≡ admitted → Inv (look tx y)
  unfolding look
  look-Inv e =
      by_option Inv (get (y.end tx).token y.tunnel.waiting) _ _
        (λ nobody. grown-Inv tx y i missed (rw (e) refl) (rw (e) refl) (λ p h. cc))
        (λ peer at_token. take-Inv peer e at_token)

  -- The end that waited has the channel of the second one.
  meet-Inv :
      (peer : Sender)
      → (y.end tx).stage ≡ unbound peer
      → (y.end peer).stage ≡ listens
      → Inv (set peer (notified tx) (set tx (second peer) y))
  meet-Inv peer e heard =
      let i1 = grown-Inv tx y i (second peer) (rw (e) refl) (rw (e) refl) (λ p h. rw (e) h) in
      let mine : to y tx ≡ some peer = rw (e) refl in
      claim-Inv peer _ i1 (notified tx) tx refl (ground arith) (λ h. refl)
        (ground (arith, i.same_token tx peer mine))
        (λ a h. ground (arith, unknown-untargeted tx y i (rw (e) refl) a))
        (λ t w h. (λ k. ground (arith, i.unclaimed t w tx h), unlisted tx y i t w (rw (e) refl) h))
        (λ a h. i1.unique a tx peer h (ground arith)) (λ b h. ground arith)

  notify-Inv : (peer : Sender) → (y.end tx).stage ≡ unbound peer → Inv (notify tx peer y)
  unfolding notify
  notify-Inv peer e =
      by_if Inv (is_listening (y.end peer).stage) _ _ (λ heard. meet-Inv peer e (listening _ heard))
        (λ gone. grown-Inv tx y i over (rw (e) refl) (rw (e) refl) (λ p h. cc))

-- Every step keeps the invariant.
pub Step-Inv : {y z : Ends} → Step y z → Inv y → Inv z
unfolding register_token
Step-Inv {y} (admits tx token role ip e) i = admit-Inv tx y i token role ip e
Step-Inv {y} (looks tx e) i = look-Inv tx y i e
Step-Inv {y} (unbinds tx peer e) i = unbind-Inv tx y i peer e
Step-Inv {y} (notifies tx peer e) i = notify-Inv tx y i peer e
Step-Inv {y} (enlists tx now e) i = enlist-Inv tx now y i e
Step-Inv {y} (wakes tx peer e) i =
    same_table-Inv tx y i (first peer) (rw (e) refl) (λ h. ground arith) (λ p h. rw (e) h)
Step-Inv {y} (fails tx e dropped) i = fail-Inv tx y i e dropped
Step-Inv {y} (expires tx e) i = same_table-Inv tx y i late (rw (e) refl) (λ h. refl) (λ p h. cc)
Step-Inv {y} (expires_notified tx peer e) i =
    same_table-Inv tx y i late (rw (e) refl) (λ h. refl) (λ p h. cc)
Step-Inv {y} (withdraws tx e) i = withdraw-Inv tx y i e
Step-Inv {y} (leaves tx peer (inl e)) i =
    same_table-Inv tx y i over (rw (e) refl) (λ h. ground arith) (λ p h. cc)
Step-Inv {y} (leaves tx peer (inr e)) i =
    same_table-Inv tx y i over (rw (e) refl) (λ h. ground arith) (λ p h. cc)
Step-Inv {y} (registers token host_ip joiner_ip joiner now) i =
    smaller-Inv y (register_token token host_ip joiner_ip joiner now y.tunnel) (λ t p h. h) i
Step-Inv {y} (cleans now) i =
    smaller-Inv y (cleanup_expired now y.tunnel) (λ t p h. cleaned-listed now t p y.tunnel h) i
