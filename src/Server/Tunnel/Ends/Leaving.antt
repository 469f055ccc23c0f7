-- ===== src/Server/Tunnel/Ends/Leaving.antt =====
-- What an end of a tunnel learns of the leave of the other: `relay` of crates/server/src/tunnel.rs
-- ends where `rx.recv()` gives `None`, which is once every sender of the channel is dropped.
use war3_battle_tool.Prelude.{
  ◌≡◌, refl, ◌≢◌, ◌⊎◌, inl, inr, String, Bool, true, false, some, string_eq, nat_eq, by_if,
  by_option, Bool-cases, arith, ◌==◌,
}
use war3_battle_tool.HashMap.{get}
use war3_battle_tool.Server.Channel.{Sender}
use war3_battle_tool.Server.Tunnel.{WaitingPeer}
use war3_battle_tool.Server.Tunnel.Ends.{
  Stage, absent, admitted, missed, found, unbound, listens, notified, late, first, second, over,
  Ends, Step, Steps, stays, goes, initial, target, set, admit, look, unbind, notify, enlist,
  withdraw, admits, looks, unbinds, notifies, enlists, wakes, fails, expires, expires_notified,
  withdraws, leaves, registers, cleans, update, End, is_listening,
}
use war3_battle_tool.Server.Tunnel.Ends.Private.{Steps-Inv}

-- A task that holds its own `my_tx`.
unfoldable pub keeps_own : Stage → Bool
keeps_own absent = false
keeps_own (first p) = false
keeps_own over = false
keeps_own admitted = true
keeps_own missed = true
keeps_own (found p) = true
keeps_own (unbound p) = true
keeps_own listens = true
keeps_own (notified p) = true
keeps_own late = true
keeps_own (second p) = true

-- No sender of the channel of an end is left: not its own, none with another task, none in the table.
pub record IsClosed (p : Sender) (y : Ends) : Type 0 where
  pub no_own : keeps_own (y.end p).stage ≡ false
  pub no_task : (a : Sender) → target (y.end a).stage ≢ some p
  pub no_entry : (token : String) (w : WaitingPeer) → get token y.tunnel.waiting ≡ some w → w.tx ≢ p

-- The end that came first and relays to an end that has left finds its channel closed.
pub leave_heard_by_first :
    {y : Ends}
    → Steps initial y
    → (a p : Sender) → (y.end p).stage ≡ first a
    → (y.end a).stage ≡ over
    → IsClosed p y
unfolding keeps_own
leave_heard_by_first {y} path a p e left =
    let i = Steps-Inv path in
    record {
      no_own = rw (e) refl;
      no_task = λ b h. ground (arith, i.mutual_eq b a p);
      no_entry = λ t w h k. ground (arith, i.waits t w);
    }

-- The end that came second relays on, or is over.
abbrev Remains : Sender → Sender → (Sender → End) → Type 0
Remains a p end = ((end p).stage ≡ over) ⊎ ((end p).stage ≡ second a)

abbrev relays_second : Stage → Bool
relays_second (second q) = true
relays_second over = true
relays_second _ = false

module _ (a p : Sender) where
  -- A section of an end that does not relay as the second one.
  set-Remains :
      (tx : Sender) (e : End) (end : Sender → End)
      → relays_second (end tx).stage ≡ false
      → Remains a p end
      → Remains a p (update end tx e)
  set-Remains tx e end other (inl h) = inl (ground arith)
  set-Remains tx e end other (inr h) = inr (ground arith)

  -- The end leaves, or another one.
  leave-Remains :
      (tx : Sender) (e : End) (end : Sender → End)
      → e.stage ≡ over
      → Remains a p end
      → Remains a p (update end tx e)
  leave-Remains tx e end left (inl h) = inl (ground arith)
  leave-Remains tx e end left (inr h) = elim (Bool-cases (tx == p)) [
    | inl same ↦ inl (ground arith)
    | inr other ↦ inr (ground arith)
  ]

  step-Remains : {y z : Ends} → Step y z → Remains a p y.end → Remains a p z.end
  unfolding admit look unbind notify enlist withdraw
  step-Remains {y} (admits tx token role ip e) h = set-Remains tx _ y.end (rw (e) refl) h
  step-Remains {y} (looks tx e) h =
      by_option (λ (o : Ends). Remains a p o.end) (get (y.end tx).token y.tunnel.waiting) _ _
        (λ n. set-Remains tx _ y.end (rw (e) refl) h)
        (λ w k. set-Remains tx _ y.end (rw (e) refl) h)
  step-Remains {y} (unbinds tx peer e) h = set-Remains tx _ y.end (rw (e) refl) h
  step-Remains {y} (notifies tx peer e) h =
      by_if (λ (o : Ends). Remains a p o.end) (is_listening (y.end peer).stage) _ _
        (λ k.
          set-Remains peer _ (set tx (second peer) y).end (ground arith)
            (set-Remains tx _ y.end (rw (e) refl) h))
        (λ k. set-Remains tx _ y.end (rw (e) refl) h)
  step-Remains {y} (enlists tx now e) h = set-Remains tx _ y.end (rw (e) refl) h
  step-Remains {y} (wakes tx peer e) h = set-Remains tx _ y.end (rw (e) refl) h
  step-Remains {y} (fails tx e dropped) h = set-Remains tx _ y.end (rw (e) refl) h
  step-Remains {y} (expires tx e) h = set-Remains tx _ y.end (rw (e) refl) h
  step-Remains {y} (expires_notified tx peer e) h = set-Remains tx _ y.end (rw (e) refl) h
  step-Remains {y} (withdraws tx e) h = set-Remains tx _ y.end (rw (e) refl) h
  step-Remains {y} (leaves tx peer e) h = leave-Remains tx _ y.end refl h
  step-Remains {y} (registers token host_ip joiner_ip joiner now) h = h
  step-Remains {y} (cleans now) h = h

  steps-Remains : {y z : Ends} → Steps y z → Remains a p y.end → Remains a p z.end
  steps-Remains stays h = h
  steps-Remains (goes path step) h = step-Remains step (steps-Remains path h)

-- The end that came second keeps a sender of its own channel, so its relay never learns of the leave
-- of the other: whatever happens after the two are joined, it is over, or it still relays to the other
-- and its channel is not closed, though the other may be over.
leave_unheard_by_second :
    {y z : Ends} (a p : Sender)
    → (y.end p).stage ≡ second a
    → Steps y z
    → ((z.end p).stage ≡ over) ⊎ (((z.end p).stage ≡ second a) × ¬ IsClosed p z)
unfolding keeps_own
leave_unheard_by_second {z} a p e path = elim (steps-Remains a p path (inr e)) [
  | inl h ↦ inl h
  | inr h ↦ inr (h, λ c. ground (arith, c.no_own))
]
