-- ===== src/Server/Tunnel/Ends/Invariant.antt =====
-- What holds between the ends of tunnels and the table of those that wait.
use war3_battle_tool.Prelude.{
  ◌≡◌, String, Bool, true, false, Option, some, string_eq, nat_eq, ◌≢◌, arith,
}
use war3_battle_tool.HashMap.{get}
use war3_battle_tool.Server.Channel.{Sender}
use war3_battle_tool.Server.Tunnel.{TunnelState, WaitingPeer}
use war3_battle_tool.Server.Tunnel.Ends.{
  Stage, absent, admitted, missed, found, unbound, listens, late, End, Ends, update, target,
}

-- An end that stands in the table, or did until now.
abbrev pub is_open : Stage → Bool
is_open listens = true
is_open late = true
is_open _ = false

-- An end whose channel others may have.
abbrev pub is_known : Stage → Bool
is_known absent = false
is_known admitted = false
is_known missed = false
is_known (found p) = false
is_known (unbound p) = false
is_known _ = true

abbrev pub to : Ends → Sender → Option Sender
to y a = target (y.end a).stage

pub record Inv (y : Ends) : Type 0 where
  pub waits :
      (token : String) (w : WaitingPeer)
      → get token y.tunnel.waiting ≡ some w
      → is_open (y.end w.tx).stage ≡ true
  pub token_eq :
      (token : String) (w : WaitingPeer)
      → get token y.tunnel.waiting ≡ some w
      → (y.end w.tx).token ≡ token
  pub unclaimed :
      (token : String) (w : WaitingPeer) (a : Sender)
      → get token y.tunnel.waiting ≡ some w
      → to y a ≢ some w.tx
  pub known : (a p : Sender) → to y a ≡ some p → is_known (y.end p).stage ≡ true
  pub same_token : (a p : Sender) → to y a ≡ some p → (y.end a).token ≡ (y.end p).token
  pub unique : (a b p : Sender) → to y a ≡ some p → to y b ≡ some p → a ≡ b
  pub mutual_eq : (a b p : Sender) → to y a ≡ some p → to y p ≡ some b → a ≡ b

-- A change of one end that gives it no new channel, and of the table that adds nothing to it.
pub record Moves (tx : Sender) (e : End) (w : TunnelState) (y : Ends) : Type 0 where
  pub still_known : is_known (y.end tx).stage ≡ true → is_known e.stage ≡ true
  pub still_named : is_known (y.end tx).stage ≡ true → e.token ≡ (y.end tx).token
  pub no_new :
      (p : Sender) → target e.stage ≡ some p → (to y tx ≡ some p) × (e.token ≡ (y.end tx).token)
  pub listed :
      (token : String) (peer : WaitingPeer)
      → get token w.waiting ≡ some peer
      → get token y.tunnel.waiting ≡ some peer
  pub still_open :
      (token : String) (peer : WaitingPeer)
      → get token w.waiting ≡ some peer
      → peer.tx ≡ tx
      → (is_open e.stage ≡ true) × (e.token ≡ (y.end tx).token)

module _ (tx : Sender) (e : End) (w : TunnelState) (y : Ends) (m : Moves tx e w y) where
  abbrev moved : Ends
  moved = record { tunnel = w; end = update y.end tx e }

  to_before : (a p : Sender) → to moved a ≡ some p → to y a ≡ some p
  to_before a p h = ground (arith, m.no_new p)

  pub moved-Inv : Inv y → Inv moved
  moved-Inv i = record {
    waits = λ t peer h. ground (arith, i.waits t peer (m.listed t peer h), m.still_open t peer h);
    token_eq =
        λ t peer h. ground (arith, i.token_eq t peer (m.listed t peer h), m.still_open t peer h);
    unclaimed = λ t peer a h k. i.unclaimed t peer a (m.listed t peer h) (to_before a peer.tx k);
    known = λ a p h. ground (arith, i.known a p (to_before a p h), m.still_known);
    same_token = λ a p h. ground (
      arith,
      i.same_token a p (to_before a p h),
      i.known a p (to_before a p h),
      m.still_named,
      m.no_new p,
    );
    unique = λ a b p h k. i.unique a b p (to_before a p h) (to_before b p k);
    mutual_eq = λ a b p h k. i.mutual_eq a b p (to_before a p h) (to_before p b k);
  }
