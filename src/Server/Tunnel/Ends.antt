-- ===== src/Server/Tunnel/Ends.antt =====
-- `handle_tunnel` of crates/server/src/tunnel.rs, section by section: a task holds a lock for one
-- section only, so the sections of several ends may follow each other in any order. Server/Tunnel/Pairing
-- has the same code as one section. An end goes by the number of its relay channel, `my_tx`.
pub mod Invariant
pub mod Changes
pub mod Sections
pub mod Private
pub mod Leaving
pub mod Runs
pub mod Alone
pub mod Unmet
pub mod Together
pub mod Roles
use war3_battle_tool.Prelude.{
  ◌≡◌, String, Bool, true, false, Option, none, some, string_eq, nat_eq, ◌==◌, ◌≢◌, ◌⊎◌,
  if◌then◌else◌,
}
use war3_battle_tool.HashMap.{get, insert, remove}
use war3_battle_tool.Protocol.AddrSafety.{IpAddr}
use war3_battle_tool.Server.Channel.{Sender}
use war3_battle_tool.Server.Time.{Instant}
use war3_battle_tool.Server.Tunnel.{TunnelState, WaitingPeer, register_token, cleanup_expired, new}
use war3_battle_tool.Server.Tunnel.Pairing.{is_admitted}

-- Where the task of an end stands.
pub data Stage : Type 0 where
  absent : Stage
  -- before `waiting.remove`
  admitted : Stage
  -- nobody waited; before `waiting.insert`
  missed : Stage
  -- it took the entry of the end that waited; before the binding is removed
  found : Sender → Stage
  -- before `notify.send`
  unbound : Sender → Stage
  -- in the `select!` on `notify_rx`
  listens : Stage
  -- the channel of the second end is in `notify_rx`
  notified : Sender → Stage
  -- the timeout was first; before `waiting.remove`
  late : Stage
  -- `relay`, to the channel of the peer: the first end has dropped `my_tx`, the second has not
  first : Sender → Stage
  second : Sender → Stage
  over : Stage

pub record End : Type 0 where
  pub token : String
  pub role : String
  pub client_ip : IpAddr
  pub stage : Stage

pub record Ends : Type 0 where
  pub tunnel : TunnelState
  pub end : Sender → End

abbrev pub update : (Sender → End) → Sender → End → Sender → End
update f tx e j = if tx == j then e else f j

abbrev pub set : Sender → Stage → Ends → Ends
set tx stage y = record y { end = update y.end tx (record (y.end tx) { stage = stage }) }

-- The token is verified: the task goes on, or closes its socket.
unfoldable pub admit : Sender → String → String → IpAddr → Ends → Ends
unfolding is_admitted
admit tx token role client_ip y = record y {
  end = update y.end tx (record {
    token = token;
    role = role;
    client_ip = client_ip;
    stage = if is_admitted token role client_ip y.tunnel then admitted else over;
  });
}

-- `waiting.remove(&token)`
unfoldable pub look : Sender → Ends → Ends
look tx y = elim (get (y.end tx).token y.tunnel.waiting) [
  | none ↦ set tx missed y
  | some peer ↦
      set tx (found peer.tx) (record y {
        tunnel = record y.tunnel { waiting = remove (y.end tx).token y.tunnel.waiting };
      })
]

-- `token_bindings.remove(&token)`
unfoldable pub unbind : Sender → Sender → Ends → Ends
unbind tx peer y = set tx (unbound peer) (record y {
  tunnel = record y.tunnel { token_bindings = remove (y.end tx).token y.tunnel.token_bindings };
})

-- Whether the receiver of `notify` is still there.
abbrev pub is_listening : Stage → Bool
is_listening listens = true
is_listening _ = false

-- `peer.notify.send(my_tx.clone())`, and the relay, or the end of the task.
unfoldable pub notify : Sender → Sender → Ends → Ends
notify tx peer y =
    if is_listening (y.end peer).stage
    then set peer (notified tx) (set tx (second peer) y)
    else set tx over y

-- `waiting.insert`: an entry that stands under the token is dropped, and its `notify` with it.
unfoldable pub enlist : Sender → Instant → Ends → Ends
enlist tx now y = set tx listens (record y {
  tunnel = record y.tunnel {
    waiting =
        insert (y.end tx).token (record { tx = tx; role = (y.end tx).role; created_at = now })
          y.tunnel.waiting;
  };
})

-- The timeout of the wait: `waiting.remove(&token)`, whoever stands there.
unfoldable pub withdraw : Sender → Ends → Ends
withdraw tx y =
    set tx over
      (record y { tunnel = record y.tunnel { waiting = remove (y.end tx).token y.tunnel.waiting } })

-- The channel that a task sends to, or is about to.
abbrev pub target : Stage → Option Sender
target (found p) = some p
target (unbound p) = some p
target (notified p) = some p
target (first p) = some p
target (second p) = some p
target _ = none

-- The end whose `notify` a task holds.
abbrev pub taken : Stage → Option Sender
taken (found p) = some p
taken (unbound p) = some p
taken _ = none

-- The `notify` of an end is dropped: its entry is not in the table, and no task has taken it.
pub record IsDropped (tx : Sender) (y : Ends) : Type 0 where
  pub unlisted : (w : WaitingPeer) → get (y.end tx).token y.tunnel.waiting ≡ some w → w.tx ≢ tx
  pub untaken : (a : Sender) → taken (y.end a).stage ≢ some tx

-- What may happen next.
pub data Step : Ends → Ends → Type 0 where
  admits :
      {y : Ends} (tx : Sender) (token role : String) (ip : IpAddr)
      → (y.end tx).stage ≡ absent
      → Step y (admit tx token role ip y)
  looks : {y : Ends} (tx : Sender) → (y.end tx).stage ≡ admitted → Step y (look tx y)
  unbinds :
      {y : Ends} (tx peer : Sender) → (y.end tx).stage ≡ found peer → Step y (unbind tx peer y)
  notifies :
      {y : Ends} (tx peer : Sender) → (y.end tx).stage ≡ unbound peer → Step y (notify tx peer y)
  enlists :
      {y : Ends} (tx : Sender) (now : Instant)
      → (y.end tx).stage ≡ missed
      → Step y (enlist tx now y)
  wakes :
      {y : Ends} (tx peer : Sender)
      → (y.end tx).stage ≡ notified peer
      → Step y (set tx (first peer) y)
  fails :
      {y : Ends} (tx : Sender)
      → (y.end tx).stage ≡ listens
      → IsDropped tx y
      → Step y (set tx over y)
  expires : {y : Ends} (tx : Sender) → (y.end tx).stage ≡ listens → Step y (set tx late y)
  expires_notified :
      {y : Ends} (tx peer : Sender) → (y.end tx).stage ≡ notified peer → Step y (set tx late y)
  withdraws : {y : Ends} (tx : Sender) → (y.end tx).stage ≡ late → Step y (withdraw tx y)
  leaves :
      {y : Ends} (tx peer : Sender)
      → ((y.end tx).stage ≡ first peer) ⊎ ((y.end tx).stage ≡ second peer)
      → Step y (set tx over y)
  registers :
      {y : Ends} (token : String) (host_ip joiner_ip : IpAddr) (joiner : String) (now : Instant)
      → Step y (record y { tunnel = register_token token host_ip joiner_ip joiner now y.tunnel })
  cleans : {y : Ends} (now : Instant) → Step y (record y { tunnel = cleanup_expired now y.tunnel })

abbrev pub initial : Ends
initial = record {
  tunnel = new;
  end = λ tx. record { token = ""; role = ""; client_ip = IpAddr.v4 0 0 0 0; stage = absent };
}

-- The states that one may come to from another.
pub data Steps (y : Ends) : Ends → Type 0 where
  stays : Steps y y
  goes : {z w : Ends} → Steps y z → Step z w → Steps y w
