-- ===== src/Server/Tunnel/Ends/Private.antt =====
-- Which ends `handle_tunnel` of crates/server/src/tunnel.rs joins.
use war3_battle_tool.Prelude.{◌≡◌, ◌⊎◌, inl, inr, Option, none, some, string_eq, nat_eq}
use war3_battle_tool.Server.Channel.{Sender}
use war3_battle_tool.Server.Tunnel.Ends.{
  Stage, first, second, Ends, Steps, stays, goes, initial, target,
}
use war3_battle_tool.Server.Tunnel.Ends.Invariant.{Inv, to}
use war3_battle_tool.Server.Tunnel.Ends.Sections.{Step-Inv}
use war3_battle_tool.HashMap.{get}

-- The end whose channel a relay writes to.
abbrev pub partner : Stage → Option Sender
partner (first p) = some p
partner (second p) = some p
partner _ = none

initial-Inv : Inv initial
unfolding get
initial-Inv = record {
  waits = λ t w h. cc;
  token_eq = λ t w h. cc;
  unclaimed = λ t w a h. cc;
  known = λ a p h. cc;
  same_token = λ a p h. cc;
  unique = λ a b p h. cc;
  mutual_eq = λ a b p h. cc;
}

pub Steps-Inv : {y : Ends} → Steps initial y → Inv y
Steps-Inv stays = initial-Inv
Steps-Inv (goes path step) = Step-Inv step (Steps-Inv path)

partner-target : (stage : Stage) (p : Sender) → partner stage ≡ some p → target stage ≡ some p
partner-target (first q) p h = h
partner-target (second q) p h = h
partner-target _ p h = cc

-- A tunnel has two ends, however the ends of this and other tunnels interleave: where an end relays
-- to a second one, an end that relays to that second one too, or that the second one relays to, is
-- the first, and the two came with the same token.
pub tunnel-IsPrivate :
    {y : Ends}
    → Steps initial y
    → (a b p : Sender) → partner (y.end a).stage ≡ some p
    → (partner (y.end b).stage ≡ some p) ⊎ (partner (y.end p).stage ≡ some b)
    → (a ≡ b) × ((y.end a).token ≡ (y.end p).token)
tunnel-IsPrivate {y} path a b p h k =
    let i = Steps-Inv path in
    let mine : to y a ≡ some p = partner-target (y.end a).stage p h in
    (
      elim k [
        | inl l ↦ i.unique a b p mine (partner-target (y.end b).stage p l)
        | inr r ↦ i.mutual_eq a b p mine (partner-target (y.end p).stage b r)
      ],
      i.same_token a p mine,
    )
