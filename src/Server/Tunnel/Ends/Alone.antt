-- ===== src/Server/Tunnel/Ends/Alone.antt =====
-- An end of a tunnel that no other comes between: the sections of `handle_tunnel`
-- (crates/server/src/tunnel.rs) in a row, beside Server/Tunnel/Pairing.
use war3_battle_tool.Prelude.{
  ◌≡◌, String, string_eq, nat_eq, arith, Bool-cases, Option-cases, inl, inr, beq_refl,
}
use war3_battle_tool.HashMap.{get}
use war3_battle_tool.Protocol.AddrSafety.{IpAddr}
use war3_battle_tool.Server.Channel.{Sender}
use war3_battle_tool.Server.Time.{Instant}
use war3_battle_tool.Server.Tunnel.Pairing.{
  Arrival, closes, waits, pairs, is_admitted, meet, arrive,
}
use war3_battle_tool.Server.Tunnel.Ends.{
  Stage, admitted, missed, found, unbound, listens, over, Ends, admit, look, unbind, enlist,
}

-- The section that follows the look at the table.
unfoldable after_look : Sender → Instant → Stage → Ends → Ends
unfolding enlist unbind
after_look tx now missed y = enlist tx now y
after_look tx now (found peer) y = unbind tx peer y
after_look tx now _ y = y

unfoldable after_admit : Sender → Instant → Stage → Ends → Ends
unfolding look after_look
after_admit tx now admitted y = let y' = look tx y in after_look tx now (y'.end tx).stage y'
after_admit tx now _ y = y

unfoldable in_a_row : Sender → String → String → IpAddr → Instant → Ends → Ends
unfolding admit after_admit
in_a_row tx token role ip now y =
    let y' = admit tx token role ip y in after_admit tx now (y'.end tx).stage y'

-- Where an end stands after its arrival.
abbrev stands : Arrival → Stage
stands closes = over
stands waits = listens
stands (pairs peer) = unbound peer.tx

-- Where no other end comes between them, the sections of an end leave the tables as the arrival in
-- one section does, and the end closes, waits or goes on to the end that waited as it says.
in_a_row-arrive :
    (tx : Sender) (token role : String) (ip : IpAddr) (now : Instant) (y : Ends)
    → ((in_a_row tx token role ip now y).tunnel ≡ (arrive token role ip tx now y.tunnel).0)
      × (((in_a_row tx token role ip now y).end tx).stage
          ≡ stands (arrive token role ip tx now y.tunnel).1)
unfolding in_a_row arrive meet
in_a_row-arrive tx token role ip now y = elim (Bool-cases (is_admitted token role ip y.tunnel)) [
  | inl ok ↦ elim (Option-cases (get token y.tunnel.waiting)) [
    | inl nobody ↦ ground (arith, beq_refl tx)
    | inr (w, at_token) ↦ ground (arith, beq_refl tx)
  ]
  | inr refused ↦ ground (arith, beq_refl tx)
]
