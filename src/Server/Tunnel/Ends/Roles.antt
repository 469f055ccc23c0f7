-- ===== src/Server/Tunnel/Ends/Roles.antt =====
-- `handle_tunnel` of crates/server/src/tunnel.rs verifies the address of each role, and joins any two
-- ends of a token.
use war3_battle_tool.Prelude.{◌≡◌, String, true, some, string_eq, nat_eq, arith, elim-some}
use war3_battle_tool.HashMap.{get}
use war3_battle_tool.Protocol.AddrSafety.{IpAddr}
use war3_battle_tool.Server.Channel.{Sender}
use war3_battle_tool.Server.Tunnel.{WaitingPeer, TokenBinding, verify_ip}
use war3_battle_tool.Server.Tunnel.Pairing.{is_admitted}
use war3_battle_tool.Server.Tunnel.Ends.{
  absent, listens, first, second, Ends, Steps, stays, goes, unbind, unbinds, wakes,
}
use war3_battle_tool.Server.Tunnel.Ends.Runs.{admitted_run, found_run, joined_run}

-- Two ends of one token are joined whatever their roles are, and so are two hosts: where an end waits,
-- an end that comes with the same token from an address that its own role may come from is joined
-- with it, also where the role is the same.
same_role-joined :
    (y : Ends) (tx peer : Sender) (token role : String) (ip : IpAddr) (w : WaitingPeer)
    (binding : TokenBinding)
    → (y.end tx).stage ≡ absent
    → (y.end peer).stage ≡ listens
    → (y.end peer).role ≡ role
    → get token y.tunnel.waiting ≡ some w
    → w.tx ≡ peer
    → get token y.tunnel.token_bindings ≡ some binding
    → verify_ip binding role ip ≡ true
    → (z : Ends) × Steps y z
      × ((z.end tx).stage ≡ second peer)
      × ((z.end peer).stage ≡ first tx)
      × ((z.end tx).role ≡ (z.end peer).role)
unfolding is_admitted unbind
same_role-joined y tx peer token role ip w binding new waits same at_token named bound verified =
    let go1 = admitted_run stays tx token role ip new (elim-some _ _ _ bound verified) in
    let go2 = found_run go1 tx w (ground arith) (ground arith) in
    let go3 = goes go2 (unbinds tx peer (ground arith)) in
    let go4 = joined_run go3 tx peer (ground arith) (ground arith) in
    let go5 = goes go4 (wakes peer tx (ground arith)) in
    (_, go5, ground arith, ground arith, ground arith)
