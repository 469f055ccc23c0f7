-- ===== src/Server/Tunnel/Pairing/Once.antt =====
-- A token makes one tunnel, between the two addresses that it was registered for.
use war3_battle_tool.Prelude.{
  ◌≡◌, refl, String, true, none, some, arith, string_eq, eq_iff, beq_refl, ap, if-true, elim-some,
  ◌∙◌,
}
use war3_battle_tool.HashMap.{get, remove}
use war3_battle_tool.HashMap.Laws.{get-insert, get-remove}
use war3_battle_tool.Protocol.AddrSafety.{IpAddr, ip_eq}
use war3_battle_tool.Server.Channel.{Sender}
use war3_battle_tool.Server.Time.{Instant}
use war3_battle_tool.Server.Tunnel.{
  TunnelState, WaitingPeer, TokenBinding, register_token, verify_ip,
}
use war3_battle_tool.Server.Tunnel.Pairing.{
  Arrival, closes, waits, pairs, is_admitted, meet, arrive,
}

module _ (token role : String) (ip : IpAddr) (tx : Sender) (now : Instant) (s : TunnelState) where
  -- The second end, at an address of the binding.
  meets :
      (peer : WaitingPeer) (binding : TokenBinding)
      → get token s.waiting ≡ some peer
      → get token s.token_bindings ≡ some binding
      → verify_ip binding role ip ≡ true
      → arrive token role ip tx now s ≡ (
        record s {
          waiting = remove token s.waiting;
          token_bindings = remove token s.token_bindings;
        },
        pairs peer,
      )
  unfolding arrive is_admitted meet
  meets peer binding waiting bound verified =
      if-true _ _ _ (elim-some _ _ _ bound verified) (rw (meet, waiting) refl)

  -- A token without a binding.
  unbound : get token s.token_bindings ≡ none → arrive token role ip tx now s ≡ (s, closes)
  unfolding arrive is_admitted
  unbound missing = rw (arrive, is_admitted, missing) refl

module _ (token : String) (host_ip joiner_ip : IpAddr) (joiner : String) (t : Instant)
    (s : TunnelState) (fresh : get token s.waiting ≡ none) where
  abbrev registered : TunnelState
  registered = register_token token host_ip joiner_ip joiner t s

  module _ (host_tx joiner_tx : Sender) (t1 t2 : Instant) where
    abbrev host_waits : TunnelState
    host_waits = (arrive token "host" host_ip host_tx t1 registered).0

    abbrev paired : TunnelState × Arrival
    paired = arrive token "join" joiner_ip joiner_tx t2 host_waits

    host_waits_lem :
        ((arrive token "host" host_ip host_tx t1 registered).1 ≡ waits)
        × (get token host_waits.waiting
            ≡ some (record { tx = host_tx; role = "host"; created_at = t1 }))
        × (get token host_waits.token_bindings
            ≡ some (record { host_ip = host_ip; joiner_ip = joiner_ip }))
    unfolding arrive is_admitted meet verify_ip register_token
    host_waits_lem = ground (
      arith,
      fresh,
      beq_refl host_ip,
      eq_iff token token,
      get-insert token token (record { host_ip = host_ip; joiner_ip = joiner_ip }) s.token_bindings,
      get-insert token token (record { tx = host_tx; role = "host"; created_at = t1 }) s.waiting,
    )

    joiner_verified :
        verify_ip (record { host_ip = host_ip; joiner_ip = joiner_ip }) "join" joiner_ip ≡ true
    unfolding verify_ip
    joiner_verified = beq_refl joiner_ip

    gone : get token (remove token host_waits.token_bindings) ≡ none
    gone = ground (arith, get-remove token token host_waits.token_bindings, eq_iff token token)

    -- The host of a registered token waits; the joiner then meets the host; and after that the
    -- token admits nobody, whatever the role and the address.
    pub arrive-arrive :
        (role : String) (ip : IpAddr) (tx : Sender) (t3 : Instant)
        → ((arrive token "host" host_ip host_tx t1 registered).1 ≡ waits)
          × (paired.1 ≡ pairs (record { tx = host_tx; role = "host"; created_at = t1 }))
          × (arrive token role ip tx t3 paired.0 ≡ (paired.0, closes))
    arrive-arrive role ip tx t3 =
        let (waiting, at_token, bound) = host_waits_lem in
        let meeting =
          meets token "join" joiner_ip joiner_tx t2 host_waits _ _ at_token bound joiner_verified in
        (
          waiting,
          ap (λ o. o.1) meeting,
          unbound token role ip tx t3 paired.0
              (ap (λ o. get token o.0.token_bindings) meeting ∙ gone),
        )
