-- ===== src/Server/State/Connections.antt =====
-- The connections counted for each address: `acquire` and `release` of state.rs and tunnel.rs.
use mathlib.Core.Option
use war3_battle_tool.Prelude.{
  ℕ, ◌+◌, ◌-◌, ◌≡◌, ◌∙◌, true, arith, ◌==◌, nat_eq, if◌then◌else◌, bit, ltb, ap, ◌<◌, ◌↔◌, ◌&&◌,
  Option-cases, inl, inr,
}
use war3_battle_tool.HashMap.{HashMap, get}
use war3_battle_tool.HashMap.Laws.{get-insert, get-remove, get-modify}
use war3_battle_tool.Protocol.AddrSafety.{IpAddr, ip_eq}
use war3_battle_tool.Server.State.{acquire, release}

-- The connections of an address; no entry is none of them.
abbrev pub held : IpAddr → HashMap IpAddr ℕ → ℕ
held ip conns = Option.get_or (get ip conns) 0

module _ (ip : IpAddr) (conns : HashMap IpAddr ℕ) where
  pub held-acquire :
      (limit : ℕ) (j : IpAddr)
      → held j (acquire limit ip conns).0
        ≡ held j conns + bit ((acquire limit ip conns).1 && (ip == j))
  unfolding acquire
  held-acquire limit j = ground (
    arith,
    get-insert ip j (held ip conns) conns,
    get-insert ip j (held ip conns + 1) conns,
    ip_eq.beq_iff ip j,
  )

  -- A connection is accepted exactly where the address is below the limit.
  pub acquire_iff : (limit : ℕ) → ((acquire limit ip conns).1 ≡ true) ↔ (held ip conns < limit)
  unfolding acquire
  acquire_iff limit = ground arith

  pub held-release : (j : IpAddr) → held j (release ip conns) ≡ held j conns - bit (ip == j)
  unfolding release
  held-release j = elim (Option-cases (get ip conns)) [
    | inl missing ↦ ground (arith, ip_eq.beq_iff ip j)
    | inr (n, found) ↦
        ground
          (arith, get-remove ip j conns, get-modify ip j (λ m. m - 1) conns, ip_eq.beq_iff ip j)
  ]

-- `try_acquire` and `release` of an address, whatever the limit: a connection is accepted exactly
-- where the address has fewer than the limit; it adds one to that address and to no other; and its
-- release, after it was accepted, leaves every address with what it had.
held-release-acquire :
    (limit : ℕ) (ip j : IpAddr) (conns : HashMap IpAddr ℕ)
    → ((acquire limit ip conns).1 ≡ ltb (held ip conns) limit)
      × (held j (acquire limit ip conns).0
          ≡ held j conns + bit (ltb (held ip conns) limit && (ip == j)))
      × (held j (
            if (acquire limit ip conns).1
            then release ip (acquire limit ip conns).0
            else (acquire limit ip conns).0)
          ≡ held j conns)
held-release-acquire limit ip j conns =
    let accepts : (acquire limit ip conns).1 ≡ ltb (held ip conns) limit =
      ground (arith, acquire_iff ip conns limit) in
    let after = held-acquire ip conns limit j in
    (
      accepts,
      after ∙ ap (λ b. held j conns + bit (b && (ip == j))) accepts,
      ground (arith, held-release ip (acquire limit ip conns).0 j, after),
    )
