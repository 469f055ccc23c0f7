-- ===== src/Server/Tunnel/Ends/Together.antt =====
-- Two ends of a token that come at the same time: `handle_tunnel` of crates/server/src/tunnel.rs takes
-- from the table of waiting ends under one lock and adds to it under another.
use war3_battle_tool.Prelude.{
  ◌≡◌, ◌≢◌, String, true, none, some, string_eq, nat_eq, arith, elim-some, eq_iff,
}
use war3_battle_tool.HashMap.{get}
use war3_battle_tool.HashMap.Laws.{get-insert}
use war3_battle_tool.Protocol.AddrSafety.{IpAddr}
use war3_battle_tool.Server.Channel.{Sender}
use war3_battle_tool.Server.Time.{Instant}
use war3_battle_tool.Server.Tunnel.{TokenBinding, verify_ip}
use war3_battle_tool.Server.Tunnel.Pairing.{is_admitted}
use war3_battle_tool.Server.Tunnel.Ends.{
  absent, admitted, missed, update, listens, target, Ends, Steps, stays, goes, initial, set, enlist,
  enlists,
}
use war3_battle_tool.Server.Tunnel.Ends.Private.{Steps-Inv}
use war3_battle_tool.Server.Tunnel.Ends.Unmet.{IsUnmet, steps-IsUnmet}
use war3_battle_tool.Server.Tunnel.Ends.Runs.{admitted_run, missed_run}

Steps-trans : {x y z : Ends} → Steps x y → Steps y z → Steps x z
Steps-trans path stays = path
Steps-trans path (goes after step) = goes (Steps-trans path after) step

-- Two ends that found nobody stand in the table one after the other.
abbrev enlisted : Sender → Sender → Instant → Instant → Ends → Ends
enlisted h j t t' s = enlist j t' (enlist h t s)

module _ (s : Ends) (h j : Sender) (t t' : Instant) (apart : h ≢ j) (token role : String)
    (at_host : (s.end h).token ≡ token) (at_join : (s.end j).token ≡ token)
    (as_join : (s.end j).role ≡ role) where
  enlisted-at :
      get token (enlisted h j t t' s).tunnel.waiting
      ≡ some (record { tx = j; role = role; created_at = t' })
  unfolding enlist
  enlisted-at = ground (
    arith,
    get-insert (s.end j).token token (record { tx = j; role = (s.end j).role; created_at = t' })
        (enlist h t s).tunnel.waiting,
    eq_iff token token,
  )

-- Both came and looked at the table before either stands in it.
abbrev both_missed : Sender → Sender → String → IpAddr → IpAddr → Ends → Ends
both_missed h j token ip ip' y = set j missed (
    set h missed (record y {
      end =
          update
            (update y.end h
              (record { token = token; role = "host"; client_ip = ip; stage = admitted }))
            j (record { token = token; role = "join"; client_ip = ip'; stage = admitted });
    }))

-- Then both stand in it, the host first.
abbrev pub crossed : Sender → Sender → String → IpAddr → IpAddr → Instant → Instant → Ends → Ends
crossed h j token ip ip' t t' y = enlisted h j t t' (both_missed h j token ip ip' y)

module _ (y : Ends) (h j : Sender) (token : String) (binding : TokenBinding) (ip ip' : IpAddr)
    (t t' : Instant) (path : Steps initial y) (apart : h ≢ j) (new : (y.end h).stage ≡ absent)
    (new' : (y.end j).stage ≡ absent) (nobody : get token y.tunnel.waiting ≡ none)
    (bound : get token y.tunnel.token_bindings ≡ some binding)
    (verified : verify_ip binding "host" ip ≡ true)
    (verified' : verify_ip binding "join" ip' ≡ true) where
  miss : Steps y (both_missed h j token ip ip' y)
  unfolding is_admitted
  miss =
      let go1 = admitted_run stays h token "host" ip new (elim-some _ _ _ bound verified) in
      let go2 =
        admitted_run go1 j token "join" ip' (ground arith) (elim-some _ _ _ bound verified') in
      missed_run (missed_run go2 h (ground arith) (ground arith)) j (ground arith) (ground arith)

  cross : Steps y (crossed h j token ip ip' t t' y)
  unfolding enlist
  cross = goes (goes miss (enlists h t (ground arith))) (enlists j t' (ground arith))

  crossed-at :
      get token (crossed h j token ip ip' t t' y).tunnel.waiting
      ≡ some (record { tx = j; role = "join"; created_at = t' })
  crossed-at =
      enlisted-at (both_missed h j token ip ip' y) h j t t' apart token "join" (ground arith)
        (ground arith) (ground arith)

  -- Nobody has the channel of an end that has not come yet.
  free : (a : Sender) → target (y.end a).stage ≢ some h
  free a k = ground (arith, (Steps-Inv path).known a h k)

  crossed-IsUnmet : IsUnmet h (crossed h j token ip ip' t t' y)
  unfolding enlist
  crossed-IsUnmet = record {
    alone = ground arith;
    unlisted =
        λ n w at k. ground (arith, (Steps-Inv (Steps-trans path cross)).token_eq n w, crossed-at);
    unreached = λ a k. ground (arith, free a);
  }

  -- The host and the joiner of a token come at the same time, and nobody waits: it may be that both
  -- look at the table before either stands in it. Then both wait, and only the joiner stands in the
  -- table. Whatever follows, the host is never joined to anyone: its task waits or is over, and no task
  -- has its channel.
  pub together-lost :
      (z : Ends)
      → Steps (crossed h j token ip ip' t t' y) z
      → Steps y (crossed h j token ip ip' t t' y)
        × (((crossed h j token ip ip' t t' y).end h).stage ≡ listens)
        × (((crossed h j token ip ip' t t' y).end j).stage ≡ listens)
        × (get token (crossed h j token ip ip' t t' y).tunnel.waiting
            ≡ some (record { tx = j; role = "join"; created_at = t' }))
        × IsUnmet h z
  unfolding enlist
  together-lost z after =
      (cross, ground arith, ground arith, crossed-at, steps-IsUnmet h after crossed-IsUnmet)
