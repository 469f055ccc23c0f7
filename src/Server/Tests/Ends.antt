-- ===== src/Server/Tests/Ends.antt =====
-- Ends of a tunnel that come, meet and leave, and the two loops between them.
use war3_battle_tool.Prelude.{ℕ, String, ◌≡◌, inr, refl, some, string_eq, nat_eq, arith}
use war3_battle_tool.HashMap.{get, insert, remove}
use war3_battle_tool.Protocol.AddrSafety.{IpAddr, v4, ip_beq}
use war3_battle_tool.Server.Tunnel.{verify_ip, register_token}
use war3_battle_tool.Server.Tunnel.Ends.{
  listens, first, over, Ends, Steps, stays, goes, initial, set, admit, look, unbind, notify, enlist,
  admits, looks, unbinds, notifies, enlists, wakes, leaves, registers, late, expires,
}
use war3_battle_tool.Server.Tunnel.Ends.Private.{tunnel-IsPrivate}
use war3_battle_tool.Server.Tunnel.Ends.Leaving.{IsClosed, leave_heard_by_first}
use war3_battle_tool.Server.Tunnel.Ends.Together.{crossed, together-lost}
use war3_battle_tool.Server.Tunnel.Ends.Unmet.{IsUnmet}

abbrev home : IpAddr
home = v4 93 184 216 34

abbrev away : IpAddr
away = v4 93 184 216 35

-- The token of a join is registered.
abbrev bound : Ends
bound = record initial { tunnel = register_token "t" home away "p1" 0 initial.tunnel }

binding : Steps initial bound
binding = goes stays (registers "t" home away "p1" 0)

-- The host, end 1, has come and waits.
abbrev hosted : Ends
hosted = enlist 1 1 (look 1 (admit 1 "t" "host" home bound))

hosting : Steps initial hosted
unfolding admit look enlist register_token get insert remove verify_ip ip_beq
hosting =
    goes (goes (goes binding (admits 1 "t" "host" home refl)) (looks 1 refl)) (enlists 1 1 refl)

-- The joiner, end 2, meets it, and both relay.
abbrev met : Ends
met = set 1 (first 2) (notify 2 1 (unbind 2 1 (look 2 (admit 2 "t" "join" away hosted))))

meeting : Steps initial met
unfolding admit look enlist register_token get insert remove verify_ip ip_beq unbind notify
meeting =
    goes
      (goes
        (goes (goes (goes hosting (admits 2 "t" "join" away refl)) (looks 2 refl))
          (unbinds 2 1 refl))
        (notifies 2 1 refl))
      (wakes 1 2 refl)

tunnel-IsPrivate_example : ◌≡◌ {A = ℕ} 1 1 × ◌≡◌ {A = String} "t" "t"
unfolding admit look enlist register_token get insert remove verify_ip ip_beq unbind notify
tunnel-IsPrivate_example = tunnel-IsPrivate meeting 1 1 2 refl (inr refl)

-- The joiner leaves.
leave_heard_by_first_example : IsClosed 1 (set 2 over met)
unfolding admit look enlist register_token get insert remove verify_ip ip_beq unbind notify
leave_heard_by_first_example =
    leave_heard_by_first (goes meeting (leaves 2 1 (inr refl))) 2 1 refl refl

-- Both come at the same time, and the joiner leaves without being joined.
abbrev together : Ends
together = crossed 1 2 "t" home away 3 4 bound

together-lost_example :
    Steps bound together
    × ((together.end 1).stage ≡ listens)
    × ((together.end 2).stage ≡ listens)
    × (get "t" together.tunnel.waiting ≡ some (record { tx = 2; role = "join"; created_at = 4 }))
    × IsUnmet 1 (set 2 late together)
unfolding get register_token insert remove verify_ip ip_beq enlist
together-lost_example =
    together-lost bound 1 2 "t" (record { host_ip = home; joiner_ip = away }) home away 3 4 binding
      (omega arith) refl refl refl refl refl refl (set 2 late together)
      (goes stays (expires 2 refl))
