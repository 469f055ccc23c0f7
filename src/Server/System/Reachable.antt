-- ===== src/Server/System/Reachable.antt =====
-- Every state that the server comes to serially is safe.
use war3_battle_tool.Prelude.{
  ◌≡◌, refl, ◌∙◌, ap, String, false, none, some, string_eq, ◌==◌, arith, bit, eq_iff, subst,
  Bool-cases, inl, inr, nat_eq,
}
use war3_battle_tool.HashMap.{get, insert}
use war3_battle_tool.HashMap.Laws.{get-insert}
use war3_battle_tool.HashMap.Unique.{insert-HasUniqueKeys, count-insert_over}
use war3_battle_tool.Protocol.AddrSafety.{ip_eq}
use war3_battle_tool.Server.Channel.{Sender, Channel}
use war3_battle_tool.Server.State.Connections.{held}
use war3_battle_tool.Server.State.Consistent.Hosting.{IsFreshRoom}
use war3_battle_tool.Server.System.{
  System, receive, change_channel, Step, accepts, receives, finishes, cleans, takes, closes, Reach,
  starts, steps,
}
use war3_battle_tool.Server.System.Safety.{IsSafe, is_from, initial-IsSafe}
use war3_battle_tool.Server.System.Connecting.{accept-IsSafe, finish-IsSafe}
use war3_battle_tool.Server.Time.{Instant}
use war3_battle_tool.Server.Ws.{Env, Session, Server}
use war3_battle_tool.Server.Ws.Keeps.{Keeps}
use war3_battle_tool.Server.Ws.Keeps.Messages.{on_text-Keeps}
use war3_battle_tool.Server.Ws.Keeps.Leaving.{Shrinks, on_cleanup_tick-Shrinks}
use war3_battle_tool.Server.Ws.Loop.{on_text}

module _ (env : Env) (y : System) (safe : IsSafe y) where
  -- A step that leaves the sessions and can only take players away.
  shrunk-IsSafe : (w : Server) → Shrinks y.server.app w.app → IsSafe (record y { server = w })
  shrunk-IsSafe w k = record {
    valid = k.valid;
    sessions_unique = safe.sessions_unique;
    session_keyed = safe.session_keyed;
    unregistered = λ id s found h. k.absent id (safe.unregistered id s found h);
    charged = λ ip. ap (held ip) k.same_connections ∙ safe.charged ip;
    limited = λ ip. ground (arith, k.same_connections, safe.limited ip);
  }

  change_channel-IsSafe : (tx : Sender) (f : Channel → Channel) → IsSafe (change_channel tx f y)
  unfolding change_channel
  change_channel-IsSafe tx f =
      shrunk-IsSafe _ (record { valid = safe.valid; same_connections = refl; absent = λ j h. h })

  -- The session of a frame is replaced, and still comes from its address.
  replaced-IsSafe :
      (id : String) (s : Session) (out : Session × Server)
      → get id y.sessions ≡ some s
      → Keeps s y.server out
      → IsSafe (record { server = out.1; sessions = insert id out.0 y.sessions })
  replaced-IsSafe id s out found k = record {
    valid = k.valid;
    sessions_unique = insert-HasUniqueKeys id out.0 y.sessions safe.sessions_unique;
    session_keyed = λ j t h. ground (
      arith,
      get-insert id j out.0 y.sessions,
      eq_iff id j,
      k.same_id,
      keyed,
      safe.session_keyed j t,
    );
    unregistered = λ j t h not_yet. elim (k.absent j (absent_before j t h not_yet)) [
      | inl absent ↦ absent
      | inr (me, registered) ↦
          absurd (ground (arith, get-insert id j out.0 y.sessions, eq_iff id j, keyed))
    ];
    charged = λ ip. omega (
      arith,
      ap (held ip) k.same_connections,
      safe.charged ip,
      count-insert_over (is_from ip) id out.0 s y.sessions safe.sessions_unique found,
      ap (λ i. bit (i == ip)) k.same_ip,
    );
    limited = λ ip. omega (arith, ap (held ip) k.same_connections, safe.limited ip);
  }
    where
      keyed : s.player_id ≡ id
      keyed = safe.session_keyed id s found

      still : out.0.registered ≡ false → s.registered ≡ false
      still h = ground (arith, k.still_registered)

      absent_before :
          (j : String) (t : Session)
          → get j (insert id out.0 y.sessions) ≡ some t
          → t.registered ≡ false
          → get j y.server.app.players ≡ none
      absent_before j t h not_yet = elim (Bool-cases (id == j)) [
        | inl me ↦
            let same : id ≡ j = (eq_iff id j).0 me in
            let first : out.0.registered ≡ false =
              ground (arith, get-insert id j out.0 y.sessions) in
            subst (λ i. get i y.server.app.players ≡ none) same
              (safe.unregistered id s found (still first))
        | inr other ↦
            safe.unregistered j t (ground (arith, get-insert id j out.0 y.sessions)) not_yet
      ]

  receive-IsSafe :
      (now : Instant) (fresh text id : String) (s : Session)
      → get id y.sessions ≡ some s
      → IsFreshRoom fresh y.server.app
      → IsSafe (receive env now fresh text id s y)
  unfolding receive
  receive-IsSafe now fresh text id s found is_fresh =
      replaced-IsSafe id s (on_text env now fresh text s y.server) found (
        on_text-Keeps env now fresh y.server safe.valid text s (
          is_fresh,
          λ h.
              ap (λ i. get i y.server.app.players) (safe.session_keyed id s found)
              ∙ safe.unregistered id s found h,
        ))

Step-IsSafe : (env : Env) (y z : System) → IsSafe y → Step env y z → IsSafe z
Step-IsSafe env y _ safe (accepts id tx ip now a b c) = accept-IsSafe y safe id tx ip now a b
Step-IsSafe env y _ safe (receives now fresh text id s found is_fresh) =
    receive-IsSafe env y safe now fresh text id s found is_fresh
Step-IsSafe env y _ safe (finishes now id s found) = finish-IsSafe y safe now id s found
Step-IsSafe env y _ safe (cleans now) =
    shrunk-IsSafe env y safe _ (on_cleanup_tick-Shrinks now y.server safe.valid)
Step-IsSafe env y _ safe (takes tx) = change_channel-IsSafe env y safe tx _
Step-IsSafe env y _ safe (closes tx) = change_channel-IsSafe env y safe tx _

-- Where every handler, end of a connection and tick of the cleanup runs to its end before anything else
-- happens, in every state that the server comes to: every room counts its players, has no more than its
-- limit, and its host is a player who hosts it; there are at most 500 players and 200 rooms; each
-- connection is charged to its address; and no address has more than ten.
pub Reach-IsSafe : (env : Env) (y : System) → Reach env y → IsSafe y
Reach-IsSafe env y starts = initial-IsSafe
Reach-IsSafe env z (steps {y} r step) = Step-IsSafe env y z (Reach-IsSafe env y r) step
