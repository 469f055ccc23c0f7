-- ===== src/Server/System/Connecting.antt =====
-- A connection is accepted or refused, and ends.
use war3_battle_tool.Prelude.{
  ℕ, ◌≡◌, refl, ap, String, Bool, true, false, none, some, string_eq, ◌==◌, arith, eq_iff, subst,
  Bool-cases, inl, inr, nat_eq,
}
use war3_battle_tool.HashMap.{HashMap, get, insert, remove, count}
use war3_battle_tool.HashMap.Laws.{get-insert, get-remove, count-insert, remove_absent}
use war3_battle_tool.HashMap.Unique.{insert-HasUniqueKeys, remove-HasUniqueKeys, count-split}
use war3_battle_tool.Protocol.AddrSafety.{IpAddr, ip_eq}
use war3_battle_tool.Server.Channel.{Sender}
use war3_battle_tool.Server.State.{acquire, try_acquire_connection, release_connection}
use war3_battle_tool.Server.State.Connections.{held, held-acquire, acquire_iff, held-release}
use war3_battle_tool.Server.System.{System, accept, finish}
use war3_battle_tool.Server.System.Safety.{IsSafe, is_from, set_connections-IsValid}
use war3_battle_tool.Server.Time.{Instant}
use war3_battle_tool.Server.Ws.{Session, new_session, Server}
use war3_battle_tool.Server.Ws.Keeps.Leaving.{Shrinks, on_end-Shrinks}
use war3_battle_tool.Server.Ws.Loop.{on_end}

module _ (y : System) (safe : IsSafe y) where
  -- A connection goes, and its slot with it.
  removed-IsSafe :
      (id : String) (s : Session) (w : Server)
      → get id y.sessions ≡ some s
      → Shrinks y.server.app w.app
      → IsSafe (record {
        server = record w { app = release_connection s.client_ip w.app };
        sessions = remove id y.sessions;
      })
  unfolding release_connection
  removed-IsSafe id s w found k = record {
    valid = set_connections-IsValid w.app _ k.valid;
    sessions_unique = remove-HasUniqueKeys id y.sessions safe.sessions_unique;
    session_keyed = λ j t h. safe.session_keyed j t (kept j t h);
    unregistered = λ j t h not_yet. k.absent j (safe.unregistered j t (kept j t h) not_yet);
    charged = λ ip. omega (
      arith,
      ap (held ip) k.same_connections,
      safe.charged ip,
      held-release s.client_ip w.app.connections_per_ip ip,
      count-split (is_from ip) id s y.sessions safe.sessions_unique found,
    );
    limited = λ ip. omega (
      arith,
      ap (held ip) k.same_connections,
      safe.limited ip,
      held-release s.client_ip w.app.connections_per_ip ip,
    );
  }
    where
      kept :
          (j : String) (t : Session)
          → get j (remove id y.sessions) ≡ some t
          → get j y.sessions ≡ some t
      kept j t h = ground (arith, get-remove id j y.sessions)

  pub finish-IsSafe :
      (now : Instant) (id : String) (s : Session)
      → get id y.sessions ≡ some s
      → IsSafe (finish now id s y)
  unfolding finish
  finish-IsSafe now id s found =
      removed-IsSafe id s (on_end now s y.server) found (on_end-Shrinks now s y.server safe.valid)

  module _ (id : String) (tx : Sender) (ip : IpAddr) (now : Instant)
      (new_session_id : get id y.sessions ≡ none)
      (new_player_id : get id y.server.app.players ≡ none) where
    abbrev table : HashMap IpAddr ℕ × Bool
    table = acquire 10 ip y.server.app.connections_per_ip

    abbrev session : Session
    session = new_session id tx ip now

    accepted-IsSafe :
        (w : Server)
        → table.1 ≡ true
        → w.app ≡ record y.server.app { connections_per_ip = table.0 }
        → IsSafe (record { server = w; sessions = insert id session y.sessions })
    accepted-IsSafe w accepted same = record {
      valid = rw (same) (set_connections-IsValid y.server.app table.0 safe.valid);
      sessions_unique = insert-HasUniqueKeys id session y.sessions safe.sessions_unique;
      session_keyed = λ j t h.
          ground (arith, get-insert id j session y.sessions, eq_iff id j, safe.session_keyed j t);
      unregistered = λ j t h not_yet. rw (same) (elim (Bool-cases (id == j)) [
        | inl me ↦ subst (λ i. get i y.server.app.players ≡ none) ((eq_iff id j).0 me) new_player_id
        | inr other ↦
            safe.unregistered j t (ground (arith, get-insert id j session y.sessions)) not_yet
      ]);
      charged = λ j. rw (same) (
          ground (
            arith,
            held-acquire ip y.server.app.connections_per_ip 10 j,
            safe.charged j,
            count-insert (is_from j) id session y.sessions,
            ap (count (is_from j)) (remove_absent id y.sessions new_session_id),
          ));
      limited = λ j. rw (same) (
          ground (
            arith,
            held-acquire ip y.server.app.connections_per_ip 10 j,
            acquire_iff ip y.server.app.connections_per_ip 10,
            ip_eq.beq_iff ip j,
            safe.limited j,
          ));
    }

    refused-IsSafe :
        table.1 ≡ false
        → IsSafe (record y {
          server = record y.server { app = record y.server.app { connections_per_ip = table.0 } };
        })
    refused-IsSafe refused = record {
      valid = set_connections-IsValid y.server.app table.0 safe.valid;
      sessions_unique = safe.sessions_unique;
      session_keyed = safe.session_keyed;
      unregistered = safe.unregistered;
      charged =
          λ j. ground (arith, held-acquire ip y.server.app.connections_per_ip 10 j, safe.charged j);
      limited =
          λ j. ground (arith, held-acquire ip y.server.app.connections_per_ip 10 j, safe.limited j);
    }

    pub accept-IsSafe : IsSafe (accept id tx ip now y).0
    unfolding accept try_acquire_connection
    accept-IsSafe = elim (Bool-cases table.1) [
      | inl accepted ↦ simp (accepted) (accepted-IsSafe _ accepted refl)
      | inr refused ↦ simp (refused) (refused-IsSafe refused)
    ]
