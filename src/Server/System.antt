-- ===== src/Server/System.antt =====
-- The server as a whole, run serially: the connections that are open, and what may happen next. A
-- handler (crates/server/src/ws.rs), the opening of a connection and its end (`ws_handler` of
-- crates/server/src/main.rs) and a tick of the cleanup task are each one step: nothing else comes
-- between the sections in which they hold a lock. Server/Ws/Tasks has the same handlers with the sections
-- of others between theirs, and Server/Ws/Tasks/Alone says that the two agree where none comes.
pub mod Safety
pub mod Connecting
pub mod Reachable
use war3_battle_tool.Prelude.{
  ℕ, ◌≡◌, String, Bool, true, false, none, some, [], string_eq, nat_eq, drop, if◌then◌else◌,
}
use war3_battle_tool.HashMap.{HashMap, empty, get, insert, remove, modify}
use war3_battle_tool.Protocol.AddrSafety.{IpAddr}
use war3_battle_tool.Server.Channel.{Sender, Channel}
use war3_battle_tool.Server.State as State
use war3_battle_tool.Server.State.{try_acquire_connection, release_connection}
use war3_battle_tool.Server.State.Consistent.Hosting.{IsFreshRoom}
use war3_battle_tool.Server.Time.{Instant}
use war3_battle_tool.Server.Tunnel as Tunnel
use war3_battle_tool.Server.Ws.{Env, Session, new_session, Server}
use war3_battle_tool.Server.Ws.Loop.{on_text, on_end, on_cleanup_tick}

-- The sessions stand under the player ids that they drew.
pub record System : Type 0 where
  pub server : Server
  pub sessions : HashMap String Session

abbrev pub initial : System
initial = record {
  server = record { app = State.new; tunnel = Tunnel.new; channels = empty };
  sessions = empty;
}

-- `ws_handler`, up to the upgrade: a slot of the address, or 429.
unfoldable pub accept : String → Sender → IpAddr → Instant → System → System × Bool
unfolding try_acquire_connection
accept player_id tx ip now y =
    let (app, accepted) = try_acquire_connection ip y.server.app in
    if accepted
    then (
      record {
        server = record y.server {
          app = app;
          channels = insert tx (record { queue = []; closed = false }) y.server.channels;
        };
        sessions = insert player_id (new_session player_id tx ip now) y.sessions;
      },
      true,
    )
    else (record y { server = record y.server { app = app } }, false)

-- A text frame of a connection, handled to its end before anything else happens.
unfoldable pub receive : Env → Instant → String → String → String → Session → System → System
unfolding on_text
receive env now fresh text player_id s y =
    let (s', server) = on_text env now fresh text s y.server in
    record { server = server; sessions = insert player_id s' y.sessions }

-- The connection ends, and `ws_handler` releases its slot.
unfoldable pub finish : Instant → String → Session → System → System
unfolding on_end release_connection
finish now player_id s y =
    let server = on_end now s y.server in
    record {
      server = record server { app = release_connection s.client_ip server.app };
      sessions = remove player_id y.sessions;
    }

-- The send task takes the oldest message of a channel, and ends where the socket fails.
abbrev pub take_message : Channel → Channel
take_message c = record c { queue = drop 1 c.queue }

abbrev pub close : Channel → Channel
close c = record c { closed = true }

unfoldable pub change_channel : Sender → (Channel → Channel) → System → System
change_channel tx f y = record y {
  server = record y.server { channels = modify tx f y.server.channels };
}

-- What may happen. The identifiers that a connection and a handler draw are new.
pub data Step (env : Env) : System → System → Type 0 where
  accepts :
      {y : System} (player_id : String) (tx : Sender) (ip : IpAddr) (now : Instant)
      → get player_id y.sessions ≡ none
      → get player_id y.server.app.players ≡ none
      → get tx y.server.channels ≡ none
      → Step env y (accept player_id tx ip now y).0
  receives :
      {y : System} (now : Instant) (fresh text player_id : String) (s : Session)
      → get player_id y.sessions ≡ some s
      → IsFreshRoom fresh y.server.app
      → Step env y (receive env now fresh text player_id s y)
  finishes :
      {y : System} (now : Instant) (player_id : String) (s : Session)
      → get player_id y.sessions ≡ some s
      → Step env y (finish now player_id s y)
  cleans :
      {y : System} (now : Instant) → Step env y (record y { server = on_cleanup_tick now y.server })
  takes : {y : System} (tx : Sender) → Step env y (change_channel tx take_message y)
  closes : {y : System} (tx : Sender) → Step env y (change_channel tx close y)

-- The states that the server can come to serially.
pub data Reach (env : Env) : System → Type 0 where
  starts : Reach env initial
  steps : {y z : System} → Reach env y → Step env y z → Reach env z
