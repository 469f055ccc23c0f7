-- ===== src/Game.antt =====
-- A game over the relay: the bridge of one client (crates/client/src/net/tunnel.rs), the two relay
-- loops of the server (crates/server/src/tunnel.rs) and the bridge of the other client.
pub mod Tests
use war3_battle_tool.Prelude.{ℕ, List, [], ◌∷◌, ◌++◌, ◌≡◌, ap, sym, ◌∙◌, ◌⊎◌, true, refl}
use mathlib.Core.List.{append_assoc}
use war3_battle_tool.Client.Bridge.{Bytes}
use war3_battle_tool.Client.Bridge.Heard.{Event, Observed, start, run, IsPrefix}
use war3_battle_tool.Client.Bridge.Pipe.{LeftEarly, IsPrefix-trans, bridges_deliver}
use war3_battle_tool.Server.Time.{Instant}
use war3_battle_tool.Server.Tunnel.Relay.{Message, binary}
use war3_battle_tool.Server.Tunnel.Joined as Joined
use war3_battle_tool.Server.Tunnel.Joined.{Side, other, Joined, Act, joined, all_fit}
use war3_battle_tool.Server.Tunnel.Joined.Flow.{data_of}
use war3_battle_tool.Server.Tunnel.Joined.Complete.{joined-IsPrefix}

-- The bytes of the game in one frame, and in frames.
abbrev pub payload : Message → Bytes
payload (binary bytes) = bytes
payload _ = []

abbrev pub bytes_of : List Message → Bytes
bytes_of [] = []
bytes_of (m ∷ ms) = payload m ++ bytes_of ms

bytes_of-append : (xs ys : List Message) → bytes_of (xs ++ ys) ≡ bytes_of xs ++ bytes_of ys
bytes_of-append [] ys = refl
bytes_of-append (m ∷ xs) ys =
    ap (λ t. payload m ++ t) (bytes_of-append xs ys)
    ∙ sym (append_assoc (payload m) (bytes_of xs) (bytes_of ys))

-- The sockets and the QUIC stream between the two clients deliver in order: the server hears a prefix
-- of what the sender's bridge wrote, the receiver's bridge a prefix of what its socket was sent, and
-- of the stream a prefix.
pub record Carried (a b : Observed) (t : Joined) (s : Side) : Type 0 where
  pub up : IsPrefix (bytes_of (t.heard (other s))) a.bridge.ws_sent
  pub down : IsPrefix b.from_relay (bytes_of (data_of (t.relay s).sent))
  pub streamed : IsPrefix b.from_stream a.bridge.quic_sent

-- Where the frames of a game keep within the limits of the server, and sockets and stream deliver in
-- order: after any runs of the two bridges and of the two relay loops, with or without the swap to QUIC,
-- what the receiver's game was given is a prefix of what the sender's game sent, so no byte is lost from
-- the middle, repeated or reordered. The one exception is a receiver that has left the drain of the swap
-- before it had all that the sender wrote to the relay, and has bytes of the stream: its game is
-- given what it has of the relay and then of the stream, in order, without what is missing between.
pub games_joined :
    (latency_a latency_b : ℕ) (es_a es_b : List Event) (opened : Instant) (acts : List Act)
    (s : Side)
    → all_fit acts (joined opened) ≡ true
    → Carried
        (run es_a (start latency_a))
        (run es_b (start latency_b))
        (Joined.run acts (joined opened))
        s
    → IsPrefix
        (run es_b (start latency_b)).bridge.tcp_written
        (run es_a (start latency_a)).from_game
      ⊎ LeftEarly (run es_a (start latency_a)) (run es_b (start latency_b))
games_joined latency_a latency_b es_a es_b opened acts s fit c =
    let (rest, whole) = joined-IsPrefix opened acts s fit in
    bridges_deliver latency_a latency_b es_a es_b (record {
      relayed = IsPrefix-trans c.down (
          IsPrefix-trans
            (record {
              rest = bytes_of rest;
              whole_eq =
                  sym (
                    bytes_of-append (data_of ((Joined.run acts (joined opened)).relay s).sent) rest)
                  ∙ ap bytes_of whole;
            })
            c.up);
      streamed = c.streamed;
    })
