-- ===== src/Client/Bridge/Pipe.antt =====
-- Two bridges of `bridge_tcp_ws_with_swap` (crates/client/src/net/tunnel.rs), the host's and the
-- joiner's, with the relay and the QUIC stream between them.
use native.Mathlib.Decide.{ℕ_discrete}
use mathlib.Core.List.{append_assoc, append-nil, List-discrete}
use war3_battle_tool.Prelude.{ℕ, List, [], ◌++◌, ◌≡◌, ap, sym, ◌∙◌, ◌⊎◌, ◌≢◌, inl, inr}
use war3_battle_tool.Client.Bridge.{Bytes, Phase, relaying, draining, direct, ended}
use war3_battle_tool.Client.Bridge.Heard.{
  Event, Observed, start, run, IsPrefix, InOrder, InOrderIn, eq-IsPrefix, IsPrefix-append,
  relaying_ended, draining_ended, direct_ended,
}
use war3_battle_tool.Client.Bridge.Order.{swap_keeps_order}

-- A loop that writes only relayed bytes to the game.
abbrev pub OnRelay : Phase → Type 0
OnRelay relaying = Unit {0}
OnRelay draining = Unit {0}
OnRelay _ = ⊥

-- What the relay and the stream deliver of what one bridge sends to the other: each a prefix.
pub record Link (a b : Observed) : Type 0 where
  pub relayed : IsPrefix b.from_relay a.bridge.ws_sent
  pub streamed : IsPrefix b.from_stream a.bridge.quic_sent

-- The receiver has left the relay with bytes of the stream, but without all that came over the relay.
-- Its game is given what it has of the one and then of the other.
pub record LeftEarly (a b : Observed) : Type 0 where
  pub off_relay : ¬ OnRelay b.phase
  pub has_stream : b.from_stream ≢ []
  pub misses : b.from_relay ≢ a.bridge.ws_sent
  pub given : IsPrefix b.bridge.tcp_written (b.from_relay ++ b.from_stream)

pub IsPrefix-trans : {xs ys zs : Bytes} → IsPrefix xs ys → IsPrefix ys zs → IsPrefix xs zs
IsPrefix-trans {xs} p q = record {
  rest = p.rest ++ q.rest;
  whole_eq = sym (append_assoc xs p.rest q.rest) ∙ ap (λ t. t ++ q.rest) p.whole_eq ∙ q.whole_eq;
}

append-IsPrefix : (xs : Bytes) {ys zs : Bytes} → IsPrefix ys zs → IsPrefix (xs ++ ys) (xs ++ zs)
append-IsPrefix xs {ys} p = record {
  rest = p.rest;
  whole_eq = append_assoc xs ys p.rest ∙ ap (λ t. xs ++ t) p.whole_eq;
}

module _ (o : Observed) where
  -- In every phase the bridge keeps what one that has returned keeps.
  pub in_order_ended :
      (p : Phase)
      → InOrderIn p o.bridge o.from_game o.from_relay o.from_stream
      → InOrderIn ended o.bridge o.from_game o.from_relay o.from_stream
  in_order_ended relaying h = relaying_ended o.bridge o.from_game o.from_relay o.from_stream h
  in_order_ended draining h = draining_ended o.bridge o.from_game o.from_relay o.from_stream h
  in_order_ended direct h = direct_ended o.bridge o.from_game o.from_relay o.from_stream h
  in_order_ended ended h = h

  OnRelay-written :
      (p : Phase)
      → OnRelay p
      → InOrderIn p o.bridge o.from_game o.from_relay o.from_stream
      → o.bridge.tcp_written ≡ o.from_relay
  OnRelay-written relaying r h = h.0
  OnRelay-written draining r h = h.0
  OnRelay-written direct r h = absurd r
  OnRelay-written ended r h = absurd r

on_relay? : (p : Phase) → Dec (OnRelay p)
on_relay? relaying = yes tt
on_relay? draining = yes tt
on_relay? direct = no (λ h. h)
on_relay? ended = no (λ h. h)

bytes_discrete : Discrete Bytes
bytes_discrete = List-discrete ℕ_discrete

module _ (a b : Observed) (link : Link a b) (ha : InOrder a) (hb : InOrder b) where
  relayed_of_game : IsPrefix b.from_relay a.from_game
  relayed_of_game =
      IsPrefix-trans (IsPrefix-append link.relayed a.bridge.quic_sent)
        (in_order_ended a a.phase ha).1

  abbrev Delivered : Type 0
  Delivered = IsPrefix b.bridge.tcp_written a.from_game

  delivered_relay : b.from_stream ≡ [] → Delivered
  delivered_relay e = IsPrefix-trans (in_order_ended b b.phase hb).0 (
      IsPrefix-trans (eq-IsPrefix (ap (λ t. b.from_relay ++ t) e ∙ append-nil b.from_relay))
        relayed_of_game)

  delivered_all : b.from_relay ≡ a.bridge.ws_sent → Delivered
  delivered_all e = IsPrefix-trans (in_order_ended b b.phase hb).0 (
      IsPrefix-trans (eq-IsPrefix (ap (λ t. t ++ b.from_stream) e)) (
        IsPrefix-trans (append-IsPrefix a.bridge.ws_sent link.streamed)
          (in_order_ended a a.phase ha).1))

  off_relay-deliver : ¬ OnRelay b.phase → Delivered ⊎ LeftEarly a b
  off_relay-deliver off = elim (bytes_discrete b.from_stream []) [
    | yes nothing ↦ inl (delivered_relay nothing)
    | no streamed ↦ elim (bytes_discrete b.from_relay a.bridge.ws_sent) [
      | yes all ↦ inl (delivered_all all)
      | no missing ↦ inr (record {
        off_relay = off;
        has_stream = streamed;
        misses = missing;
        given = (in_order_ended b b.phase hb).0;
      })
    ]
  ]

  link-deliver : Delivered ⊎ LeftEarly a b
  link-deliver = elim (on_relay? b.phase) [
    | yes on ↦ inl (IsPrefix-trans (eq-IsPrefix (OnRelay-written b b.phase on hb)) relayed_of_game)
    | no off ↦ off_relay-deliver off
  ]

-- Two bridges after any runs of their own: if the relay and the stream deliver in order, then what the
-- receiver's game was given is a prefix of what the other game sent, whichever of the two has
-- swapped, is draining or has returned, or the receiver has left its drain early.
pub bridges_deliver :
    (latency_a latency_b : ℕ) (es_a es_b : List Event)
    → Link (run es_a (start latency_a)) (run es_b (start latency_b))
    → IsPrefix
        (run es_b (start latency_b)).bridge.tcp_written
        (run es_a (start latency_a)).from_game
      ⊎ LeftEarly (run es_a (start latency_a)) (run es_b (start latency_b))
bridges_deliver latency_a latency_b es_a es_b link =
    link-deliver (run es_a (start latency_a)) (run es_b (start latency_b)) link
      (swap_keeps_order latency_a es_a) (swap_keeps_order latency_b es_b)
