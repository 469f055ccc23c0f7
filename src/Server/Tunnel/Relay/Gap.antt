-- ===== src/Server/Tunnel/Relay/Gap.antt =====
-- What the limit of `relay` in crates/server/src/tunnel.rs does to the bytes of a game.
use war3_battle_tool.Prelude.{
  ℕ, ◌+◌, ◌≤◌, ◌<◌, ◌≡◌, false, List, [], ◌∷◌, ◌++◌, length, arith, ap, ◌∙◌,
}
use war3_battle_tool.Server.Time.{Instant}
use war3_battle_tool.Server.Tunnel.Relay.{
  Relay, binary, frame, from_socket, to_peer, reset_window, on_binary, iterate, relay,
}

-- A frame that the limit of its second refuses.
over_limit :
    (now : Instant) (d : List ℕ) (r : Relay)
    → now < r.rate_window_start + 1000000000
    → 51200 < r.bytes_this_second + length d
    → let r' = on_binary now d r in
      (r'.peer_queue ≡ r.peer_queue)
      × (r'.peer_gone ≡ r.peer_gone)
      × (r'.rate_window_start ≡ r.rate_window_start)
unfolding on_binary reset_window to_peer
over_limit now d r early over = ground arith

-- A frame of a new second, to a peer with room.
next_second :
    (now : Instant) (d : List ℕ) (r : Relay)
    → r.rate_window_start + 1000000000 ≤ now
    → length d ≤ 51200
    → r.peer_gone ≡ false
    → length r.peer_queue < 64
    → (on_binary now d r).peer_queue ≡ r.peer_queue ++ binary d ∷ []
unfolding on_binary reset_window to_peer
next_second now d r late small here room = ground arith

-- The bytes of the game are one stream, but the limit drops a frame from its middle: where a frame goes
-- over the limit of its second, and the next one comes after that second, to a peer that is there and
-- has room, the peer is sent the second frame without the first.
pub dropped_frame-gap :
    (now now' : Instant) (d d' : List ℕ) (r : Relay)
    → now < r.rate_window_start + 1000000000
    → 51200 < r.bytes_this_second + length d
    → r.rate_window_start + 1000000000 ≤ now'
    → length d' ≤ 51200
    → r.peer_gone ≡ false
    → length r.peer_queue < 64
    → (relay
        ((now, from_socket (frame (binary d))) ∷ (now', from_socket (frame (binary d'))) ∷ [])
        r).peer_queue
      ≡ r.peer_queue ++ binary d' ∷ []
unfolding relay iterate
dropped_frame-gap now now' d d' r early over late small here room =
    let (queue, gone, window) = over_limit now d r early over in
    let r' : Relay = on_binary now d r in
    next_second now' d' r' (omega (arith, window)) small (gone ∙ here)
      (omega (arith, ap length queue))
    ∙ ap (λ q. q ++ binary d' ∷ []) queue
