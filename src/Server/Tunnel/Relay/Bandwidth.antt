-- ===== src/Server/Tunnel/Relay/Bandwidth.antt =====
-- How much the relay lets through.
use war3_battle_tool.Prelude.{
  ℕ, ◌+◌, ◌-◌, ◌≤◌, ◌<◌, ◌≡◌, refl, sym, subst, ◌⊎◌, Bool, true, false, List, [], ◌∷◌, All, arith,
  ◌++◌, length, drop, if◌then◌else◌, inl, inr,
}
use war3_battle_tool.Server.Time.{Instant}
use war3_battle_tool.Server.Tunnel.Relay.{
  Message, Relay, Event, text, binary, ping_frame, pong_frame, close_frame, frame, failed, ended,
  from_peer, peer_closed, from_socket, idle, peer_takes, peer_leaves, to_peer, reset_window,
  on_binary, iterate, relay,
}

abbrev pub IsWithin : Instant → Instant × Event → Type 0
IsWithin a x = (a ≤ x.0) × (x.0 < a + 1000000000)

-- What the window still lets through.
abbrev budget : Relay → ℕ
budget r = 51200 - r.bytes_this_second

-- The bytes of the game that wait for the peer.
abbrev pub weight : List Message → ℕ
weight [] = 0
weight (binary bytes ∷ ms) = length bytes + weight ms
weight (_ ∷ ms) = weight ms

-- What a step puts into the channel of the peer.
abbrev pub gain : Relay → Relay → ℕ
gain r r' = weight r'.peer_queue - weight r.peer_queue

-- What the loop hands to the peer, told by the peer's channel before and after each iteration.
unfoldable pub handed : List (Instant × Event) → Relay → ℕ
unfolding iterate
handed [] r = 0
handed ((now, e) ∷ events) r =
    let (r', goes_on) = iterate now e r in
    let rest = handed events r' in gain r r' + (if goes_on then rest else 0)

weight-append :
    (q : List Message) (bytes : List ℕ) → weight (q ++ binary bytes ∷ []) ≡ weight q + length bytes
weight-append [] bytes = omega arith
weight-append (text t ∷ q) bytes = weight-append q bytes
weight-append (binary b ∷ q) bytes = omega (arith, weight-append q bytes)
weight-append (ping_frame b ∷ q) bytes = weight-append q bytes
weight-append (pong_frame b ∷ q) bytes = weight-append q bytes
weight-append (close_frame ∷ q) bytes = weight-append q bytes

weight-drop : (q : List Message) → weight (drop 1 q) ≤ weight q
weight-drop [] = omega arith
weight-drop (text t ∷ q) = omega arith
weight-drop (binary b ∷ q) = omega arith
weight-drop (ping_frame b ∷ q) = omega arith
weight-drop (pong_frame b ∷ q) = omega arith
weight-drop (close_frame ∷ q) = omega arith

-- An iteration keeps the window and takes what it hands over from it, or begins a new one.
abbrev Spends : Instant → Relay → Relay → Type 0
Spends now r r' =
    ((r'.rate_window_start ≡ r.rate_window_start)
      × (r'.total_bytes + budget r' ≤ r.total_bytes + budget r)
      × (gain r r' + budget r' ≤ budget r))
    ⊎ ((r'.rate_window_start ≡ now)
        × (r.rate_window_start + 1000000000 ≤ now)
        × (r'.total_bytes + budget r' ≤ r.total_bytes + 51200)
        × (gain r r' + budget r' ≤ 51200))

on_binary-Spends :
    (now : Instant) (bytes : List ℕ) (r : Relay) → Spends now r (on_binary now bytes r)
unfolding on_binary reset_window to_peer
on_binary-Spends now bytes r = ground (arith, weight-append r.peer_queue bytes)

iterate-Spends : (now : Instant) (e : Event) (r : Relay) → Spends now r (iterate now e r).0
unfolding iterate
iterate-Spends now (from_peer m true) r = inl (refl, omega arith, omega arith)
iterate-Spends now (from_peer m false) r = inl (refl, omega arith, omega arith)
iterate-Spends now peer_closed r = inl (refl, omega arith, omega arith)
iterate-Spends now (from_socket (frame (binary bytes))) r = on_binary-Spends now bytes r
iterate-Spends now (from_socket (frame close_frame)) r = inl (refl, omega arith, omega arith)
iterate-Spends now (from_socket (frame (ping_frame bytes))) r = inl (refl, omega arith, omega arith)
iterate-Spends now (from_socket (frame (text t))) r = inl (refl, omega arith, omega arith)
iterate-Spends now (from_socket (frame (pong_frame b))) r = inl (refl, omega arith, omega arith)
iterate-Spends now (from_socket failed) r = inl (refl, omega arith, omega arith)
iterate-Spends now (from_socket ended) r = inl (refl, omega arith, omega arith)
iterate-Spends now idle r = inl (refl, omega arith, omega arith)
iterate-Spends now peer_takes r = inl (refl, omega arith, omega (arith, weight-drop r.peer_queue))
iterate-Spends now peer_leaves r = inl (refl, omega arith, omega arith)

-- Whether the loop goes on or not.
abbrev Within : ℕ → ℕ → Relay → ℕ → Type 0
Within handed_max total_max r n = (n ≤ handed_max) × (r.total_bytes ≤ total_max)

next-Within :
    (n t gained : ℕ) (go_on : Bool) (rest r : Relay) (rest_handed : ℕ)
    → Within n t rest (gained + rest_handed)
    → Within n t r gained
    → Within n t (if go_on then rest else r) (gained + (if go_on then rest_handed else 0))
next-Within n t gained true rest r rest_handed h k = h
next-Within n t gained false rest r rest_handed h k = (omega (arith, k.0), k.1)

-- All the events come before the window is a second old.
relay-window :
    (events : List (Instant × Event)) (r : Relay)
    → All (λ x. x.0 < r.rate_window_start + 1000000000) events
    → Within (budget r) (r.total_bytes + budget r) (relay events r) (handed events r)
unfolding relay handed
relay-window [] r h = (omega arith, omega arith)
relay-window ((now, e) ∷ events) r h = elim (iterate-Spends now e r) [
  | inr new ↦ absurd (omega (arith, new.1, h.0))
  | inl (same, total, gained) ↦
      let r' = (iterate now e r).0 in
      let within =
        subst (λ t. All (λ (x : Instant × Event). x.0 < t + 1000000000) events) (sym same) h.1 in
      let (rest, rest_total) = relay-window events r' within in
      next-Within _ _ _ (iterate now e r).1 _ r' _
        (omega (arith, rest, gained), omega (arith, rest_total, total))
        (omega (arith, gained), omega (arith, total))
]

from_window :
    (a t : Instant) (events : List (Instant × Event))
    → a ≤ t
    → All (IsWithin a) events
    → All (λ x. x.0 < t + 1000000000) events
from_window a t [] h k = tt
from_window a t (x ∷ events) h k = (omega (arith, k.0.1), from_window a t events h k.1)

-- Of what comes within one second, in whatever order and whatever else happens, the relay hands to
-- the channel of the peer, and counts as relayed, at most what its window still has and one window more,
-- of 50 KiB each.
pub relay-second :
    (a : Instant) (events : List (Instant × Event)) (r : Relay)
    → All (λ x. (a ≤ x.0) × (x.0 < a + 1000000000)) events
    → (handed events r ≤ (51200 - r.bytes_this_second) + 51200)
      × ((relay events r).total_bytes ≤ r.total_bytes + (51200 - r.bytes_this_second) + 51200)
unfolding relay handed
relay-second a [] r h = (omega arith, omega arith)
relay-second a ((now, e) ∷ events) r h =
    let r' = (iterate now e r).0 in
    elim (iterate-Spends now e r) [
      | inl (same, total, gained) ↦
          let (rest, rest_total) = relay-second a events r' h.1 in
          next-Within _ _ _ (iterate now e r).1 _ r' _
            (omega (arith, rest, gained), omega (arith, rest_total, total))
            (omega (arith, gained), omega (arith, total))
      | inr (starts, later, total, gained) ↦
          let within =
            from_window a r'.rate_window_start events (omega (arith, starts, h.0.0)) h.1 in
          let (rest, rest_total) = relay-window events r' within in
          next-Within _ _ _ (iterate now e r).1 _ r' _
            (omega (arith, rest, gained), omega (arith, rest_total, total))
            (omega (arith, gained), omega (arith, total))
    ]
