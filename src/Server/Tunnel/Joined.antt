-- ===== src/Server/Tunnel/Joined.antt =====
-- The two runs of `relay` (crates/server/src/tunnel.rs) that make a tunnel: each end's task writes to
-- the other's channel and reads its own, and the iterations of the two follow each other in any order.
pub mod Flow
pub mod Sequence
pub mod Complete
use war3_battle_tool.Prelude.{
  ℕ, ◌+◌, Bool, true, false, List, [], ◌∷◌, ◌++◌, length, leb, ltb, not, ◌&&◌, ◌||◌, is_empty,
  if◌then◌else◌,
}
use war3_battle_tool.Server.Time.{Instant}
use war3_battle_tool.Server.Tunnel.Relay.{
  Message, Received, Event, Relay, binary, frame, from_peer, peer_closed, from_socket, idle,
  peer_takes, peer_leaves, new_relay, reset_window, iterate, rate_limit_bytes_per_sec,
  relay_channel_size,
}

-- The end that came first and the end that came second.
pub data Side : Type 0 where
  first_end : Side
  second_end : Side

abbrev pub other : Side → Side
other first_end = second_end
other second_end = first_end

abbrev pub side_beq : Side → Side → Bool
side_beq first_end first_end = true
side_beq second_end second_end = true
side_beq _ _ = false

abbrev pub update {ℓ} : {A : Type ℓ} → (Side → A) → Side → A → Side → A
update f s a t = if side_beq s t then a else f t

-- The channel to the other end is in an end's `Relay`; `heard` is what came over its socket, so far.
pub record Joined : Type 0 where
  pub relay : Side → Relay
  pub running : Side → Bool
  pub heard : Side → List Message

pub data Act : Type 0 where
  -- `ws_receiver.next()`
  hears : Side → Instant → Received → Act
  -- `rx.recv()` with a message, and whether the send to the socket succeeds
  takes : Side → Instant → Bool → Act
  -- `rx.recv()` without one
  ends : Side → Instant → Act
  -- the idle deadline
  idles : Side → Instant → Act

abbrev pub heard_of : Received → List Message
heard_of (frame (binary bytes)) = binary bytes ∷ []
heard_of _ = []

-- An iteration of one end, and where its loop ends, the leave of its receiver.
unfoldable pub turn : Side → Instant → Event → Joined → Joined
unfolding iterate
turn s now e j =
    let (r, goes_on) = iterate now e (j.relay s) in
    let after : Side → Relay = update j.relay s r in
    if goes_on then record j { relay = after } else record j {
      relay = update after (other s) (iterate now peer_leaves (after (other s))).0;
      running = update j.running s false;
    }

-- The oldest message of the channel leaves it for the task of the other end.
unfoldable pub pop : Side → Instant → Joined → Joined
unfolding iterate
pop s now j = record j {
  relay = update j.relay (other s) (iterate now peer_takes (j.relay (other s))).0;
}

-- The senders of the channel of an end are all dropped: the other end has left, and the end is the
-- first, since the second keeps a sender of its own channel.
abbrev pub is_closed : Side → Joined → Bool
is_closed s j = side_beq s first_end && not (j.running (other s))

unfoldable pub hear : Side → Instant → Received → Joined → Joined
unfolding turn
hear s now m j =
    turn s now (from_socket m) (record j { heard = update j.heard s (j.heard s ++ heard_of m) })

unfoldable pub take_next : Side → Instant → Bool → List Message → Joined → Joined
unfolding turn pop
take_next s now sent [] j = j
take_next s now sent (m ∷ queue) j = turn s now (from_peer m sent) (pop s now j)

unfoldable pub end_of_channel : Side → Instant → Joined → Joined
unfolding turn
end_of_channel s now j =
    if is_closed s j && is_empty (j.relay (other s)).peer_queue then turn s now peer_closed j else j

-- What an act does while the loop of its end runs.
unfoldable pub act : Act → Joined → Joined
unfolding hear take_next end_of_channel turn
act (hears s now m) j = if j.running s then hear s now m j else j
act (takes s now sent) j =
    if j.running s then take_next s now sent (j.relay (other s)).peer_queue j else j
act (ends s now) j = if j.running s then end_of_channel s now j else j
act (idles s now) j = if j.running s then turn s now idle j else j

unfoldable pub run : List Act → Joined → Joined
unfolding act
run [] j = j
run (a ∷ acts) j = run acts (act a j)

-- Both ends at the start of `relay`.
abbrev pub joined : Instant → Joined
joined now = record { relay = λ s. new_relay now [] false; running = λ s. true; heard = λ s. [] }

-- A binary frame keeps within the limit of its second and finds room, or its peer has left.
unfoldable pub fits : Act → Joined → Bool
unfolding reset_window
fits (hears s now (frame (binary bytes))) j =
    not (j.running (other s))
    || (leb ((reset_window now (j.relay s)).bytes_this_second + length bytes)
          rate_limit_bytes_per_sec
        && ltb (length (j.relay s).peer_queue) relay_channel_size)
fits _ j = true

unfoldable pub all_fit : List Act → Joined → Bool
unfolding fits act
all_fit [] j = true
all_fit (a ∷ acts) j = fits a j && all_fit acts (act a j)
