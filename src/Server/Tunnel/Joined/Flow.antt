-- ===== src/Server/Tunnel/Joined/Flow.antt =====
-- What one iteration of a `relay` loop (crates/server/src/tunnel.rs) changes in a tunnel.
use mathlib.Core.List.Sublistᴰ
use mathlib.Core.List.{Sublistᴰ, append_assoc, append-nil}
use war3_battle_tool.Prelude.{
  ℕ, ◌≡◌, refl, sym, ap, ◌∙◌, subst, true, false, List, [], ◌∷◌, ◌++◌, arith, if◌then◌else◌,
}
use war3_battle_tool.Server.Time.{Instant}
use war3_battle_tool.Server.Tunnel.Relay.{
  Message, Event, Relay, text, binary, ping_frame, pong_frame, close_frame, frame, failed, ended,
  from_peer, peer_closed, from_socket, idle, peer_takes, peer_leaves, to_peer, reset_window,
  on_binary, iterate,
}
use war3_battle_tool.Server.Tunnel.Relay.Sequence.{same, heard_at, taken_at, step}
use war3_battle_tool.Server.Tunnel.Joined.{
  pop, Side, first_end, second_end, other, side_beq, Joined, turn,
}

abbrev pub as_data : Message → List Message
as_data (binary bytes) = binary bytes ∷ []
as_data _ = []

-- The binary frames among messages.
abbrev pub data_of : List Message → List Message
data_of [] = []
data_of (m ∷ ms) = as_data m ++ data_of ms

pub data_of-append : (xs ys : List Message) → data_of (xs ++ ys) ≡ data_of xs ++ data_of ys
data_of-append [] ys = refl
data_of-append (m ∷ xs) ys =
    ap (λ t. as_data m ++ t) (data_of-append xs ys)
    ∙ sym (append_assoc (as_data m) (data_of xs) (data_of ys))

module _ (t : Side) (now : Instant) (e : Event) (j : Joined) where
  abbrev pub after_turn : Relay
  after_turn = (iterate now e (j.relay t)).0

  pub turn-sent :
      (s : Side)
      → ((turn t now e j).relay s).sent
        ≡ (if side_beq t s then after_turn.sent else (j.relay s).sent)
  unfolding turn
  turn-sent s = ground arith

  pub turn-queue :
      (s : Side)
      → ((turn t now e j).relay s).peer_queue
        ≡ (if side_beq t s then after_turn.peer_queue else (j.relay s).peer_queue)
  unfolding turn
  turn-queue s = ground arith

  pub turn-heard : (s : Side) → (turn t now e j).heard s ≡ j.heard s
  unfolding turn
  turn-heard s = ground arith

-- The data that an event takes to the socket.
abbrev pub carried : Event → List Message
carried (from_peer m true) = as_data m
carried _ = []

data_of-other :
    (ms : List Message) (m : Message) → as_data m ≡ [] → data_of (ms ++ m ∷ []) ≡ data_of ms ++ []
data_of-other ms m other = data_of-append ms (m ∷ []) ∙ ap (λ t. data_of ms ++ (t ++ [])) other

on_binary-sent : (now : Instant) (d : List ℕ) (r : Relay) → (on_binary now d r).sent ≡ r.sent
unfolding on_binary reset_window to_peer
on_binary-sent now d r = ground arith

iterate-sent :
    (now : Instant) (e : Event) (r : Relay)
    → data_of (iterate now e r).0.sent ≡ data_of r.sent ++ carried e
unfolding iterate
iterate-sent now (from_socket (frame (binary d))) r =
    ap data_of (on_binary-sent now d r) ∙ sym (append-nil (data_of r.sent))
iterate-sent now (from_socket (frame (text t))) r = sym (append-nil (data_of r.sent))
iterate-sent now (from_socket (frame (ping_frame b))) r = data_of-other r.sent (pong_frame b) refl
iterate-sent now (from_socket (frame (pong_frame b))) r = sym (append-nil (data_of r.sent))
iterate-sent now (from_socket (frame close_frame)) r = sym (append-nil (data_of r.sent))
iterate-sent now (from_socket failed) r = sym (append-nil (data_of r.sent))
iterate-sent now (from_socket ended) r = sym (append-nil (data_of r.sent))
iterate-sent now (from_peer m true) r =
    data_of-append r.sent (m ∷ []) ∙ ap (λ t. data_of r.sent ++ t) (append-nil (as_data m))
iterate-sent now (from_peer m false) r = sym (append-nil (data_of r.sent))
iterate-sent now peer_closed r = data_of-other r.sent close_frame refl
iterate-sent now idle r = data_of-other r.sent close_frame refl
iterate-sent now peer_takes r = sym (append-nil (data_of r.sent))
iterate-sent now peer_leaves r = sym (append-nil (data_of r.sent))

-- What a tunnel has delivered to an end, and still holds for it.
abbrev pub flow : Side → Joined → List Message
flow s j = data_of (j.relay s).sent ++ (j.relay (other s)).peer_queue

pub side_refl : (s : Side) → side_beq s s ≡ true
side_refl first_end = refl
side_refl second_end = refl

pub side_other : (s : Side) → side_beq s (other s) ≡ false
side_other first_end = refl
side_other second_end = refl

pub other_side : (s : Side) → side_beq (other s) s ≡ false
other_side first_end = refl
other_side second_end = refl

pub other-other : (s : Side) → other (other s) ≡ s
other-other first_end = refl
other-other second_end = refl

module _ (t : Side) (now : Instant) (e : Event) (j : Joined) where
  own_raw : ((turn t now e j).relay t).sent ≡ (iterate now e (j.relay t)).0.sent
  own_raw = ground (arith, turn-sent t now e j t, side_refl t)

  pub own_sent : data_of ((turn t now e j).relay t).sent ≡ data_of (j.relay t).sent ++ carried e
  own_sent = ap data_of own_raw ∙ iterate-sent now e (j.relay t)

  pub own_queue : ((turn t now e j).relay (other t)).peer_queue ≡ (j.relay (other t)).peer_queue
  own_queue = ground (arith, turn-queue t now e j (other t), side_other t)

  pub other_sent : ((turn t now e j).relay (other t)).sent ≡ (j.relay (other t)).sent
  other_sent = ground (arith, turn-sent t now e j (other t), side_other t)

  pub other_queue :
      ((turn t now e j).relay (other (other t))).peer_queue
      ≡ (iterate now e (j.relay t)).0.peer_queue
  other_queue = ground (arith, turn-queue t now e j (other (other t)), other-other t, side_refl t)

  -- The end of the turn is sent what the event carries, and the other end's channel is as it was.
  pub own_flow :
      flow t (turn t now e j)
      ≡ data_of (j.relay t).sent ++ carried e ++ (j.relay (other t)).peer_queue
  own_flow =
      ap (λ x. x ++ ((turn t now e j).relay (other t)).peer_queue) own_sent
      ∙ ap (λ x. data_of (j.relay t).sent ++ carried e ++ x) own_queue

  -- The channel to the other end grows by what the event brings, or not.
  pub other_flow :
      taken_at e (j.relay t) ≡ []
      → Sublistᴰ (flow (other t) (turn t now e j)) (flow (other t) j ++ heard_at e)
  other_flow none =
      let back : (j.relay (other (other t))).peer_queue ≡ (j.relay t).peer_queue =
        ap (λ s. (j.relay s).peer_queue) (other-other t) in
      let queue =
        subst
          (λ x.
            Sublistᴰ (x ++ (iterate now e (j.relay t)).0.peer_queue)
              ((j.relay t).peer_queue ++ heard_at e))
          none (step now e (j.relay t)) in
      Sublistᴰ.trans
        (Sublistᴰ.append (same (ap data_of other_sent)) (
          Sublistᴰ.trans (same other_queue)
            (Sublistᴰ.trans queue (same (ap (λ x. x ++ heard_at e) (sym back))))))
        (same (
          sym (
            append_assoc (data_of (j.relay (other t)).sent) (j.relay (other (other t))).peer_queue
              (heard_at e))))

module _ (t : Side) (now : Instant) (j : Joined) where
  pub popped :
      (m : Message) (queue : List Message)
      → (j.relay (other t)).peer_queue ≡ m ∷ queue
      → ((pop t now j).relay (other t)).peer_queue ≡ queue
  unfolding pop iterate
  popped m queue q = ground (arith, side_refl (other t))

  pub popped_own : (pop t now j).relay t ≡ j.relay t
  unfolding pop
  popped_own = ground (arith, other_side t)

  pub popped-sent : ((pop t now j).relay (other t)).sent ≡ (j.relay (other t)).sent
  unfolding pop iterate
  popped-sent = ground (arith, side_refl (other t))

  pub popped-gone : (s : Side) → ((pop t now j).relay s).peer_gone ≡ (j.relay s).peer_gone
  unfolding pop iterate
  popped-gone s = ground arith
