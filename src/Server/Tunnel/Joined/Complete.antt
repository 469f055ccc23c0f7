-- ===== src/Server/Tunnel/Joined/Complete.antt =====
-- What a tunnel delivers while its ends keep to the limits of `relay` (crates/server/src/tunnel.rs).
use mathlib.Core.List.{append_assoc, append-nil}
use war3_battle_tool.Prelude.{
  ℕ, ◌+◌, ◌≡◌, refl, sym, ap, ◌∙◌, Bool, true, false, not, ◌&&◌, List, [], ◌∷◌, ◌++◌, arith,
  if◌then◌else◌, is_empty, by_if, length, leb, ltb,
}
use war3_battle_tool.Server.Time.{Instant}
use war3_battle_tool.Server.Tunnel.Relay.{
  Message, Received, Event, Relay, text, binary, ping_frame, pong_frame, close_frame, frame, failed,
  ended, from_peer, peer_closed, from_socket, idle, to_peer, reset_window, on_binary, iterate,
}
use war3_battle_tool.Server.Tunnel.Joined.Flow.{
  as_data, data_of, data_of-append, carried, turn-heard, own_sent, own_queue, other_sent,
  other_queue, side_refl, side_other, popped, popped_own, popped-sent, popped-gone, other_side,
  other-other,
}
use war3_battle_tool.Server.Tunnel.Joined.Sequence.{by_side}
use war3_battle_tool.Server.Tunnel.Joined.{
  Side, other, side_beq, update, Joined, Act, hears, takes, ends, idles, heard_of, turn, pop,
  is_closed, hear, take_next, end_of_channel, act, run, joined, fits, all_fit,
}

-- What an end was sent, and what is still to come of all that the other end heard: where its loop
-- runs, what its channel holds.
pub record Delivered (s : Side) (j : Joined) : Type 0 where
  pub rest : List Message
  pub whole_eq : data_of (j.relay s).sent ++ rest ≡ j.heard (other s)
  pub held : j.running s ≡ true → rest ≡ data_of (j.relay (other s)).peer_queue

pub record Whole (j : Joined) : Type 0 where
  pub gone : (s : Side) → (j.relay s).peer_gone ≡ not (j.running (other s))
  pub delivered : (s : Side) → Delivered s j

module _ (t : Side) (now : Instant) (e : Event) (j : Joined) where
  abbrev goes_on : Bool
  goes_on = (iterate now e (j.relay t)).1

  turn-running :
      (s : Side)
      → (turn t now e j).running s
        ≡ (if goes_on then j.running s else if side_beq t s then false else j.running s)
  unfolding turn
  turn-running s = ground arith

  turn-gone :
      (s : Side)
      → ((turn t now e j).relay s).peer_gone ≡ (
          if goes_on
          then if side_beq t s
            then (iterate now e (j.relay t)).0.peer_gone
            else (j.relay s).peer_gone
          else if side_beq (other t) s
          then true
          else if side_beq t s
          then (iterate now e (j.relay t)).0.peer_gone
          else (j.relay s).peer_gone)
  unfolding turn iterate
  turn-gone s = ground arith

-- An iteration that the task of the end itself makes does not change whether its peer is there.
on_binary-gone :
    (now : Instant) (d : List ℕ) (r : Relay) → (on_binary now d r).peer_gone ≡ r.peer_gone
unfolding on_binary reset_window to_peer
on_binary-gone now d r = ground arith

socket-gone :
    (now : Instant) (m : Received) (r : Relay)
    → (iterate now (from_socket m) r).0.peer_gone ≡ r.peer_gone
unfolding iterate
socket-gone now (frame (binary d)) r = on_binary-gone now d r
socket-gone now (frame (text t)) r = refl
socket-gone now (frame (ping_frame b)) r = refl
socket-gone now (frame (pong_frame b)) r = refl
socket-gone now (frame close_frame) r = refl
socket-gone now failed r = refl
socket-gone now ended r = refl

-- A binary frame within the limits goes to a peer that is there.
on_binary-fits :
    (now : Instant) (d : List ℕ) (r : Relay)
    → r.peer_gone ≡ false
    → (leb ((reset_window now r).bytes_this_second + length d) 51200
        && ltb (length r.peer_queue) 64)
      ≡ true
    → (on_binary now d r).peer_queue ≡ r.peer_queue ++ binary d ∷ []
unfolding on_binary reset_window to_peer
on_binary-fits now d r here fit = ground arith

-- What the socket brings within the limits goes to the end of the channel.
hear-queue :
    (t : Side) (now : Instant) (m : Received) (j : Joined)
    → (j.relay t).peer_gone ≡ false
    → j.running (other t) ≡ true
    → fits (hears t now m) j ≡ true
    → data_of (iterate now (from_socket m) (j.relay t)).0.peer_queue
      ≡ data_of (j.relay t).peer_queue ++ heard_of m
unfolding iterate fits
hear-queue t now (frame (binary d)) j here on fit =
    ap data_of (on_binary-fits now d (j.relay t) here (ground arith))
    ∙ data_of-append (j.relay t).peer_queue (binary d ∷ [])
hear-queue t now (frame (text x)) j here on fit = sym (append-nil _)
hear-queue t now (frame (ping_frame b)) j here on fit = sym (append-nil _)
hear-queue t now (frame (pong_frame b)) j here on fit = sym (append-nil _)
hear-queue t now (frame close_frame) j here on fit = sym (append-nil _)
hear-queue t now failed j here on fit = sym (append-nil _)
hear-queue t now ended j here on fit = sym (append-nil _)

module _ (t : Side) (now : Instant) (e : Event) (j : Joined) where
  pub turn-Whole :
      (iterate now e (j.relay t)).0.peer_gone ≡ (j.relay t).peer_gone
      → ((s : Side) → (j.relay s).peer_gone ≡ not (j.running (other s)))
      → (rest : List Message) → (data_of (j.relay t).sent ++ carried e ++ rest ≡ j.heard (other t))
      → (goes_on t now e j ≡ true
          → j.running t ≡ true
          → rest ≡ data_of (j.relay (other t)).peer_queue)
      → (rest' : List Message)
      → (data_of (j.relay (other t)).sent ++ rest' ≡ j.heard (other (other t)))
      → (j.running (other t) ≡ true → rest' ≡ data_of (iterate now e (j.relay t)).0.peer_queue)
      → Whole (turn t now e j)
  turn-Whole same_gone gone rest whole held rest' whole' held' = record {
    gone =
        by_side
          (λ s. ((turn t now e j).relay s).peer_gone ≡ not ((turn t now e j).running (other s))) t
          (ground (
            arith,
            turn-gone t now e j t,
            turn-running t now e j (other t),
            side_refl t,
            side_other t,
            other_side t,
            gone t,
          ))
          (ground (
            arith,
            turn-gone t now e j (other t),
            turn-running t now e j (other (other t)),
            other-other t,
            side_refl t,
            side_refl (other t),
            side_other t,
            gone (other t),
          ));
    delivered =
        by_side (λ s. Delivered s (turn t now e j)) t
          (record {
            rest = rest;
            whole_eq =
                ap (λ x. x ++ rest) (own_sent t now e j)
                ∙ whole
                ∙ sym (turn-heard t now e j (other t));
            held = λ on.
                held (ground (arith, turn-running t now e j t, side_refl t))
                  (ground (arith, turn-running t now e j t, side_refl t))
                ∙ ap data_of (sym (own_queue t now e j));
          })
          (record {
            rest = rest';
            whole_eq =
                ap (λ x. data_of x ++ rest') (other_sent t now e j)
                ∙ whole'
                ∙ sym (turn-heard t now e j (other (other t)));
            held = λ on.
                held' (ground (arith, turn-running t now e j (other t), side_other t))
                ∙ ap data_of (sym (other_queue t now e j));
          });
  }

module _ (t : Side) (now : Instant) (j : Joined) (w : Whole j) where
  -- An event that neither brings nor takes data.
  quiet-Whole :
      (e : Event)
      → (iterate now e (j.relay t)).0.peer_gone ≡ (j.relay t).peer_gone
      → (iterate now e (j.relay t)).0.peer_queue ≡ (j.relay t).peer_queue
      → carried e ≡ []
      → Whole (turn t now e j)
  quiet-Whole e same_gone same_queue empty =
      let own = w.delivered t in
      let others = w.delivered (other t) in
      turn-Whole t now e j same_gone w.gone own.rest
        (ap (λ c. data_of (j.relay t).sent ++ c ++ own.rest) empty
          ∙ ap (λ x. x ++ own.rest) (append-nil _)
          ∙ own.whole_eq)
        (λ on running. own.held running) others.rest others.whole_eq
        (λ running.
          others.held running
          ∙ ap data_of (ap (λ s. (j.relay s).peer_queue) (other-other t) ∙ sym same_queue))

  abbrev with_heard : Received → Joined
  with_heard m = record j { heard = update j.heard t (j.heard t ++ heard_of m) }

  hear-Whole : (m : Received) → fits (hears t now m) j ≡ true → Whole (hear t now m j)
  unfolding hear
  hear-Whole m fit =
      let own = w.delivered t in
      let others = w.delivered (other t) in
      turn-Whole t now (from_socket m) (with_heard m) (socket-gone now m (j.relay t)) w.gone
        own.rest
        (ap (λ x. x ++ own.rest) (append-nil _) ∙ own.whole_eq ∙ ground (arith, side_other t))
        (λ on running. own.held running) (others.rest ++ heard_of m)
        (sym (append_assoc _ others.rest (heard_of m))
          ∙ ap (λ x. x ++ heard_of m) others.whole_eq
          ∙ ground (arith, other-other t, side_refl t))
        (λ running.
          ap (λ x. x ++ heard_of m) (others.held running)
          ∙ ap (λ s. data_of (j.relay s).peer_queue ++ heard_of m) (other-other t)
          ∙ sym (hear-queue t now m j (w.gone t ∙ ap not running) running fit))

  pop-gone : (s : Side) → ((pop t now j).relay s).peer_gone ≡ not ((pop t now j).running (other s))
  unfolding pop
  pop-gone s = popped-gone t now j s ∙ w.gone s

  take-Whole :
      (sent : Bool) (queue : List Message)
      → j.running t ≡ true
      → (j.relay (other t)).peer_queue ≡ queue
      → Whole (take_next t now sent queue j)
  unfolding take_next pop iterate
  take-Whole sent [] on q = w
  take-Whole true (m ∷ queue) on q =
      let own = w.delivered t in
      let others = w.delivered (other t) in
      turn-Whole t now (from_peer m true) (pop t now j) refl pop-gone (data_of queue)
        (ap (λ r. data_of r.sent ++ as_data m ++ data_of queue) (popped_own t now j)
          ∙ append_assoc _ (as_data m) (data_of queue)
          ∙ ap (λ x. data_of (j.relay t).sent ++ x) (sym (own.held on ∙ ap data_of q))
          ∙ own.whole_eq)
        (λ a b. ap data_of (sym (popped t now j m queue q))) others.rest
        (ap (λ x. data_of x ++ others.rest) (popped-sent t now j) ∙ others.whole_eq)
        (λ running.
          others.held running
          ∙ ap data_of (
              ap (λ s. (j.relay s).peer_queue) (other-other t)
              ∙ ap (λ r. r.peer_queue) (sym (popped_own t now j))))
  take-Whole false (m ∷ queue) on q =
      let own = w.delivered t in
      let others = w.delivered (other t) in
      turn-Whole t now (from_peer m false) (pop t now j) refl pop-gone own.rest
        (ap (λ r. data_of r.sent ++ [] ++ own.rest) (popped_own t now j)
          ∙ ap (λ x. x ++ own.rest) (append-nil _)
          ∙ own.whole_eq)
        (λ a b. cc) others.rest
        (ap (λ x. data_of x ++ others.rest) (popped-sent t now j) ∙ others.whole_eq)
        (λ running.
          others.held running
          ∙ ap data_of (
              ap (λ s. (j.relay s).peer_queue) (other-other t)
              ∙ ap (λ r. r.peer_queue) (sym (popped_own t now j))))

act-Whole : (a : Act) (j : Joined) → fits a j ≡ true → Whole j → Whole (act a j)
unfolding act end_of_channel iterate
act-Whole (hears t now m) j fit w =
    by_if Whole (j.running t) _ _ (λ on. hear-Whole t now j w m fit) (λ off. w)
act-Whole (takes t now sent) j fit w =
    by_if Whole (j.running t) _ _ (λ on. take-Whole t now j w sent _ on refl) (λ off. w)
act-Whole (ends t now) j fit w =
    by_if Whole (j.running t) _ _
      (λ on.
        by_if Whole (is_closed t j && is_empty (j.relay (other t)).peer_queue) _ _
          (λ closed. quiet-Whole t now j w peer_closed refl refl refl) (λ not_closed. w))
      (λ off. w)
act-Whole (idles t now) j fit w =
    by_if Whole (j.running t) _ _ (λ on. quiet-Whole t now j w idle refl refl refl) (λ off. w)

run-Whole : (acts : List Act) (j : Joined) → all_fit acts j ≡ true → Whole j → Whole (run acts j)
unfolding run all_fit
run-Whole [] j fit w = w
run-Whole (a ∷ acts) j fit w =
    run-Whole acts (act a j) (ground arith) (act-Whole a j (ground arith) w)

-- Where every binary frame keeps within the limit of its second and finds room in the channel, unless
-- the end that it is for has left, nothing is lost from the middle: what an end's socket was sent of
-- the game is a prefix of what the other end's socket brought.
pub joined-IsPrefix :
    (start : Instant) (acts : List Act) (s : Side)
    → all_fit acts (joined start) ≡ true
    → (rest : List Message) × (data_of ((run acts (joined start)).relay s).sent ++ rest
        ≡ (run acts (joined start)).heard (other s))
joined-IsPrefix start acts s fit =
    let d =
      (run-Whole acts (joined start) fit (record {
        gone = λ t. refl;
        delivered = λ t. record { rest = []; whole_eq = refl; held = λ on. refl };
      })).delivered
        s in
    (d.rest, d.whole_eq)
