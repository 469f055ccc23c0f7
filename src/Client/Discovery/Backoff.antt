-- ===== src/Client/Discovery/Backoff.antt =====
-- The waits and the events of `run_connection` (crates/client/src/net/discovery.rs).
use war3_battle_tool.Prelude.{
  ℕ, ◌≤◌, List, [], ◌∷◌, ◌++◌, Option, none, some, Bool, true, false, ◌≡◌, refl, All, arith, by_if,
  ap, ◌∙◌,
}
use war3_battle_tool.Client.Discovery.{
  initial_reconnect_delay, max_reconnect_delay, NetEvent, connected, disconnected, reconnecting,
  server_message, Input, Session, Outcome, on, returned, session_step, handle_session, Connection,
  new, new_session, back_off, Attempt, refused, accepted, after_session, connection_step,
  run_connection, write, forward, command, text, heartbeat_tick, ping_tick,
}
use war3_battle_tool.Protocol.Messages.{ClientMessage, heartbeat, ping, ServerMessage, pong}

abbrev pub InRange : ℕ → Type 0
InRange wait = (initial_reconnect_delay ≤ wait) × (wait ≤ max_reconnect_delay)

-- What the app may see: `accepts` reads events from a state, connected or not.
unfoldable pub accepts : Bool → List NetEvent → Option Bool
accepts up [] = some up
accepts false (connected ∷ events) = accepts true events
accepts true (disconnected ∷ events) = accepts false events
accepts false (reconnecting n ∷ events) = accepts false events
accepts true (server_message msg ∷ events) = accepts true events
accepts up (_ ∷ events) = none

accepts-append :
    (up v : Bool) (xs ys : List NetEvent)
    → accepts up xs ≡ some v
    → accepts up (xs ++ ys) ≡ accepts v ys
unfolding accepts
accepts-append up v [] ys h =
    ap (λ o. elim o as (λ _. Option Bool) [ none ↦ none | some w ↦ accepts w ys ]) h
accepts-append false v (connected ∷ xs) ys h = accepts-append true v xs ys h
accepts-append true v (connected ∷ xs) ys h = cc
accepts-append true v (disconnected ∷ xs) ys h = accepts-append false v xs ys h
accepts-append false v (disconnected ∷ xs) ys h = cc
accepts-append false v (reconnecting n ∷ xs) ys h = accepts-append false v xs ys h
accepts-append true v (reconnecting n ∷ xs) ys h = cc
accepts-append true v (server_message msg ∷ xs) ys h = accepts-append true v xs ys h
accepts-append false v (server_message msg ∷ xs) ys h = cc

-- What is read in two parts.
pub accepts-split :
    (up v : Bool) (xs ys : List NetEvent)
    → accepts up (xs ++ ys) ≡ some v
    → (w : Bool) × (accepts up xs ≡ some w) × (accepts w ys ≡ some v)
unfolding accepts
accepts-split up v [] ys h = (up, refl, h)
accepts-split false v (connected ∷ xs) ys h = accepts-split true v xs ys h
accepts-split true v (connected ∷ xs) ys h = cc
accepts-split true v (disconnected ∷ xs) ys h = accepts-split false v xs ys h
accepts-split false v (disconnected ∷ xs) ys h = cc
accepts-split false v (reconnecting n ∷ xs) ys h = accepts-split false v xs ys h
accepts-split true v (reconnecting n ∷ xs) ys h = cc
accepts-split true v (server_message msg ∷ xs) ys h = accepts-split true v xs ys h
accepts-split false v (server_message msg ∷ xs) ys h = cc

-- A session only forwards messages.
abbrev IsForwarding : Outcome → Type 0
IsForwarding (on s) = accepts true s.events ≡ some true
IsForwarding (returned again s) = accepts true s.events ≡ some true

write-IsForwarding :
    (msg : ClientMessage) (delivered : Bool) (s : Session)
    → accepts true s.events ≡ some true
    → IsForwarding (write msg delivered s)
write-IsForwarding msg true s h = h
write-IsForwarding msg false s h = h

forward-IsForwarding :
    (msg : ServerMessage) (s : Session)
    → accepts true s.events ≡ some true
    → accepts true (forward msg s).events ≡ some true
unfolding accepts
forward-IsForwarding msg s h = accepts-append true true s.events (server_message msg ∷ []) h

session_step-IsForwarding :
    (now_ms : ℕ) (i : Input) (s : Session)
    → accepts true s.events ≡ some true
    → IsForwarding (session_step now_ms i s)
unfolding session_step
session_step-IsForwarding now_ms (command none delivered) s h = h
session_step-IsForwarding now_ms (command (some msg) delivered) s h =
    write-IsForwarding msg delivered s h
session_step-IsForwarding now_ms (text none) s h = h
session_step-IsForwarding now_ms (text (some (pong ts))) s h = h
session_step-IsForwarding now_ms (text (some msg)) s h = forward-IsForwarding msg s h
session_step-IsForwarding now_ms (heartbeat_tick delivered) s h =
    write-IsForwarding heartbeat delivered s h
session_step-IsForwarding now_ms (ping_tick delivered) s h =
    write-IsForwarding (ping now_ms) delivered s h
session_step-IsForwarding now_ms _ s h = h

handle_session-IsForwarding :
    (inputs : List (ℕ × Input)) (s : Session)
    → accepts true s.events ≡ some true
    → IsForwarding (handle_session inputs s)
unfolding handle_session
handle_session-IsForwarding [] s h = h
handle_session-IsForwarding ((now_ms, i) ∷ inputs) s h =
    continues inputs (handle_session-IsForwarding inputs) (session_step now_ms i s)
      (session_step-IsForwarding now_ms i s h)
  where
    continues :
        (inputs : List (ℕ × Input))
        (ih : (s : Session)
          → accepts true s.events ≡ some true
          → IsForwarding (handle_session inputs s))
        (o : Outcome)
        → IsForwarding o
        → IsForwarding
            (elim o [ on s ↦ handle_session inputs s | returned again s ↦ returned again s ])
    continues inputs ih (on s) h = ih s h
    continues inputs ih (returned again s) h = h

pub record IsSound (c : Connection) : Type 0 where
  pub delay_in : InRange c.reconnect_delay
  pub waits_in : All InRange c.waits
  pub up : Bool
  pub trace : accepts false c.emitted ≡ some up
  -- between two iterations there is no connection
  pub down : c.over ≡ false → up ≡ false

All-append-one : (xs : List ℕ) (x : ℕ) → All InRange xs → InRange x → All InRange (xs ++ x ∷ [])
All-append-one [] x h k = (k, tt)
All-append-one (y ∷ xs) x h k = (h.0, All-append-one xs x h.1 k)

back_off-IsSound :
    (c : Connection)
    → InRange c.reconnect_delay
    → All InRange c.waits
    → accepts false c.emitted ≡ some false
    → IsSound (back_off c)
unfolding back_off accepts
back_off-IsSound c d w t = record {
  delay_in = ground arith;
  waits_in = All-append-one c.waits c.reconnect_delay w d;
  up = false;
  trace = accepts-append false false c.emitted (reconnecting c.attempt ∷ []) t;
  down = λ _. refl;
}

after_session-IsSound :
    (o : Outcome) (c : Connection)
    → IsForwarding o
    → InRange c.reconnect_delay
    → All InRange c.waits
    → accepts false c.emitted ≡ some false
    → IsSound (after_session o c)
unfolding after_session accepts
after_session-IsSound (on s) c f d w t = record {
  delay_in = d;
  waits_in = w;
  up = true;
  trace = accepts-append false false c.emitted (connected ∷ s.events) t ∙ f;
  down = λ h. cc;
}
after_session-IsSound (returned again s) c f d w t =
    by_if IsSound again _ _ (λ _. back_off-IsSound _ d w closed)
      (λ _. record { delay_in = d; waits_in = w; up = false; trace = closed; down = λ _. refl })
  where
    closed : accepts false (c.emitted ++ (connected ∷ (s.events ++ disconnected ∷ []))) ≡ some false
    closed =
        accepts-append false false c.emitted (connected ∷ (s.events ++ disconnected ∷ [])) t
        ∙ accepts-append true true s.events (disconnected ∷ []) f

connection_step-IsSound :
    (a : Attempt) (c : Connection) → c.over ≡ false → IsSound c → IsSound (connection_step a c)
unfolding connection_step accepts
connection_step-IsSound refused c running s =
    back_off-IsSound _ s.delay_in s.waits_in (s.trace ∙ ap some (s.down running))
connection_step-IsSound (accepted inputs) c running s =
    after_session-IsSound (handle_session inputs (new_session c.latency_ms)) _
      (handle_session-IsForwarding inputs (new_session c.latency_ms) refl)
      (omega arith, omega arith) s.waits_in (s.trace ∙ ap some (s.down running))

run_from-IsSound :
    (attempts : List Attempt) (c : Connection) → IsSound c → IsSound (run_connection attempts c)
unfolding run_connection
run_from-IsSound [] c s = s
run_from-IsSound (a ∷ attempts) c s =
    by_if IsSound c.over _ _ (λ _. s)
      (λ running.
        run_from-IsSound attempts (connection_step a c) (connection_step-IsSound a c running s))

-- Whatever attempts fail and however sessions go and end: every wait before the next attempt is one
-- to 30 seconds long, and the app is told of messages of the server only between a `Connected` and
-- its `Disconnected`, and of attempts to reconnect only outside.
pub run_connection-IsSound : (attempts : List Attempt) → IsSound (run_connection attempts new)
unfolding accepts
run_connection-IsSound attempts = run_from-IsSound attempts new (record {
  delay_in = (omega arith, omega arith);
  waits_in = tt;
  up = false;
  trace = refl;
  down = λ _. refl;
})
