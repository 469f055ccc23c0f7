-- ===== src/Server/Tunnel/Joined/Sequence.antt =====
-- What a tunnel delivers of what its ends hear: the two `relay` loops of crates/server/src/tunnel.rs.
use mathlib.Core.List.Sublistᴰ
use mathlib.Core.List.{Sublistᴰ, append_assoc, append-nil}
use war3_battle_tool.Prelude.{
  ◌≡◌, refl, sym, ap, ◌∙◌, Bool, true, false, List, [], ◌∷◌, ◌++◌, arith, ◌&&◌, is_empty, by_if,
}
use war3_battle_tool.Server.Time.{Instant}
use war3_battle_tool.Server.Tunnel.Relay.{
  Message, Received, Event, binary, from_peer, peer_closed, from_socket, idle, iterate,
}
use war3_battle_tool.Server.Tunnel.Relay.Sequence.{same, heard_at, taken_at}
use war3_battle_tool.Server.Tunnel.Joined.Flow.{popped, popped_own}
use war3_battle_tool.Server.Tunnel.Joined.Flow.{
  data_of, carried, flow, turn-heard, own_flow, other_flow, side_refl, side_other, other_side,
  other-other,
}
use war3_battle_tool.Server.Tunnel.Joined.{
  Side, first_end, second_end, other, update, Joined, Act, hears, takes, ends, idles, heard_of,
  turn, pop, is_closed, hear, take_next, end_of_channel, act, run, joined,
}

-- What an end was sent and what its channel holds comes, in order, from what the other end heard.
abbrev pub Delivers : Side → Joined → Type 0
Delivers s j = Sublistᴰ (flow s j) (j.heard (other s))

pub by_side {ℓ} : (P : Side → Type ℓ) (t : Side) → P t → P (other t) → (s : Side) → P s
by_side P first_end x y first_end = x
by_side P first_end x y second_end = y
by_side P second_end x y first_end = y
by_side P second_end x y second_end = x

heard-brought : (m : Received) → heard_at (from_socket m) ≡ heard_of m
unfolding heard_at
heard-brought m = ground arith

module _ (t : Side) (now : Instant) (e : Event) (j : Joined) where
  turn-Delivers :
      taken_at e (j.relay t) ≡ []
      → Sublistᴰ
          (data_of (j.relay t).sent ++ carried e ++ (j.relay (other t)).peer_queue)
          (j.heard (other t))
      → Sublistᴰ (flow (other t) j ++ heard_at e) (j.heard (other (other t)))
      → (s : Side) → Delivers s (turn t now e j)
  turn-Delivers none own others =
      by_side (λ s. Delivers s (turn t now e j)) t
        (Sublistᴰ.trans (same (own_flow t now e j))
          (Sublistᴰ.trans own (same (sym (turn-heard t now e j (other t))))))
        (Sublistᴰ.trans (other_flow t now e j none)
          (Sublistᴰ.trans others (same (sym (turn-heard t now e j (other (other t)))))))

  -- An event that neither brings nor takes data.
  quiet-Delivers :
      taken_at e (j.relay t) ≡ []
      → carried e ≡ []
      → heard_at e ≡ []
      → ((s : Side) → Delivers s j)
      → (s : Side) → Delivers s (turn t now e j)
  quiet-Delivers none empty silent d =
      turn-Delivers none
        (Sublistᴰ.trans
          (same (
            ap (λ x. x ++ (j.relay (other t)).peer_queue)
              (ap (λ x. data_of (j.relay t).sent ++ x) empty ∙ append-nil _)))
          (d t))
        (Sublistᴰ.trans (same (ap (λ x. flow (other t) j ++ x) silent ∙ append-nil _))
          (d (other t)))

module _ (t : Side) (now : Instant) (j : Joined) (d : (s : Side) → Delivers s j) where
  abbrev with_heard : Received → Joined
  with_heard m = record j { heard = update j.heard t (j.heard t ++ heard_of m) }

  heard_other : (m : Received) → (with_heard m).heard (other t) ≡ j.heard (other t)
  heard_other m = ground (arith, side_other t)

  heard_own :
      (m : Received)
      → (with_heard m).heard (other (other t))
        ≡ j.heard (other (other t)) ++ heard_at (from_socket m)
  heard_own m = ground (arith, other-other t, side_refl t, heard-brought m)

  hear-Delivers : (m : Received) (s : Side) → Delivers s (hear t now m j)
  unfolding hear taken_at
  hear-Delivers m =
      turn-Delivers t now (from_socket m) (with_heard m) refl
        (Sublistᴰ.trans (same (ap (λ x. x ++ (j.relay (other t)).peer_queue) (append-nil _)))
          (Sublistᴰ.trans (d t) (same (sym (heard_other m)))))
        (Sublistᴰ.trans (Sublistᴰ.append (d (other t)) (Sublistᴰ.refl _))
          (same (sym (heard_own m))))

  popped_other : flow (other t) (pop t now j) ≡ flow (other t) j
  unfolding pop iterate
  popped_other = ground (arith, other-other t, other_side t, side_refl (other t))

  carried_sub :
      (sent : Bool) (m : Message) (queue : List Message)
      → Sublistᴰ (carried (from_peer m sent) ++ queue) (m ∷ queue)
  carried_sub true (binary b) queue = Sublistᴰ.refl _
  carried_sub true _ queue = Sublistᴰ.cons (Sublistᴰ.refl _)
  carried_sub false m queue = Sublistᴰ.cons (Sublistᴰ.refl _)

  take-Delivers :
      (sent : Bool) (queue : List Message)
      → (j.relay (other t)).peer_queue ≡ queue
      → (s : Side) → Delivers s (take_next t now sent queue j)
  unfolding take_next taken_at heard_at pop
  take-Delivers sent [] q = d
  take-Delivers sent (m ∷ queue) q =
      turn-Delivers t now (from_peer m sent) (pop t now j) refl
        (Sublistᴰ.trans
          (same (
            ap
              (λ r.
                data_of r.sent
                ++ carried (from_peer m sent)
                ++ ((pop t now j).relay (other t)).peer_queue)
              (popped_own t now j)
            ∙ ap (λ x. data_of (j.relay t).sent ++ carried (from_peer m sent) ++ x)
                (popped t now j m queue q)
            ∙ append_assoc (data_of (j.relay t).sent) (carried (from_peer m sent)) queue))
          (Sublistᴰ.trans
            (Sublistᴰ.append (Sublistᴰ.refl (data_of (j.relay t).sent)) (carried_sub sent m queue))
            (Sublistᴰ.trans (same (ap (λ x. data_of (j.relay t).sent ++ x) (sym q))) (d t))))
        (Sublistᴰ.trans (same (append-nil _ ∙ popped_other)) (d (other t)))

act-Delivers :
    (a : Act) (j : Joined) → ((s : Side) → Delivers s j) → (s : Side) → Delivers s (act a j)
unfolding act taken_at heard_at end_of_channel
act-Delivers (hears t now m) j d s =
    by_if (Delivers s) (j.running t) _ _ (λ on. hear-Delivers t now j d m s) (λ off. d s)
act-Delivers (takes t now sent) j d s =
    by_if (Delivers s) (j.running t) _ _ (λ on. take-Delivers t now j d sent _ refl s) (λ off. d s)
act-Delivers (ends t now) j d s =
    by_if (Delivers s) (j.running t) _ _
      (λ on.
        by_if (Delivers s) (is_closed t j && is_empty (j.relay (other t)).peer_queue) _ _
          (λ closed. quiet-Delivers t now peer_closed j refl refl refl d s) (λ not_closed. d s))
      (λ off. d s)
act-Delivers (idles t now) j d s =
    by_if (Delivers s) (j.running t) _ _ (λ on. quiet-Delivers t now idle j refl refl refl d s)
      (λ off. d s)

run-Delivers :
    (acts : List Act) (j : Joined)
    → ((s : Side) → Delivers s j)
    → (s : Side) → Delivers s (run acts j)
unfolding run
run-Delivers [] j d = d
run-Delivers (a ∷ acts) j d = run-Delivers acts (act a j) (act-Delivers a j d)

-- However the iterations of the two loops of a tunnel follow each other, and whenever either ends,
-- what an end's socket was sent of the game, followed by what its channel holds, is what the other
-- end's socket brought, in the same order, each frame at most once, some left out.
pub joined-Sequence :
    (start : Instant) (acts : List Act) (s : Side)
    → Sublistᴰ
        (data_of ((run acts (joined start)).relay s).sent
          ++ ((run acts (joined start)).relay (other s)).peer_queue)
        ((run acts (joined start)).heard (other s))
joined-Sequence start acts = run-Delivers acts (joined start) (λ s. Sublistᴰ.slnil)
