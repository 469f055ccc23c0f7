-- ===== src/Server/Tunnel/Relay/Sequence.antt =====
-- What the peer of a tunnel is handed by `relay` in crates/server/src/tunnel.rs, in which order.
use mathlib.Core.List.Sublistᴰ
use mathlib.Core.List.{Sublistᴰ, append_assoc, append-nil}
use war3_battle_tool.Prelude.{
  ℕ, Bool, ◌≡◌, ◌⊎◌, inl, inr, refl, sym, ◌∙◌, subst, true, false, List, [], ◌∷◌, ◌++◌, take, drop,
  arith, if◌then◌else◌,
}
use war3_battle_tool.Server.Time.{Instant}
use war3_battle_tool.Server.Tunnel.Relay.{
  Message, Event, Relay, text, binary, ping_frame, pong_frame, close_frame, frame, failed, ended,
  from_peer, peer_closed, from_socket, idle, peer_takes, peer_leaves, to_peer, reset_window,
  on_binary, iterate, relay,
}

-- The binary frame that an event brings from the socket.
unfoldable pub heard_at : Event → List Message
heard_at (from_socket (frame (binary bytes))) = binary bytes ∷ []
heard_at (from_socket (frame (text t))) = []
heard_at (from_socket (frame (ping_frame b))) = []
heard_at (from_socket (frame (pong_frame b))) = []
heard_at (from_socket (frame close_frame)) = []
heard_at (from_socket failed) = []
heard_at (from_socket ended) = []
heard_at (from_peer m sent) = []
heard_at peer_closed = []
heard_at idle = []
heard_at peer_takes = []
heard_at peer_leaves = []

-- The message that the peer takes at an event.
unfoldable pub taken_at : Event → Relay → List Message
taken_at peer_takes r = take 1 r.peer_queue
taken_at (from_socket m) r = []
taken_at (from_peer m sent) r = []
taken_at peer_closed r = []
taken_at idle r = []
taken_at peer_leaves r = []

-- The binary frames that the loop hears, in the order of the events.
unfoldable heard : List (Instant × Event) → Relay → List Message
unfolding heard_at iterate
heard [] r = []
heard ((now, e) ∷ events) r =
    let (r', goes_on) = iterate now e r in
    let rest = heard events r' in if goes_on then heard_at e ++ rest else heard_at e

-- The messages that the peer takes while the loop runs.
unfoldable taken : List (Instant × Event) → Relay → List Message
unfolding taken_at iterate
taken [] r = []
taken ((now, e) ∷ events) r =
    let (r', goes_on) = iterate now e r in
    let rest = taken events r' in if goes_on then taken_at e r ++ rest else taken_at e r

pub same : {xs ys : List Message} → xs ≡ ys → Sublistᴰ xs ys
same {xs} p = subst (Sublistᴰ xs) p (Sublistᴰ.refl xs)

pub more : (q m : List Message) → Sublistᴰ q (q ++ m)
more [] m = Sublistᴰ.nil-sublist m
more (x ∷ q) m = Sublistᴰ.cons-cons refl (more q m)

-- A binary frame goes to the end of the queue, or nowhere.
pub on_binary-cases :
    (now : Instant) (d : List ℕ) (r : Relay)
    → ((on_binary now d r).peer_queue ≡ r.peer_queue)
      ⊎ ((on_binary now d r).peer_queue ≡ r.peer_queue ++ binary d ∷ [])
unfolding on_binary reset_window to_peer
on_binary-cases now d r = ground arith

head_first : (q : List Message) → take 1 q ++ drop 1 q ≡ q
head_first [] = refl
head_first (m ∷ q) = refl

pub step :
    (now : Instant) (e : Event) (r : Relay)
    → Sublistᴰ (taken_at e r ++ (iterate now e r).0.peer_queue) (r.peer_queue ++ heard_at e)
unfolding iterate heard_at taken_at
step now (from_socket (frame (binary d))) r = elim (on_binary-cases now d r) [
  | inl p ↦
      subst (λ q. Sublistᴰ q (r.peer_queue ++ binary d ∷ [])) (sym p)
        (more r.peer_queue (binary d ∷ []))
  | inr p ↦ same p
]
step now (from_socket (frame (text t))) r = more r.peer_queue []
step now (from_socket (frame (ping_frame b))) r = more r.peer_queue []
step now (from_socket (frame (pong_frame b))) r = more r.peer_queue []
step now (from_socket (frame close_frame)) r = more r.peer_queue []
step now (from_socket failed) r = more r.peer_queue []
step now (from_socket ended) r = more r.peer_queue []
step now (from_peer m true) r = more r.peer_queue []
step now (from_peer m false) r = more r.peer_queue []
step now peer_closed r = more r.peer_queue []
step now idle r = more r.peer_queue []
step now peer_takes r = same (head_first r.peer_queue ∙ sym (append-nil r.peer_queue))
step now peer_leaves r = more r.peer_queue []

-- Two runs, one after the other.
chain :
    (t q' q h t' end h' : List Message)
    → Sublistᴰ (t ++ q') (q ++ h)
    → Sublistᴰ (t' ++ end) (q' ++ h')
    → Sublistᴰ (t ++ t' ++ end) (q ++ (h ++ h'))
chain t q' q h t' end h' first second = Sublistᴰ.trans (same (append_assoc t t' end)) (
    Sublistᴰ.trans (Sublistᴰ.append (Sublistᴰ.refl t) second) (
      Sublistᴰ.trans (same (sym (append_assoc t q' h')))
        (Sublistᴰ.trans (Sublistᴰ.append first (Sublistᴰ.refl h')) (same (append_assoc q h h')))))

-- An iteration, and the rest of the run where the loop goes on.
next :
    (goes_on : Bool) (r r' end : Relay) (t h t' h' : List Message)
    → Sublistᴰ (t ++ r'.peer_queue) (r.peer_queue ++ h)
    → Sublistᴰ (t' ++ end.peer_queue) (r'.peer_queue ++ h')
    → Sublistᴰ
        ((if goes_on then t ++ t' else t) ++ (if goes_on then end else r').peer_queue)
        (r.peer_queue ++ (if goes_on then h ++ h' else h))
next true r r' end t h t' h' first second =
    chain t r'.peer_queue r.peer_queue h t' end.peer_queue h' first second
next false r r' end t h t' h' first second = first

-- However a run of the relay goes, the messages that the peer takes, followed by those that wait for it
-- at the end, are the ones that waited at the start followed by the binary frames that the loop heard,
-- in the same order each at most once, some of them left out.
relay-Sequence :
    (events : List (Instant × Event)) (r : Relay)
    → Sublistᴰ (taken events r ++ (relay events r).peer_queue) (r.peer_queue ++ heard events r)
unfolding relay taken heard
relay-Sequence [] r = more r.peer_queue []
relay-Sequence ((now, e) ∷ events) r =
    let r' : Relay = (iterate now e r).0 in
    next (iterate now e r).1 r r' (relay events r') (taken_at e r) (heard_at e) (taken events r')
      (heard events r') (step now e r) (relay-Sequence events r')
