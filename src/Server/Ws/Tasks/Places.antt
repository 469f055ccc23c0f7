-- ===== src/Server/Ws/Tasks/Places.antt =====
-- The places of a room under any interleaving of the sections of crates/server/src/ws.rs.
use war3_battle_tool.Prelude.{
  none, ℕ, zero, suc, ◌+◌, ◌≤◌, ◌≡◌, refl, ap, subst, String, some, List, [], ◌∷◌, All, map, arith,
  string_eq,
}
use war3_battle_tool.HashMap.{get}
use war3_battle_tool.Server.State.{AppState, Room}
use war3_battle_tool.Server.State.Consistent.{IsConsistent}
use war3_battle_tool.Server.Ws.Tasks.{
  Task, over, section, Work, task_of, resume, resume_nth, interleave,
}
use war3_battle_tool.Server.Ws.Tasks.Ledger.{Balanced, Balanced-ext, Amounts, nothing, one, members}
use war3_battle_tool.Server.Ws.Tasks.Owes.{Owes}
use war3_battle_tool.Server.Ws.Tasks.Debts.{IsAccepted, draws, task-Owes}

-- A task with what it owes and may draw.
record Debtor : Type 0 where
  task : Task
  owed : Amounts
  drawn : Amounts
  owes : Owes owed drawn task

abbrev tasks_of : List Debtor → List Task
tasks_of [] = []
tasks_of (t ∷ debtors) = t.task ∷ tasks_of debtors

abbrev all_owed : List Debtor → Amounts
all_owed [] i = 0
all_owed (t ∷ debtors) i = t.owed i + all_owed debtors i

abbrev all_drawn : List Debtor → Amounts
all_drawn [] i = 0
all_drawn (t ∷ debtors) i = t.drawn i + all_drawn debtors i

-- The tasks after a section, and what they then owe, whatever others owe.
record Next (O D : Amounts) (out : List Task × AppState) : Type 0 where
  debtors : List Debtor
  same : tasks_of debtors ≡ out.0
  balanced : Balanced (λ i. all_owed debtors i + O i) (λ i. all_drawn debtors i + D i) out.1

resume-Next :
    (t : Task) (o d : Amounts)
    → Owes o d t
    → (debtors : List Debtor) (O D : Amounts) (a : AppState)
    → Balanced (λ i. o i + all_owed debtors i + O i) (λ i. d i + all_drawn debtors i + D i) a
    → Next O D ((resume t a).0 ∷ tasks_of debtors, (resume t a).1)
resume-Next over o d owes debtors O D a b = record {
  debtors = record { task = over; owed = o; drawn = d; owes = tt } ∷ debtors;
  same = refl;
  balanced = b;
}
resume-Next (section f next) o d owes debtors O D a b =
    let (o', d', b', owes') =
      owes (λ i. all_owed debtors i + O i) (λ i. all_drawn debtors i + D i) a
        (Balanced-ext _ _ _ _ a (λ i. omega arith) (λ i. omega arith) b) in
    record {
      debtors = record { task = next a; owed = o'; drawn = d'; owes = owes' } ∷ debtors;
      same = refl;
      balanced = Balanced-ext _ _ _ _ (f a) (λ i. omega arith) (λ i. omega arith) b';
    }

resume_nth-Next :
    (n : ℕ) (debtors : List Debtor) (O D : Amounts) (a : AppState)
    → Balanced (λ i. all_owed debtors i + O i) (λ i. all_drawn debtors i + D i) a
    → Next O D (resume_nth n (tasks_of debtors) a)
unfolding resume_nth
resume_nth-Next n [] O D a b = record { debtors = []; same = refl; balanced = b }
resume_nth-Next zero (t ∷ debtors) O D a b =
    resume-Next t.task t.owed t.drawn t.owes debtors O D a b
resume_nth-Next (suc n) (t ∷ debtors) O D a b =
    let rest =
      resume_nth-Next n debtors (λ i. t.owed i + O i) (λ i. t.drawn i + D i) a
        (Balanced-ext _ _ _ _ a (λ i. omega arith) (λ i. omega arith) b) in
    record {
      debtors = t ∷ rest.debtors;
      same = ap (λ tasks. t.task ∷ tasks) rest.same;
      balanced =
          Balanced-ext _ _ _ _ (resume_nth n (tasks_of debtors) a).1 (λ i. omega arith)
            (λ i. omega arith) rest.balanced;
    }

-- Some amounts with which the ledger is balanced.
abbrev IsBalanced : AppState → Type 0
IsBalanced a = (o : Amounts) × (d : Amounts) × Balanced o d a

interleave-IsBalanced :
    (schedule : List ℕ) (debtors : List Debtor) (a : AppState)
    → Balanced (λ i. all_owed debtors i + nothing i) (λ i. all_drawn debtors i + nothing i) a
    → IsBalanced (interleave schedule (tasks_of debtors) a).1
unfolding interleave
interleave-IsBalanced [] debtors a b = (_, _, b)
interleave-IsBalanced (n ∷ schedule) debtors a b =
    let next = resume_nth-Next n debtors nothing nothing a b in
    subst (λ tasks. IsBalanced (interleave schedule tasks (resume_nth n (tasks_of debtors) a).1).1)
      next.same
      (interleave-IsBalanced schedule next.debtors (resume_nth n (tasks_of debtors) a).1
        next.balanced)

-- How many of the works may draw the identifier.
abbrev pub drawn_by : List Work → Amounts
drawn_by [] i = 0
drawn_by (w ∷ works) i = one (draws w) i + drawn_by works i

-- The works as they begin, owing nothing.
record Begun (works : List Work) : Type 0 where
  debtors : List Debtor
  same : tasks_of debtors ≡ map task_of works
  none_owed : (i : String) → all_owed debtors i ≡ 0
  to_draw : (i : String) → all_drawn debtors i ≡ drawn_by works i

begin : (works : List Work) → All IsAccepted works → Begun works
begin [] h = record { debtors = []; same = refl; none_owed = λ i. refl; to_draw = λ i. refl }
begin (w ∷ works) h =
    let rest = begin works h.1 in
    record {
      debtors =
          record { task = task_of w; owed = nothing; drawn = one (draws w); owes = task-Owes w h.0 }
          ∷ rest.debtors;
      same = ap (λ tasks. task_of w ∷ tasks) rest.same;
      none_owed = λ i. omega (arith, rest.none_owed i);
      to_draw = λ i. omega (arith, rest.to_draw i);
    }

-- Where each room at the start counts at least its host and the players in it, within its limit, and
-- each identifier that may be drawn for a room is drawn by one message only and is new: however the
-- sections of messages that `validate` accepts, of ends of connections and of ticks of the cleanup
-- interleave, and wherever they stop, each room counts its host and at least the players in it, within
-- its limit, which is 12 at most; so no more players get into a room than it has places.
pub interleaved-places :
    (works : List Work) (schedule : List ℕ) (a : AppState) (room_id : String) (r : Room)
    → All IsAccepted works
    → Balanced nothing (drawn_by works) a
    → get room_id (interleave schedule (map task_of works) a).1.rooms ≡ some r
    → (1 + members room_id (interleave schedule (map task_of works) a).1.players
        ≤ r.current_players)
      × (r.current_players ≤ r.max_players)
      × (r.max_players ≤ 12)
interleaved-places works schedule a room_id r accepted b at =
    let start = begin works accepted in
    let (o, d, end) =
      subst (λ tasks. IsBalanced (interleave schedule tasks a).1) start.same
        (interleave-IsBalanced schedule start.debtors a (
          Balanced-ext _ _ _ _ a (λ i. omega (arith, start.none_owed i))
            (λ i. omega (arith, start.to_draw i)) b)) in
    let fits = end.fit room_id r at in (omega (arith, end.counted room_id r at), fits.0, fits.1)

-- A consistent state is balanced, where the identifiers to be drawn are new to it.
consistent-IsBalanced :
    (works : List Work) (a : AppState)
    → IsConsistent a
    → ((i : String) → drawn_by works i ≤ 1)
    → ((i : String) → 1 ≤ drawn_by works i → (get i a.rooms ≡ none) × (members i a.players ≡ 0))
    → Balanced nothing (drawn_by works) a
consistent-IsBalanced works a v once new = record {
  players_unique = v.players_unique;
  fit = λ i r at. let s = v.room_sound i r at in (s.not_overfull, s.small);
  counted = λ i r at. let s = v.room_sound i r at in omega (arith, s.occupancy);
  drawn_once = once;
  undrawn = λ i h. let (no_room, empty) = new i h in (no_room, omega (arith, empty));
}
