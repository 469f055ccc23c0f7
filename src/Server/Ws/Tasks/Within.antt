-- ===== src/Server/Ws/Tasks/Within.antt =====
-- The limit of a room under any interleaving of the sections.
use war3_battle_tool.Prelude.{ℕ, List, All, map, some}
use war3_battle_tool.Server.State.{AppState, remove_room}
use war3_battle_tool.Server.Ws.Tasks.{Work, task_of, interleave}
use war3_battle_tool.Server.Ws.Tasks.Rooms.{
  AllFit, insert-AllFit, remove-AllFit, leave_room-AllFit, remove_room-AllFit, try_reserve-AllFit,
}
use war3_battle_tool.Server.Ws.Tasks.Keeps.{SectionsKeep, IsAdmitted}
use war3_battle_tool.Server.Ws.Tasks.Interleaved.{interleaved-Keeps}

abbrev IsWithin : AppState → Type 0
IsWithin a = AllFit a.rooms

sections-AllFit : SectionsKeep IsWithin (λ _. Unit)
sections-AllFit = record {
  enters = λ id p a none_hosted fit. fit;
  changes = λ id f a same fit. fit;
  unhosts = λ id a fit. fit;
  hosts = λ id room_id a fresh fit. fit;
  forgets = λ id a fit. fit;
  opens = λ room_id r a fresh now limit fit. insert-AllFit room_id r a.rooms (now, limit) fit;
  drops = λ id room_id b a fit_b at fit. remove-AllFit room_id a.rooms fit;
  settles = λ id p b a fit_b at fit.
      leave_room-AllFit p.joined_room (remove_room p.hosting_room a.rooms)
        (remove_room-AllFit p.hosting_room a.rooms fit);
  vacates = λ room_id a fit. leave_room-AllFit (some room_id) a.rooms fit;
  reserves = λ room_id a fit. try_reserve-AllFit room_id a.rooms fit;
}

-- However the sections of any messages that `validate` accepts, of ends of connections and of ticks of
-- the cleanup interleave, and wherever they stop: no room comes to hold more players than its limit,
-- nor a limit above 12.
interleaved-AllFit :
    (works : List Work) (schedule : List ℕ) (a : AppState)
    → All (IsAdmitted (λ _. Unit)) works
    → AllFit a.rooms
    → AllFit (interleave schedule (map task_of works) a).1.rooms
interleaved-AllFit = interleaved-Keeps IsWithin (λ _. Unit) sections-AllFit
