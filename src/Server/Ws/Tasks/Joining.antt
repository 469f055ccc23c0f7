-- ===== src/Server/Ws/Tasks/Joining.antt =====
-- `JoinRoom` of crates/server/src/ws.rs owes the place that it has taken, and then the one in the room
-- that the player leaves.
use war3_battle_tool.Prelude.{
  ◌+◌, ◌≡◌, refl, sym, ap, if◌then◌else◌, subst, String, Bool, false, Option, none, some, arith,
  by_if, by_option, string_eq, leb,
}
use war3_battle_tool.HashMap.{HashMap, get}
use war3_battle_tool.HashMap.Laws.{modify_absent}
use war3_battle_tool.Server.State.{ConnectedPlayer, Room}
use war3_battle_tool.Server.Time.{Instant}
use war3_battle_tool.Server.Ws.{Session, is_barred}
use war3_battle_tool.Server.Ws.Join.{is_cooling_down, find_players, joined, joined_in}
use war3_battle_tool.Server.Ws.Tasks.{
  Task, over, section, join_task, reserve_task, move_task, vacate, change_player,
}
use war3_battle_tool.Server.Ws.Tasks.Ledger.{Balanced, Amounts, nothing, one, Balanced-ext}
use war3_battle_tool.Server.Ws.Tasks.Balance.{move-Balanced, vacate-Balanced, enter-room-Balanced}
use war3_battle_tool.Server.Ws.Tasks.Owes.{Owes}

give_back-Owes :
    (d : Amounts) (o : Option String)
    → Owes
        (one o)
        d
        (elim o as (λ _. Task) [ none ↦ over | some old ↦ section (vacate (some old)) (λ _. over) ])
give_back-Owes d none = tt
give_back-Owes d (some old) = λ O D a b. (
  nothing,
  d,
  Balanced-ext O _ _ _ (vacate (some old) a) (λ i. omega arith) (λ i. refl)
      (vacate-Balanced O _ a (some old) b),
  tt,
)

-- The player of the task may be gone.
move-Owes :
    (d : Amounts) (player_id room_id : String)
    → Owes (one (some room_id)) d (move_task player_id room_id)
unfolding move_task
move-Owes d player_id room_id O D a b = moved (get player_id a.players) refl
  where
    moved :
        (o : Option ConnectedPlayer)
        → get player_id a.players ≡ o
        → (o' : Amounts) × (d' : Amounts) × Balanced
            (λ i. o' i + O i)
            (λ i. d' i + D i)
            (change_player player_id (joined_in room_id) a)
          × Owes o' d' (elim (joined o) as (λ _. Task) [
            | none ↦ over
            | some old ↦ section (vacate (some old)) (λ _. over)
          ])
    moved none absent = (
      one (some room_id),
      d,
      subst (Balanced _ _)
          (sym (
            ap (λ players. record a { players = players })
              (modify_absent player_id (joined_in room_id) a.players absent)))
          b,
      tt,
    )
    moved (some p) found = (
      one p.joined_room,
      d,
      move-Balanced O _ a player_id room_id p found b,
      give_back-Owes d p.joined_room,
    )

reserve-Owes :
    (d : Amounts) (player_id room_id : String) → Owes nothing d (reserve_task player_id room_id)
unfolding reserve_task
reserve-Owes d player_id room_id O D a b =
    by_option Tried (get room_id a.rooms) (a.rooms, false) _ (λ _. (nothing, d, b, tt))
      (λ r found.
        by_if Tried (leb r.max_players r.current_players) _ _ (λ _. (nothing, d, b, tt))
          (λ free. (
            one (some room_id),
            d,
            enter-room-Balanced O _ a room_id r found (ground arith)
                (Balanced-ext _ _ _ _ a (λ i. omega arith) (λ i. refl) b),
            move-Owes d player_id room_id,
          )))
  where
    Tried : HashMap String Room × Bool → Type 0
    Tried t =
        (o' : Amounts) × (d' : Amounts) × Balanced (λ i. o' i + O i) (λ i. d' i + D i)
          (record a { rooms = t.0 })
        × Owes o' d' (if t.1 then move_task player_id room_id else over)

pub join-Owes :
    (d : Amounts) (now : Instant) (room_id : String) (s : Session)
    → Owes nothing d (join_task now room_id s)
unfolding join_task
join-Owes d now room_id s =
    by_if (Owes nothing d) (is_barred s) _ _ (λ _. tt)
      (λ _.
        by_if (Owes nothing d) (is_cooling_down now s) _ _ (λ _. tt)
          (λ _ O D a b. (
            nothing,
            d,
            b,
            by_option (Owes nothing d) (get room_id a.rooms) _ _ (λ _. tt)
                (λ r _ O' D' c b'. (
                  nothing,
                  d,
                  b',
                  by_option (Owes nothing d)
                      (find_players s.player_id r.host_player_id r.war3_version c.players) _ _
                      (λ _. tt)
                      (λ found _.
                        by_option (Owes nothing d) found _ _ (λ _. tt)
                          (λ _ _. reserve-Owes d s.player_id room_id)),
                )),
          )))
