-- ===== src/Server/Ws/Keeps/Rooms.antt =====
-- Opening and closing a room keep the state valid.
use war3_battle_tool.Prelude.{
  ℕ, ◌≤◌, ◌≡◌, refl, String, false, Option, none, some, List, string_eq, arith, leb, ap, sym, ◌∙◌,
  is_some,
}
use war3_battle_tool.HashMap.{get, insert, remove, modify, len}
use war3_battle_tool.HashMap.Laws.{len-insert-le, len-modify, len-remove-le}
use war3_battle_tool.HashMap.Unique.{modify_fixed}
use war3_battle_tool.Server.State.{ConnectedPlayer, Room}
use war3_battle_tool.Server.State.Consistent.Hosting.{IsFreshRoom, open_room-IsConsistent}
use war3_battle_tool.Server.State.Consistent.Closing.{close_room-IsConsistent}
use war3_battle_tool.Server.Ws.{
  Session, Server, send, broadcast, new_room, host_in, host_nothing, hosted, handle_create_room,
  handle_close_room, is_barred,
}
use war3_battle_tool.Server.Ws.Keeps.{IsValid, Keeps, keeps, Keeps-all, Keeps-if, Keeps-option}
use war3_battle_tool.Server.Ws.Keeps.Players.{absent-modify}

module _ (room_id room_name map_name : String) (max_players : ℕ) (gameinfo : List ℕ) (s : Session)
    (w : Server) (v : IsValid w.app) (fresh : IsFreshRoom room_id w.app) (roomy : 2 ≤ max_players)
    (small : max_players ≤ 12) where
  opened-IsValid :
      (p : ConnectedPlayer)
      → get s.player_id w.app.players ≡ some p
      → is_some p.hosting_room ≡ false
      → leb 200 (len w.app.rooms) ≡ false
      → IsValid (record w.app {
        rooms =
            insert room_id
              (new_room room_id room_name map_name max_players gameinfo s.player_id p)
              w.app.rooms;
        players = modify s.player_id (host_in room_id) w.app.players;
      })
  unfolding new_room
  opened-IsValid p found free space =
      let room : Room = new_room room_id room_name map_name max_players gameinfo s.player_id p in
      record {
        consistent =
            open_room-IsConsistent s.player_id room_id p room w.app v.consistent found
              (ground arith) fresh refl refl refl (omega arith) small;
        players_bounded =
            omega
              (arith, len-modify s.player_id (host_in room_id) w.app.players, v.players_bounded);
        rooms_bounded = ground (arith, len-insert-le room_id room w.app.rooms);
      }

  pub handle_create_room-Keeps :
      Keeps s w (handle_create_room room_id room_name map_name max_players gameinfo s w)
  unfolding handle_create_room broadcast send
  handle_create_room-Keeps =
      Keeps-if s w (is_barred s) _ _ (λ barred. Keeps-all s w _ refl v)
        (λ known.
          Keeps-option s w (get s.player_id w.app.players) _ _ (λ missing. Keeps-all s w _ refl v)
            (λ p found.
              Keeps-if s w _ _ _ (λ busy. Keeps-all s w _ refl v)
                (λ free.
                  Keeps-if s w _ _ _ (λ full. Keeps-all s w _ refl v)
                    (λ space.
                      keeps s s w _ refl refl refl refl (opened-IsValid p found free space)
                        (λ j. absent-modify s.player_id j (host_in room_id) w.app)))))

module _ (s : Session) (w : Server) (v : IsValid w.app) where
  closed-IsValid :
      (p : ConnectedPlayer) (room_id : String)
      → get s.player_id w.app.players ≡ some p
      → p.hosting_room ≡ some room_id
      → IsValid (record w.app {
        rooms = remove room_id w.app.rooms;
        players = modify s.player_id host_nothing w.app.players;
      })
  closed-IsValid p room_id found hosts = record {
    consistent = close_room-IsConsistent s.player_id room_id p w.app v.consistent found hosts;
    players_bounded =
        omega (arith, len-modify s.player_id host_nothing w.app.players, v.players_bounded);
    rooms_bounded = omega (arith, len-remove-le room_id w.app.rooms, v.rooms_bounded);
  }

  hosted-some :
      (o : Option ConnectedPlayer) (room_id : String)
      → hosted o ≡ some room_id
      → (p : ConnectedPlayer) × (o ≡ some p) × (p.hosting_room ≡ some room_id)
  hosted-some none room_id h = cc
  hosted-some (some p) room_id h = (p, refl, h)

  unhosted :
      hosted (get s.player_id w.app.players) ≡ none
      → modify s.player_id host_nothing w.app.players ≡ w.app.players
  unhosted nothing =
      modify_fixed s.player_id host_nothing w.app.players v.consistent.players_unique
        (λ p found. ap (λ o. record p { hosting_room = o }) (sym (ap hosted (sym found) ∙ nothing)))

  pub handle_close_room-Keeps : Keeps s w (handle_close_room s w)
  unfolding handle_close_room broadcast
  handle_close_room-Keeps =
      Keeps-if s w (is_barred s) _ _ (λ barred. Keeps-all s w _ refl v)
        (λ known.
          Keeps-option s w (hosted (get s.player_id w.app.players)) _ _
            (λ nothing.
              keeps s s w _ refl refl refl refl (rw (unhosted nothing) v)
                (λ j. absent-modify s.player_id j host_nothing w.app))
            (λ room_id hosts.
              let (p, found, hosts') = hosted-some (get s.player_id w.app.players) room_id hosts in
              keeps s s w _ refl refl refl refl (closed-IsValid p room_id found hosts')
                (λ j. absent-modify s.player_id j host_nothing w.app)))
