-- ===== src/Server/Ws/Join/Reserving.antt =====
-- Joiners of one room that come at the same time: Step 3 of `JoinRoom` in crates/server/src/ws.rs tests
-- and takes a place under one lock, so their reservations follow each other.
use war3_battle_tool.Prelude.{
  ℕ, zero, suc, ◌+◌, ◌-◌, ◌≡◌, ◌≤◌, refl, sym, subst, String, Bool, true, false, some, arith, bit,
  min, string_eq, leb, eq_iff, Bool-cases, inl, inr,
}
use war3_battle_tool.HashMap.{HashMap, get, modify}
use war3_battle_tool.HashMap.Laws.{get-modify}
use war3_battle_tool.Server.State.{Room}
use war3_battle_tool.Server.Ws.Join.{enter, try_reserve}

-- So many reservations in a row, and how many of them succeed.
unfoldable pub reserve_all : ℕ → String → HashMap String Room → HashMap String Room × ℕ
unfolding try_reserve
reserve_all zero room_id rooms = (rooms, 0)
reserve_all (suc n) room_id rooms =
    let (rooms', reserved) = try_reserve room_id rooms in
    let (rooms'', more) = reserve_all n room_id rooms' in (rooms'', bit reserved + more)

module _ (room_id : String) where
  full :
      (rooms : HashMap String Room) (r : Room)
      → get room_id rooms ≡ some r
      → r.max_players ≤ r.current_players
      → try_reserve room_id rooms ≡ (rooms, false)
  unfolding try_reserve
  full rooms r found h = ground arith

  reserved :
      (rooms : HashMap String Room) (r : Room)
      → get room_id rooms ≡ some r
      → r.current_players + 1 ≤ r.max_players
      → try_reserve room_id rooms ≡ (modify room_id enter rooms, true)
  unfolding try_reserve
  reserved rooms r found h = ground arith

  -- What so many reservations leave of a room, and how many succeed.
  pub record Reserved (n : ℕ) (r : Room) (out : HashMap String Room × ℕ) : Type 0 where
    pub room : Room
    pub found : get room_id out.0 ≡ some room
    pub counted : room.current_players ≡ r.current_players + out.1
    pub same_limit : room.max_players ≡ r.max_players
    pub got_in : out.1 ≡ min n (r.max_players - r.current_players)

  abbrev after : ℕ → HashMap String Room × Bool → HashMap String Room × ℕ
  after n tried =
      ((reserve_all n room_id tried.0).0, bit tried.1 + (reserve_all n room_id tried.0).1)

  -- However many joiners reserve a place in a room at the same time, as many get in as there are places,
  -- or all of them; the room counts them, and never more than its limit.
  reserve_all-Reserved :
      (n : ℕ) (rooms : HashMap String Room) (r : Room)
      → get room_id rooms ≡ some r
      → r.current_players ≤ r.max_players
      → r.max_players ≤ 12
      → Reserved n r (reserve_all n room_id rooms)
  unfolding reserve_all
  reserve_all-Reserved zero rooms r found fits small = record {
    room = r;
    found = found;
    counted = omega arith;
    same_limit = refl;
    got_in = ground arith;
  }
  reserve_all-Reserved (suc n) rooms r found fits small =
      elim (Bool-cases (leb r.max_players r.current_players)) [
        | inl at_limit ↦
            let o = reserve_all-Reserved n rooms r found fits small in
            subst (λ t. Reserved (suc n) r (after n t)) (sym (full rooms r found (ground arith)))
              (record {
                room = o.room;
                found = o.found;
                counted = ground (arith, o.counted);
                same_limit = o.same_limit;
                got_in = ground (arith, o.got_in);
              })
        | inr free ↦
            let o =
              reserve_all-Reserved n (modify room_id enter rooms) (enter r)
                (ground (arith, get-modify room_id room_id enter rooms, eq_iff room_id room_id))
                (ground arith) small in
            subst (λ t. Reserved (suc n) r (after n t))
              (sym (reserved rooms r found (ground arith)))
              (record {
                room = o.room;
                found = o.found;
                counted = ground (arith, o.counted);
                same_limit = o.same_limit;
                got_in = ground (arith, o.got_in);
              })
      ]
