-- ===== src/Server/Ws/Sections.antt =====
-- The `Register` arm of `handle_socket` in crates/server/src/ws.rs as the two sections in which it
-- holds a lock: the test of the number of players, and the insertion. Other connections may come
-- between the two.
use war3_battle_tool.Prelude.{
  ◌+◌, ◌<◌, ◌≡◌, refl, String, List, [], ◌∷◌, Option, none, some, Bool, true, false, All, length,
  leb, arith, ap, string_eq, by_if, if◌then◌else◌,
}
use war3_battle_tool.HashMap
use war3_battle_tool.HashMap.{HashMap, get, insert}
use war3_battle_tool.HashMap.Laws.{remove_absent}
use war3_battle_tool.Protocol.Messages.{ServerMessage, error, welcome, your_observed_addr}
use war3_battle_tool.Protocol.War3.{War3Version}
use war3_battle_tool.Server.State.{ConnectedPlayer}
use war3_battle_tool.Server.Time.{Instant}
use war3_battle_tool.Server.Ws.{
  Env, Session, Server, send, broadcast, set_players, new_player, registered_session,
  max_total_players, handle_register,
}

-- The refusal of the first section, under the read lock.
unfoldable pub register_refusal : Session → Server → Option ServerMessage
register_refusal s w =
    if s.registered
    then some (error "已經註冊過了")
    else if leb max_total_players (HashMap.len w.app.players)
    then some (error "伺服器已滿")
    else none

-- From the insertion on, under the write lock.
unfoldable pub register_enter :
    Env → Instant → String → War3Version → Session → Server → Session × Server
unfolding new_player registered_session send broadcast
register_enter env now nickname war3_version s w =
    let player = new_player now nickname war3_version s in
    let s' = registered_session now nickname s in
    let w1 = set_players (insert s.player_id player w.app.players) w in
    let w2 = send s.tx (welcome s.player_id) w1 in
    let w3 =
      if s'.is_web_viewer
      then w2
      else send s.tx (your_observed_addr (env.show_ip s.client_ip)) w2 in
    (s', broadcast w3)

-- Nothing between the two sections.
abbrev pub in_sections : Env → Instant → String → War3Version → Session → Server → Session × Server
in_sections env now nickname war3_version s w = elim (register_refusal s w) [
  | some m ↦ (s, send s.tx m w)
  | none ↦ register_enter env now nickname war3_version s w
]

-- A request to register, that has been let through by the first section.
pub record Registration : Type 0 where
  pub now : Instant
  pub nickname : String
  pub war3_version : War3Version
  pub session : Session

-- Two tests that refuse, one after the other.
tests_eq {ℓ} :
    {A : Type ℓ} (a b : Bool) (m n : ServerMessage) (refuse : ServerMessage → A) (go_on : A)
    → (if a then refuse m else if b then refuse n else go_on)
      ≡ elim (if a then some m else if b then some n else none) as (λ _. A) [
        | some x ↦ refuse x
        | none ↦ go_on
      ]
tests_eq true b m n refuse go_on = refl
tests_eq false true m n refuse go_on = refl
tests_eq false false m n refuse go_on = refl

len-insert_new :
    (k : String) (v : ConnectedPlayer) (m : HashMap String ConnectedPlayer)
    → get k m ≡ none
    → HashMap.len (insert k v m) ≡ HashMap.len m + 1
unfolding insert
len-insert_new k v m absent = ap (λ l. HashMap.len l + 1) (remove_absent k m absent)

module _ (env : Env) where
  abbrev pub enter_one : Registration → Server → Server
  enter_one r w = (register_enter env r.now r.nickname r.war3_version r.session w).1

  -- The second sections, one after the other.
  unfoldable pub enter_all : List Registration → Server → Server
  unfolding register_enter
  enter_all [] w = w
  enter_all (r ∷ requests) w = enter_all requests (enter_one r w)

  -- Each connection has its own identifier.
  abbrev pub AllNew : List Registration → Server → Type 0
  AllNew [] w = Unit
  AllNew (r ∷ requests) w =
      (get r.session.player_id w.app.players ≡ none) × AllNew requests (enter_one r w)

  -- The handler that runs as one step is its two sections with nothing between them.
  pub handle_register-eq-sections :
      (now : Instant) (nickname : String) (war3_version : War3Version) (s : Session) (w : Server)
      → handle_register env now nickname war3_version s w
        ≡ in_sections env now nickname war3_version s w
  unfolding handle_register register_enter register_refusal
  handle_register-eq-sections now nickname war3_version s w =
      tests_eq s.registered (leb max_total_players (HashMap.len w.app.players)) _ _
        (λ m. (s, send s.tx m w)) (register_enter env now nickname war3_version s w)

  len-enter_one :
      (r : Registration) (w : Server)
      → get r.session.player_id w.app.players ≡ none
      → HashMap.len (enter_one r w).app.players ≡ HashMap.len w.app.players + 1
  unfolding register_enter send broadcast
  len-enter_one r w absent =
      by_if (λ (w3 : Server). HashMap.len w3.app.players ≡ HashMap.len w.app.players + 1)
        (registered_session r.now r.nickname r.session).is_web_viewer _ _
        (λ _. len-insert_new _ _ w.app.players absent)
        (λ _. len-insert_new _ _ w.app.players absent)

  len-enter_all :
      (requests : List Registration) (w : Server)
      → AllNew requests w
      → HashMap.len (enter_all requests w).app.players ≡ HashMap.len w.app.players + length requests
  unfolding enter_all
  len-enter_all [] w h = omega arith
  len-enter_all (r ∷ requests) w h =
      omega (arith, len-enter_all requests (enter_one r w) h.1, len-enter_one r w h.0)

  let_in :
      (r : Registration) (w : Server)
      → r.session.registered ≡ false
      → HashMap.len w.app.players < 500
      → register_refusal r.session w ≡ none
  unfolding register_refusal
  let_in r w unregistered room = ground arith

  -- The limit of 500 players is tested in the first section only: any number of connections that test
  -- it on the same state, with one place left or more, are all let through, and once each has entered
  -- there is one more player for each of them.
  pub concurrent_registers-exceed :
      (requests : List Registration) (w : Server)
      → All (λ r. r.session.registered ≡ false) requests
      → HashMap.len w.app.players < 500
      → AllNew requests w
      → All (λ r. register_refusal r.session w ≡ none) requests
        × (HashMap.len (enter_all requests w).app.players
            ≡ HashMap.len w.app.players + length requests)
  unfolding register_refusal
  concurrent_registers-exceed requests w unregistered room new =
      (all_let requests unregistered, len-enter_all requests w new)
    where
      all_let :
          (requests : List Registration)
          → All (λ r. r.session.registered ≡ false) requests
          → All (λ r. register_refusal r.session w ≡ none) requests
      all_let [] h = tt
      all_let (r ∷ requests) h = (let_in r w h.0 room, all_let requests h.1)
