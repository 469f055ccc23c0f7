-- ===== src/Server/Ws/Keeps.antt =====
-- What each handler of ws.rs keeps: the state is consistent and within the server's limits, and no
-- player comes to be but the connection's own.
pub mod Players
pub mod Rooms
pub mod Joining
pub mod Messages
pub mod Leaving
use war3_battle_tool.Prelude.{
  ◌≤◌, ◌≡◌, refl, ap, ◌∙◌, String, Bool, true, false, Option, none, some, ◌⊎◌, inl, string_eq,
  if◌then◌else◌, by_if, by_option,
}
use war3_battle_tool.HashMap.{get, len}
use war3_battle_tool.Server.State.{AppState}
use war3_battle_tool.Server.State.Consistent.{IsConsistent}
use war3_battle_tool.Server.Ws.{Session, Server}

pub record IsValid (a : AppState) : Type 0 where
  pub consistent : IsConsistent a
  pub players_bounded : len a.players ≤ 500
  pub rooms_bounded : len a.rooms ≤ 200

-- A handler ran on `s` and `w` and left `out`.
pub record Keeps (s : Session) (w : Server) (out : Session × Server) : Type 0 where
  pub same_id : out.0.player_id ≡ s.player_id
  pub still_registered : s.registered ≡ true → out.0.registered ≡ true
  pub same_ip : out.0.client_ip ≡ s.client_ip
  pub same_connections : out.1.app.connections_per_ip ≡ w.app.connections_per_ip
  pub valid : IsValid out.1.app
  pub absent :
      (j : String)
      → get j w.app.players ≡ none
      → (get j out.1.app.players ≡ none) ⊎ ((j ≡ s.player_id) × (out.0.registered ≡ true))

-- The players stay who they are.
pub keeps :
    (s s' : Session) (w w' : Server)
    → s'.player_id ≡ s.player_id
    → s'.registered ≡ s.registered
    → s'.client_ip ≡ s.client_ip
    → w'.app.connections_per_ip ≡ w.app.connections_per_ip
    → IsValid w'.app
    → ((j : String) → get j w.app.players ≡ none → get j w'.app.players ≡ none)
    → Keeps s w (s', w')
keeps s s' w w' same same_registered ip connections valid absent = record {
  same_ip = ip;
  same_connections = connections;
  same_id = same;
  still_registered = λ h. same_registered ∙ h;
  valid = valid;
  absent = λ j h. inl (absent j h);
}

-- The state is what it was.
pub Keeps-all : (s : Session) (w w' : Server) → w'.app ≡ w.app → IsValid w.app → Keeps s w (s, w')
Keeps-all s w w' same v =
    keeps s s w w' refl refl refl (ap (λ a. a.connections_per_ip) same) (rw (same) v)
      (λ j h. rw (same) h)

module _ (s : Session) (w : Server) where
  pub Keeps-if :
      (b : Bool) (x y : Session × Server)
      → (b ≡ true → Keeps s w x)
      → (b ≡ false → Keeps s w y)
      → Keeps s w (if b then x else y)
  Keeps-if = by_if (Keeps s w)

  pub Keeps-option {ℓ} :
      {A : Type ℓ} (o : Option A) (x : Session × Server) (f : A → Session × Server)
      → (o ≡ none → Keeps s w x)
      → ((a : A) → o ≡ some a → Keeps s w (f a))
      → Keeps s w (elim o [ none ↦ x | some a ↦ f a ])
  Keeps-option = by_option (Keeps s w)
