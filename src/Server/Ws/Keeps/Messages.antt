-- ===== src/Server/Ws/Keeps/Messages.antt =====
-- Every message keeps the state valid, and so does a text frame.
use Prim.Native.String.{len as byte_len}
use war3_battle_tool.Prelude.{
  ltb, ◌≡◌, refl, String, false, none, string_eq, arith, Result, ok, err, not,
}
use war3_battle_tool.HashMap.{get}
use war3_battle_tool.Protocol.AddrSafety.{is_safe_external_addr}
use war3_battle_tool.Protocol.Messages.{
  ClientMessage, register, heartbeat, create_room, close_room, join_room, ping, upnp_mapped, error,
  validate,
}
use war3_battle_tool.Protocol.Messages.Validate.{IsAcceptable, validate-ok_iff}
use war3_battle_tool.Server.State.Consistent.Hosting.{IsFreshRoom}
use war3_battle_tool.Server.Time.{Instant}
use war3_battle_tool.Server.Tunnel.{lookup_upnp_pending}
use war3_battle_tool.Server.Ws.{
  Env, Session, Server, RateLimiter, send, is_barred, allow, max_message_size, handle_ping,
}
use war3_battle_tool.Server.Ws.Upnp.{forward_addr, handle_upnp_mapped}
use war3_battle_tool.Server.Ws.Loop.{dispatch, on_message, on_text}
use war3_battle_tool.Server.Ws.Keeps.{IsValid, Keeps, Keeps-all, Keeps-if, Keeps-option}
use war3_battle_tool.Server.Ws.Keeps.Players.{handle_register-Keeps, handle_heartbeat-Keeps}
use war3_battle_tool.Server.Ws.Keeps.Rooms.{handle_create_room-Keeps, handle_close_room-Keeps}
use war3_battle_tool.Server.Ws.Keeps.Joining.{handle_join_room-Keeps}

-- What a message finds: an identifier that no room has had, and no player under the id of a
-- connection that has not registered.
abbrev pub IsReady : String → Session → Server → Type 0
IsReady fresh s w =
    IsFreshRoom fresh w.app × (s.registered ≡ false → get s.player_id w.app.players ≡ none)

forward_addr-app :
    (external_addr id : String) (w : Server) → (forward_addr external_addr id w).app ≡ w.app
unfolding forward_addr send
forward_addr-app external_addr id w = ground arith

handle_upnp_mapped-Keeps :
    (env : Env) (external_addr token : String) (s : Session) (w : Server)
    → IsValid w.app
    → Keeps s w (handle_upnp_mapped env external_addr token s w)
unfolding handle_upnp_mapped
handle_upnp_mapped-Keeps env external_addr token s w v =
    Keeps-if s w (is_barred s) _ _ (λ barred. Keeps-all s w _ refl v)
      (λ known.
        Keeps-option s w (env.parse_socket_addr external_addr) _ _ (λ bad. Keeps-all s w _ refl v)
          (λ addr parsed.
            Keeps-if s w (not (is_safe_external_addr addr.ip)) _ _
              (λ unsafe. Keeps-all s w _ refl v)
              (λ safe.
                Keeps-option s w (lookup_upnp_pending token s.client_ip w.tunnel).1 _ _
                  (λ nobody. Keeps-all s w _ refl v)
                  (λ joiner found. Keeps-all s w _ (forward_addr-app external_addr joiner _) v))))

module _ (env : Env) (now : Instant) (fresh : String) (w : Server) (v : IsValid w.app) where
  dispatch-Keeps :
      (m : ClientMessage) (s : Session)
      → IsReady fresh s w
      → IsAcceptable m
      → Keeps s w (dispatch env now fresh m s w)
  unfolding dispatch handle_ping send
  dispatch-Keeps (register nickname version c) s r a =
      handle_register-Keeps env now nickname version s w v r.1
  dispatch-Keeps heartbeat s r a = handle_heartbeat-Keeps now s w v
  dispatch-Keeps (create_room room_name map_name max_players gameinfo) s r
        (a0, a1, a2, roomy, small, a3) =
      handle_create_room-Keeps fresh room_name map_name max_players gameinfo s w v r.0 roomy small
  dispatch-Keeps close_room s r a = handle_close_room-Keeps s w v
  dispatch-Keeps (join_room room_id) s r a = handle_join_room-Keeps env now fresh room_id s w v
  dispatch-Keeps (ping ts) s r a = Keeps-all s w _ refl v
  dispatch-Keeps (upnp_mapped external_addr token) s r a =
      handle_upnp_mapped-Keeps env external_addr token s w v

  validated-Keeps :
      (m : ClientMessage) (s : Session) (o : Result String (Unit {0}))
      → IsReady fresh s w
      → validate m ≡ o
      → Keeps s w
          (elim o [ ok _ ↦ dispatch env now fresh m s w | err e ↦ (s, send s.tx (error e) w) ])
  unfolding send
  validated-Keeps m s (ok tt) r h = dispatch-Keeps m s r ((validate-ok_iff m).0 h)
  validated-Keeps m s (err e) r h = Keeps-all s w _ refl v

  on_message-Keeps :
      (m : ClientMessage) (s : Session)
      → IsReady fresh s w
      → Keeps s w (on_message env now fresh m s w)
  unfolding on_message
  on_message-Keeps m s r = validated-Keeps m s (validate m) r refl

  -- The rate limiter is no part of what a handler keeps.
  limited :
      (s : Session) (limiter : RateLimiter) (out : Session × Server)
      → Keeps (record s { rate_limiter = limiter }) w out
      → Keeps s w out
  limited s limiter out k = record {
    same_id = k.same_id;
    still_registered = k.still_registered;
    same_ip = k.same_ip;
    same_connections = k.same_connections;
    valid = k.valid;
    absent = k.absent;
  }

  -- A text frame, whatever it says and whatever the handler of its message does, keeps the lobby
  -- consistent, with at most 500 players and 200 rooms; it adds no player but that of its own
  -- connection, and the connection keeps its id and its address. The identifier that the handler draws
  -- is new, and a connection that has not registered has no player.
  pub on_text-Keeps :
      (text : String) (s : Session) → IsReady fresh s w → Keeps s w (on_text env now fresh text s w)
  unfolding on_text send
  on_text-Keeps text s r =
      Keeps-if s w (ltb max_message_size (byte_len text)) _ _ (λ long. Keeps-all s w _ refl v)
        (λ short. limited s (allow now s.rate_limiter).0 _ (
          Keeps-if _ w (allow now s.rate_limiter).1 _ _
            (λ allowed.
              Keeps-option _ w (env.parse_message text) _ _ (λ bad. Keeps-all _ w _ refl v)
                (λ m parsed. on_message-Keeps m _ r))
            (λ busy. Keeps-all _ w _ refl v)))
