-- ===== src/Server/Ws/Loop.antt =====
-- The receive loop of `handle_socket` in ws.rs, how the connection ends, and the periodic cleanup
-- of crates/server/src/main.rs.
use Prim.Native.String.{len}
use war3_battle_tool.Prelude.{
  ℕ, String, none, some, List, [], ◌∷◌, ltb, if◌then◌else◌, is_empty, ok, err,
}
use war3_battle_tool.Protocol.Messages.{
  ClientMessage, register, heartbeat, create_room, close_room, join_room, ping, upnp_mapped, error,
  validate,
}
use war3_battle_tool.Server.State.{AppState, remove_player, mark_disconnected, find_expired}
use war3_battle_tool.Server.Time.{Instant, from_secs}
use war3_battle_tool.Server.Tunnel.{cleanup_expired}
use war3_battle_tool.Server.Ws.{
  Env, Session, Server, send, broadcast, allow, max_message_size, handle_register, handle_heartbeat,
  handle_create_room, handle_close_room, handle_ping,
}
use war3_battle_tool.Server.Ws.Join.{handle_join_room}
use war3_battle_tool.Server.Ws.Upnp.{handle_upnp_mapped}

-- `fresh` is the identifier that `CreateRoom` and `JoinRoom` draw.
unfoldable pub dispatch :
    Env → Instant → String → ClientMessage → Session → Server → Session × Server
unfolding handle_register handle_heartbeat handle_create_room handle_close_room handle_ping
    handle_join_room handle_upnp_mapped
dispatch env now fresh (register nickname version _) s w =
    handle_register env now nickname version s w
dispatch env now fresh heartbeat s w = handle_heartbeat now s w
dispatch env now fresh (create_room room_name map_name max_players gameinfo) s w =
    handle_create_room fresh room_name map_name max_players gameinfo s w
dispatch env now fresh close_room s w = handle_close_room s w
dispatch env now fresh (join_room room_id) s w = handle_join_room env now fresh room_id s w
dispatch env now fresh (ping ts) s w = handle_ping ts s w
dispatch env now fresh (upnp_mapped external_addr tunnel_token) s w =
    handle_upnp_mapped env external_addr tunnel_token s w

-- A parsed message: refused with the text of `validate`, or handled.
unfoldable pub on_message :
    Env → Instant → String → ClientMessage → Session → Server → Session × Server
unfolding dispatch validate send
on_message env now fresh m s w = elim (validate m) [
  | ok _ ↦ dispatch env now fresh m s w
  | err e ↦ (s, send s.tx (error e) w)
]

-- A text frame: size, rate, syntax and fields are tested in this order.
unfoldable pub on_text : Env → Instant → String → String → Session → Server → Session × Server
unfolding on_message allow send
on_text env now fresh text s w =
    if ltb max_message_size (len text)
    then (s, send s.tx (error "訊息過大") w)
    else let (limiter, allowed) = allow now s.rate_limiter in
      let s' : Session = record s { rate_limiter = limiter } in
      if allowed
      then elim (env.parse_message text) [
        | none ↦ (s', send s.tx (error "無法解析訊息") w)
        | some m ↦ on_message env now fresh m s' w
      ]
      else (s', send s.tx (error "訊息發送太頻繁，請稍後再試") w)

-- After the loop, the send task or the web viewer's countdown has ended.
unfoldable pub on_end : Instant → Session → Server → Server
unfolding broadcast remove_player mark_disconnected
on_end now s w =
    if s.registered
    then broadcast (record w {
      app =
          if s.is_web_viewer
          then remove_player s.player_id w.app
          else mark_disconnected s.player_id now w.app;
    })
    else w

abbrev pub heartbeat_timeout : ℕ
heartbeat_timeout = from_secs 30

abbrev pub grace_period : ℕ
grace_period = from_secs 60

unfoldable pub remove_players : List String → AppState → AppState
unfolding remove_player
remove_players [] a = a
remove_players (id ∷ ids) a = remove_players ids (remove_player id a)

-- One tick of `spawn_cleanup_task`.
unfoldable pub on_cleanup_tick : Instant → Server → Server
unfolding cleanup_expired find_expired remove_players broadcast
on_cleanup_tick now w =
    let w1 : Server = record w { tunnel = cleanup_expired now w.tunnel } in
    let expired = find_expired now heartbeat_timeout grace_period w1.app in
    if is_empty expired then w1 else broadcast (record w1 { app = remove_players expired w1.app })
