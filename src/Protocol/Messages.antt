-- ===== src/Protocol/Messages.antt =====
-- crates/protocol/src/messages.rs: the messages of both directions and `ClientMessage::validate`.
pub mod Validate
use Prim.Native.String.{count, len}
use war3_battle_tool.Prelude.{
  ℕ, String, Bool, Option, none, List, ltb, length, is_empty, ◌||◌, if◌then◌else◌, codes, trim,
  Result, ok, err, false,
}
use war3_battle_tool.Protocol.War3.{War3Version}

abbrev pub max_nickname_len : ℕ
max_nickname_len = 32

abbrev pub max_room_name_len : ℕ
max_room_name_len = 64

abbrev pub max_map_name_len : ℕ
max_map_name_len = 128

abbrev pub max_gameinfo_len : ℕ
max_gameinfo_len = 1024

abbrev pub max_external_addr_len : ℕ
max_external_addr_len = 64

pub data ClientMessage : Type 0 where
  -- nickname, war3_version, client_version
  register : String → War3Version → Option String → ClientMessage
  heartbeat : ClientMessage
  -- room_name, map_name, max_players, gameinfo
  create_room : String → String → ℕ → List ℕ → ClientMessage
  close_room : ClientMessage
  -- room_id
  join_room : String → ClientMessage
  -- ts
  ping : ℕ → ClientMessage
  -- external_addr, tunnel_token
  upnp_mapped : String → String → ClientMessage

pub record PlayerInfo : Type 0 where
  pub player_id : String
  pub nickname : String
  pub war3_version : War3Version
  pub is_hosting : Bool

pub record RoomInfo : Type 0 where
  pub room_id : String
  pub host_nickname : String
  pub room_name : String
  pub map_name : String
  pub max_players : ℕ
  pub current_players : ℕ
  pub war3_version : War3Version

pub data ServerMessage : Type 0 where
  -- player_id
  welcome : String → ServerMessage
  player_update : List PlayerInfo → ServerMessage
  room_update : List RoomInfo → ServerMessage
  -- success, room_id, tunnel_token, gameinfo
  join_result : Bool → Option String → Option String → Option (List ℕ) → ServerMessage
  -- nickname, tunnel_token
  player_joined : String → String → ServerMessage
  -- tunnel_token
  tunnel_ready : String → ServerMessage
  -- peer_addr
  stun_info : String → ServerMessage
  -- ts
  pong : ℕ → ServerMessage
  -- external_addr
  peer_upnp_addr : String → ServerMessage
  -- ip
  your_observed_addr : String → ServerMessage
  -- message
  error : String → ServerMessage
  unknown : ServerMessage

unfoldable pub join_failure : ServerMessage
join_failure = join_result false none none none

-- `s.trim().is_empty()`
abbrev pub is_blank : String → Bool
is_blank s = is_empty (trim (codes s))

-- `s.chars().count()` is `count s`, and `s.len()`, in bytes, is `len s`.
unfoldable pub validate : ClientMessage → Result String (Unit {0})
validate (register nickname war3_version client_version) =
    if ltb max_nickname_len (count nickname)
    then err "暱稱超過長度限制"
    else if is_blank nickname
    then err "暱稱不能為空"
    else ok tt
validate (create_room room_name map_name max_players gameinfo) =
    if ltb max_room_name_len (count room_name)
    then err "房間名稱超過長度限制"
    else if is_blank room_name
    then err "房間名稱不能為空"
    else if ltb max_map_name_len (count map_name)
    then err "地圖名稱超過長度限制"
    else if ltb max_players 2 || ltb 12 max_players
    then err "玩家數量必須在 2-12 之間"
    else if ltb max_gameinfo_len (length gameinfo)
    then err "GAMEINFO 超過大小限制"
    else ok tt
validate (join_room room_id) = if ltb 64 (len room_id) then err "room_id 超過長度限制" else ok tt
validate (upnp_mapped external_addr tunnel_token) =
    if ltb max_external_addr_len (len external_addr)
    then err "external_addr 超過長度限制"
    else if is_blank external_addr
    then err "external_addr 不能為空"
    else if is_blank tunnel_token
    then err "tunnel_token 不能為空"
    else ok tt
validate _ = ok tt
