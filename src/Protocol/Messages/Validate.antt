-- ===== src/Protocol/Messages/Validate.antt =====
-- What `ClientMessage::validate` accepts.
use Prim.Native.String.{count, len}
use war3_battle_tool.Prelude.{
  ◌≤◌, ◌≡◌, ◌↔◌, String, true, All, arith, length, is_empty_iff, trim-eq-nil_iff, codes, trim,
  is_whitespace, ok,
}
use war3_battle_tool.Protocol.Messages.{
  ClientMessage, register, create_room, join_room, upnp_mapped, heartbeat, close_room, ping,
  is_blank, validate,
}

-- The limits of messages.rs, as conditions on the fields.
abbrev pub IsBlank : String → Type 0
IsBlank s = All (λ c. is_whitespace c ≡ true) (codes s)

abbrev pub IsAcceptable : ClientMessage → Type 0
IsAcceptable (register nickname war3_version client_version) =
    (count nickname ≤ 32) × (¬ IsBlank nickname)
IsAcceptable (create_room room_name map_name max_players gameinfo) =
    (count room_name ≤ 64)
    × (¬ IsBlank room_name)
    × (count map_name ≤ 128)
    × (2 ≤ max_players)
    × (max_players ≤ 12)
    × (length gameinfo ≤ 1024)
IsAcceptable (join_room room_id) = len room_id ≤ 64
IsAcceptable (upnp_mapped external_addr tunnel_token) =
    (len external_addr ≤ 64) × (¬ IsBlank external_addr) × (¬ IsBlank tunnel_token)
IsAcceptable _ = Unit

is_blank_iff : (s : String) → (is_blank s ≡ true) ↔ IsBlank s
is_blank_iff s = ground (arith, is_empty_iff (trim (codes s)), trim-eq-nil_iff (codes s))

-- `validate` accepts exactly the messages whose fields are within the limits of messages.rs, with
-- names and addresses that are not blank.
pub validate-ok_iff : (m : ClientMessage) → (validate m ≡ ok tt) ↔ IsAcceptable m
unfolding validate
validate-ok_iff (register nickname v c) = ground (arith, is_blank_iff nickname)
validate-ok_iff (create_room r m n g) = ground (arith, is_blank_iff r)
validate-ok_iff (join_room r) = ground arith
validate-ok_iff (upnp_mapped e t) = ground (arith, is_blank_iff e, is_blank_iff t)
validate-ok_iff heartbeat = ground arith
validate-ok_iff close_room = ground arith
validate-ok_iff (ping t) = ground arith
