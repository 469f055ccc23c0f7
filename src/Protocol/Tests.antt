-- ===== src/Protocol/Tests.antt =====
-- The theorems about crates/protocol at concrete inputs.
use war3_battle_tool.Prelude.{ℕ, ◌≡◌, ◌↔◌, refl, false, some, List, [], ◌∷◌, arith, done, Returns}
use war3_battle_tool.Protocol.AddrSafety.{v4, is_safe_external_addr}
use war3_battle_tool.Protocol.AddrSafety.Blocks.{IsRefusedV4, bits_v4, IsRefusedV4-iff}
use war3_battle_tool.Protocol.War3.Stat.{map_name}
use war3_battle_tool.Protocol.War3.Parse.{parse_gameinfo}
use war3_battle_tool.Protocol.War3.Total.{parse_gameinfo-Returns}
use war3_battle_tool.Protocol.War3.RoundTrip.{packet, plain_stat, parse_gameinfo-packet}

IsRefusedV4-iff_example :
    (is_safe_external_addr (v4 100 64 0 1) ≡ false) ↔ IsRefusedV4 (bits_v4 100 64 0 1)
IsRefusedV4-iff_example =
    IsRefusedV4-iff 100 64 0 1 (omega arith) (omega arith) (omega arith) (omega arith)

parse_gameinfo-Returns_example : Returns (parse_gameinfo (λ bytes. bytes) (0xf7 ∷ 0x30 ∷ []))
parse_gameinfo-Returns_example = parse_gameinfo-Returns (λ bytes. bytes) (0xf7 ∷ 0x30 ∷ [])

abbrev settings : List ℕ
settings = 0 ∷ 1 ∷ 2 ∷ 3 ∷ 4 ∷ 5 ∷ 6 ∷ 7 ∷ 8 ∷ 9 ∷ 10 ∷ 11 ∷ 12 ∷ []

abbrev header : List ℕ
header = 0 ∷ 0 ∷ 0 ∷ 0 ∷ 0 ∷ 0 ∷ 0 ∷ 0 ∷ 0 ∷ 0 ∷ 0 ∷ 0 ∷ 0 ∷ 0 ∷ 0 ∷ 0 ∷ 0 ∷ 0 ∷ []

parse_gameinfo-packet_example :
    parse_gameinfo
      (λ bytes. bytes)
      (packet header (71 ∷ []) 0 (plain_stat settings (77 ∷ 92 ∷ 65 ∷ []) []) [])
    ≡ done (some (record { game_name = 71 ∷ []; map_path = some (map_name (77 ∷ 92 ∷ 65 ∷ [])) }))
parse_gameinfo-packet_example =
    parse_gameinfo-packet (λ bytes. bytes) settings (77 ∷ 92 ∷ 65 ∷ []) [] refl
      (omega arith, (omega arith, (omega arith, tt))) header (71 ∷ []) 0 [] refl (omega arith, tt)
