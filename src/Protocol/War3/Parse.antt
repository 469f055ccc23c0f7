-- ===== src/Protocol/War3/Parse.antt =====
-- `parse_gameinfo` of war3.rs. Text is a list of code points; how `String::from_utf8_lossy` reads
-- bytes as text is a parameter.
use war3_battle_tool.Prelude.{
  ℕ, ◌+◌, List, Option, none, some, Checked, done, ◌>>=◌, length, ltb, ◌==◌, nat_eq, ◌&&◌,
  if◌then◌else◌,
}
use war3_battle_tool.Protocol.War3.Bytes.{index, slice_from, slice, position_zero}
use war3_battle_tool.Protocol.War3.Stat.{decode_stat_string}

pub record GameinfoFields : Type 0 where
  pub game_name : List ℕ
  pub map_path : Option (List ℕ)

module _ (from_utf8_lossy : List ℕ → List ℕ) where
  -- From the game name on.
  unfoldable pub parse_fields : List ℕ → Checked (Option GameinfoFields)
  parse_fields bytes = do
    rest ← slice_from bytes 20
    elim (position_zero rest) [
      | none ↦ done none
      | some name_end ↦ do
        name ← slice bytes 20 (20 + name_end)
        map_path ← decode_stat_string from_utf8_lossy bytes (20 + name_end + 2)
        done (some (record { game_name = from_utf8_lossy name; map_path = map_path }))
    ]

  unfoldable pub parse_gameinfo : List ℕ → Checked (Option GameinfoFields)
  unfolding parse_fields
  parse_gameinfo bytes = if ltb (length bytes) 21 then done none else do
    b0 ← index bytes 0
    b1 ← index bytes 1
    if b0 == 0xf7 && b1 == 0x30 then parse_fields bytes else done none
