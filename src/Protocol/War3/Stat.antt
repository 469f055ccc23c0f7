-- ===== src/Protocol/War3/Stat.antt =====
-- `decode_stat_string` of war3.rs: groups of a mask byte and up to seven data bytes.
use mathlib.Core.Option
use war3_battle_tool.Prelude.{
  ℕ, ◌+◌, ◌-◌, ◌/◌, ◌%◌, ◌^◌, List, [], ◌∷◌, Option, none, some, Checked, done, panic, ◌>>=◌,
  length, is_empty, leb, ltb, ◌==◌, nat_eq, if◌then◌else◌, Bool, codes,
}
use war3_battle_tool.Protocol.War3.Bytes.{
  slice_from, slice, position_zero, rsplit_once, trim_end_matches,
}

-- `mask & (1 << bit) != 0`
abbrev pub test_bit : ℕ → ℕ → Bool
test_bit mask bit = mask / 2 ^ bit % 2 == 1

-- `0u8 - 1` panics where overflow is checked.
unfoldable pub decode_byte : ℕ → ℕ → ℕ → Checked ℕ
decode_byte mask bit b =
    if test_bit mask bit then done b else if b == 0 then panic else done (b - 1)

abbrev pub group_bits : List ℕ
group_bits = 1 ∷ 2 ∷ 3 ∷ 4 ∷ 5 ∷ 6 ∷ 7 ∷ []

-- Both loops: the bits are those that `for bit in 1..8` has left; with none left the next byte is
-- the mask of another group.
unfoldable pub decode_loop : ℕ → List ℕ → List ℕ → Checked (List ℕ)
unfolding decode_byte
decode_loop mask bits [] = done []
decode_loop mask [] (b ∷ encoded) = decode_loop b group_bits encoded
decode_loop mask (bit ∷ bits) (b ∷ encoded) = do
  x ← decode_byte mask bit b
  xs ← decode_loop mask bits encoded
  done (x ∷ xs)

unfoldable pub decode_groups : List ℕ → Checked (List ℕ)
unfolding decode_loop
decode_groups encoded = decode_loop 0 [] encoded

backslash : ℕ
backslash = 92

-- The file name of a map path, without its extension.
unfoldable pub map_name : List ℕ → List ℕ
unfolding backslash rsplit_once trim_end_matches
map_name path =
    let file : List ℕ = elim (rsplit_once backslash path) [ none ↦ path | some (l, name) ↦ name ] in
    trim_end_matches (codes ".w3m") (trim_end_matches (codes ".w3x") file)

module _ (from_utf8_lossy : List ℕ → List ℕ) where
  -- The map's name in the decoded settings: 13 bytes of settings, then the null-terminated path.
  unfoldable pub decoded_map_name : List ℕ → Checked (Option (List ℕ))
  decoded_map_name decoded = if ltb (length decoded) 14 then done none else do
    rest ← slice_from decoded 13
    let map_end = Option.get_or (position_zero rest) (length decoded - 13)
    raw ← slice decoded 13 (13 + map_end)
    done (some (map_name (from_utf8_lossy raw)))

  unfoldable pub decode_stat_string : List ℕ → ℕ → Checked (Option (List ℕ))
  unfolding decoded_map_name
  decode_stat_string bytes start = if leb (length bytes) start then done none else do
    tail ← slice_from bytes start
    elim (position_zero tail) [
      | none ↦ done none
      | some stat_end ↦ do
        encoded ← slice bytes start (start + stat_end)
        if is_empty encoded
            then done none
            else do decoded ← decode_groups encoded; decoded_map_name decoded
    ]
