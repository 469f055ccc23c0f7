-- ===== src/Protocol/War3/Total.antt =====
-- `parse_gameinfo` panics on no input: every index, slice and subtraction is in range.
use mathlib.Core.Option
use war3_battle_tool.Prelude.{
  ℕ, zero, suc, ◌+◌, ◌-◌, ◌≤◌, ◌<◌, ◌≡◌, refl, List, [], ◌∷◌, none, some, done, subst, Returns,
  Returns-bind, Returns-if, Returns-option, ◌&&◌, All, arith, length, length-drop, take, drop, ltb,
  leb, inl, inr, Option-cases, is_empty, ◌==◌, nat_eq, if◌then◌else◌,
}
use war3_battle_tool.Protocol.War3.Bytes.{index, slice_from, slice, position_zero}
use war3_battle_tool.Protocol.War3.Stat.{
  test_bit, decode_byte, decode_loop, decode_groups, decoded_map_name, decode_stat_string,
}
use war3_battle_tool.Protocol.War3.Parse.{parse_fields, parse_gameinfo}

pub position_zero-lt : (xs : List ℕ) (n : ℕ) → position_zero xs ≡ some n → n < length xs
unfolding position_zero
position_zero-lt [] n h = cc
position_zero-lt (x ∷ xs) zero h = omega arith
position_zero-lt (x ∷ xs) (suc n) h = ground (arith, position_zero-lt xs n)

-- The bytes before the first zero.
before_zero : (xs : List ℕ) (n : ℕ) → position_zero xs ≡ some n → All (λ b. 0 < b) (take n xs)
unfolding position_zero
before_zero [] n h = cc
before_zero (x ∷ xs) zero h = tt
before_zero (x ∷ xs) (suc n) h = ground (arith, before_zero xs n)

slice_from-Returns : (xs : List ℕ) (a : ℕ) → a ≤ length xs → slice_from xs a ≡ done (drop a xs)
unfolding slice_from
slice_from-Returns xs a h = ground arith

slice-Returns :
    (xs : List ℕ) (a b : ℕ) → a ≤ b → b ≤ length xs → slice xs a b ≡ done (take (b - a) (drop a xs))
unfolding slice
slice-Returns xs a b h k = ground arith

-- What lies before the first zero of a tail is in range.
pub found_slice :
    (xs : List ℕ) (a : ℕ) (tail : List ℕ) (n : ℕ)
    → slice_from xs a ≡ done tail
    → position_zero tail ≡ some n
    → slice xs a (a + n) ≡ done (take n tail)
unfolding slice_from slice
found_slice xs a tail n e found =
    let offset : a + n - a ≡ n = omega arith in
    rw offset (ground (arith, position_zero-lt tail n found, length-drop a xs))

encoded_positive :
    (xs : List ℕ) (a : ℕ) (tail : List ℕ) (n : ℕ) (encoded : List ℕ)
    → slice_from xs a ≡ done tail
    → position_zero tail ≡ some n
    → slice xs a (a + n) ≡ done encoded
    → All (λ b. 0 < b) encoded
encoded_positive xs a tail n encoded e found e' =
    let same : take n tail ≡ encoded = cc (found_slice xs a tail n e found) in
    subst (All (λ b. 0 < b)) same (before_zero tail n found)

map_end_fits :
    (decoded rest : List ℕ)
    → 14 ≤ length decoded
    → slice_from decoded 13 ≡ done rest
    → 13 + Option.get_or (position_zero rest) (length decoded - 13) ≤ length decoded
unfolding slice_from
map_end_fits decoded rest h e = elim (Option-cases (position_zero rest)) [
  | inl missing ↦ rw missing (omega arith)
  | inr (n, found) ↦
      rw found (ground (arith, position_zero-lt rest n found, length-drop 13 decoded))
]

decode_byte-Returns : (mask bit b : ℕ) → 0 < b → Returns (decode_byte mask bit b)
unfolding decode_byte
decode_byte-Returns mask bit b h = (if test_bit mask bit then b else b - 1, ground arith)

decode_loop-Returns :
    (mask : ℕ) (bits encoded : List ℕ)
    → All (λ b. 0 < b) encoded
    → Returns (decode_loop mask bits encoded)
unfolding decode_loop
decode_loop-Returns mask bits [] h = ([], refl)
decode_loop-Returns mask [] (b ∷ encoded) h = decode_loop-Returns b _ encoded h.1
decode_loop-Returns mask (bit ∷ bits) (b ∷ encoded) h =
    Returns-bind (decode_byte mask bit b) _ (decode_byte-Returns mask bit b h.0) λ x _.
      Returns-bind (decode_loop mask bits encoded) _ (decode_loop-Returns mask bits encoded h.1)
        λ xs _. (x ∷ xs, refl)

module _ (from_utf8_lossy : List ℕ → List ℕ) where
  decoded_map_name-Returns : (decoded : List ℕ) → Returns (decoded_map_name from_utf8_lossy decoded)
  unfolding decoded_map_name
  decoded_map_name-Returns decoded =
      Returns-if (ltb (length decoded) 14) _ _ (λ _. (none, refl))
        λ long.
          Returns-bind (slice_from decoded 13) _ (_, slice_from-Returns decoded 13 (ground arith))
            λ rest e.
              Returns-bind (slice decoded 13 _) _
                (
                  _,
                  slice-Returns decoded 13 _ (omega arith)
                      (map_end_fits decoded rest (ground arith) e),
                )
                λ raw _. (_, refl)

  decode_stat_string-Returns :
      (bytes : List ℕ) (start : ℕ) → Returns (decode_stat_string from_utf8_lossy bytes start)
  unfolding decode_stat_string decode_groups
  decode_stat_string-Returns bytes start =
      Returns-if (leb (length bytes) start) _ _ (λ _. (none, refl))
        λ inside.
          Returns-bind (slice_from bytes start) _ (_, slice_from-Returns bytes start (ground arith))
            λ tail e.
              Returns-option (position_zero tail) _ _ (λ _. (none, refl))
                λ stat_end found.
                  Returns-bind (slice bytes start (start + stat_end)) _
                    (_, found_slice bytes start tail stat_end e found)
                    λ encoded e'.
                      Returns-if (is_empty encoded) _ _ (λ _. (none, refl))
                        λ _.
                          Returns-bind (decode_groups encoded) _
                            (decode_loop-Returns 0 [] encoded
                              (encoded_positive bytes start tail stat_end encoded e found e'))
                            λ decoded _. decoded_map_name-Returns decoded

  parse_fields-Returns :
      (bytes : List ℕ) → 21 ≤ length bytes → Returns (parse_fields from_utf8_lossy bytes)
  unfolding parse_fields
  parse_fields-Returns bytes h =
      Returns-bind (slice_from bytes 20) _ (_, slice_from-Returns bytes 20 (omega arith))
        λ rest e.
          Returns-option (position_zero rest) _ _ (λ _. (none, refl))
            λ name_end found.
              Returns-bind (slice bytes 20 (20 + name_end)) _
                (_, found_slice bytes 20 rest name_end e found)
                λ name _.
                  Returns-bind (decode_stat_string from_utf8_lossy bytes (20 + name_end + 2)) _
                    (decode_stat_string-Returns bytes (20 + name_end + 2)) λ map_path _. (_, refl)

  -- On every packet, of any bytes and any length, the parser returns: no index or slice is out of
  -- range, and no byte falls below 0.
  pub parse_gameinfo-Returns : (bytes : List ℕ) → Returns (parse_gameinfo from_utf8_lossy bytes)
  unfolding parse_gameinfo index
  parse_gameinfo-Returns [] = (none, refl)
  parse_gameinfo-Returns (x ∷ []) = (none, refl)
  parse_gameinfo-Returns (x ∷ y ∷ bytes) =
      Returns-if (ltb (length (x ∷ y ∷ bytes)) 21) _ _ (λ _. (none, refl))
        λ long.
          Returns-if (x == 0xf7 && y == 0x30) _ _
            (λ _. parse_fields-Returns (x ∷ y ∷ bytes) (ground arith)) (λ _. (none, refl))
