-- ===== src/Protocol/War3/RoundTrip.antt =====
-- War3's own encoding of the game settings, which the comments of war3.rs describe, and that
-- `parse_gameinfo` reads it back.
use mathlib.Core.List.{append_assoc}
use mathlib.Core.Option
use war3_battle_tool.Prelude.{
  ℕ, ◌+◌, ◌-◌, ◌*◌, ◌/◌, ◌%◌, ◌^◌, ◌≤◌, ◌<◌, ◌≡◌, refl, List, [], ◌∷◌, ◌++◌, map, some, done, All,
  arith, length, length-append, drop, take-length, drop-length, leb, ◌==◌, ltb, sym, subst, ap,
  >>=-done, elim-some, if-false, is_empty, nat_eq, false, if◌then◌else◌,
}
use war3_battle_tool.Protocol.War3.Bytes.{index, slice_from, slice, position_zero}
use war3_battle_tool.Protocol.War3.Stat.{
  decode_byte, decode_loop, decode_groups, group_bits, decoded_map_name, decode_stat_string,
  map_name,
}
use war3_battle_tool.Protocol.War3.Parse.{parse_fields, parse_gameinfo}

-- An odd byte stands as it is under a set bit; an even one is raised by one under a clear bit.
abbrev pub encode_byte : ℕ → ℕ
encode_byte b = if b % 2 == 1 then b else b + 1

abbrev pub mask_from : ℕ → List ℕ → ℕ
mask_from weight [] = 0
mask_from weight (b ∷ bs) = b % 2 * weight + mask_from (2 * weight) bs

abbrev pub encode_group : List ℕ → List ℕ
encode_group g = (1 + mask_from 2 g) ∷ map encode_byte g

unfoldable pub encode : List ℕ → List ℕ
encode [] = []
encode (a ∷ b ∷ c ∷ d ∷ e ∷ f ∷ g ∷ rest) =
    encode_group (a ∷ b ∷ c ∷ d ∷ e ∷ f ∷ g ∷ []) ++ encode rest
encode (a ∷ rest) = encode_group (a ∷ rest)

-- The mask has the bit of each byte.
abbrev Agrees : ℕ → List ℕ → List ℕ → Type 0
Agrees mask bits [] = Unit
Agrees mask [] (x ∷ xs) = ⊥
Agrees mask (bit ∷ bits) (x ∷ xs) = (mask / 2 ^ bit % 2 ≡ x % 2) × Agrees mask bits xs

decode_byte-encode_byte :
    (mask bit x : ℕ) → mask / 2 ^ bit % 2 ≡ x % 2 → decode_byte mask bit (encode_byte x) ≡ done x
unfolding decode_byte
decode_byte-encode_byte mask bit x h = ground arith

-- The data bytes of one group, with any bytes after them.
decode_loop-group :
    (mask : ℕ) (bits g encoded ys : List ℕ)
    → Agrees mask bits g
    → decode_loop mask (drop (length g) bits) encoded ≡ done ys
    → decode_loop mask bits (map encode_byte g ++ encoded) ≡ done (g ++ ys)
unfolding decode_loop
decode_loop-group mask bits [] encoded ys h r = r
decode_loop-group mask [] (x ∷ g) encoded ys h r = absurd h
decode_loop-group mask (bit ∷ bits) (x ∷ g) encoded ys h r =
    rw (decode_byte-encode_byte mask bit x h.0, decode_loop-group mask bits g encoded ys h.1 r) refl

-- The two loops of the decoder, from any mask, read back any bytes that were encoded in groups of
-- seven after a mask.
pub decode_loop-encode : (mask : ℕ) (xs : List ℕ) → decode_loop mask [] (encode xs) ≡ done xs
unfolding encode decode_loop
decode_loop-encode mask [] = refl
decode_loop-encode mask (a ∷ b ∷ c ∷ d ∷ e ∷ f ∷ g ∷ rest) =
    let group : List ℕ = a ∷ b ∷ c ∷ d ∷ e ∷ f ∷ g ∷ [] in
    decode_loop-group (1 + mask_from 2 group) group_bits group (encode rest) rest (omega arith)
      (decode_loop-encode (1 + mask_from 2 group) rest)
decode_loop-encode mask (a ∷ rest) =
    decode_loop-group (1 + mask_from 2 (a ∷ rest)) group_bits (a ∷ rest) [] [] (omega arith) refl

encode_byte-pos : (g : List ℕ) → All (λ b. 0 < b) (map encode_byte g)
encode_byte-pos [] = tt
encode_byte-pos (x ∷ g) = (ground arith, encode_byte-pos g)

All-append {ℓ κ} :
    {A : Type ℓ} (P : A → Type κ) (xs ys : List A) → All P xs → All P ys → All P (xs ++ ys)
All-append P [] ys h k = k
All-append P (x ∷ xs) ys h k = (h.0, All-append P xs ys h.1 k)

-- No encoded byte is zero, so the zero after the settings ends them.
pub encode-pos : (xs : List ℕ) → All (λ b. 0 < b) (encode xs)
unfolding encode
encode-pos [] = tt
encode-pos (a ∷ b ∷ c ∷ d ∷ e ∷ f ∷ g ∷ rest) =
    let group : List ℕ = a ∷ b ∷ c ∷ d ∷ e ∷ f ∷ g ∷ [] in
    (
      omega arith,
      All-append (λ b. 0 < b) (map encode_byte group) (encode rest) (encode_byte-pos group)
          (encode-pos rest),
    )
encode-pos (a ∷ rest) = (omega arith, encode_byte-pos (a ∷ rest))

position_zero-append :
    (xs ys : List ℕ) → All (λ b. 0 < b) xs → position_zero (xs ++ 0 ∷ ys) ≡ some (length xs)
unfolding position_zero
position_zero-append [] ys h = refl
position_zero-append (x ∷ xs) ys h = ground (arith, position_zero-append xs ys h.1)

slice_from-append : (xs ys : List ℕ) (a : ℕ) → a ≡ length xs → slice_from (xs ++ ys) a ≡ done ys
unfolding slice_from
slice_from-append xs ys a h = ground (arith, length-append xs ys, drop-length xs ys a h)

slice-append :
    (xs ys zs : List ℕ) (a b : ℕ)
    → a ≡ length xs
    → b ≡ a + length ys
    → slice (xs ++ (ys ++ zs)) a b ≡ done ys
unfolding slice
slice-append xs ys zs a b h k = ground (
  arith,
  length-append xs (ys ++ zs),
  length-append ys zs,
  drop-length xs (ys ++ zs) a h,
  take-length ys zs (b - a) (omega arith),
)

encode_nonempty : (xs : List ℕ) → 0 < length xs → is_empty (encode xs) ≡ false
unfolding encode
encode_nonempty [] h = absurd (omega arith)
encode_nonempty (a ∷ b ∷ c ∷ d ∷ e ∷ f ∷ g ∷ rest) h = refl
encode_nonempty (a ∷ rest) h = refl

-- The settings, the path of the map and what follows it, before they are encoded.
abbrev pub plain_stat : List ℕ → List ℕ → List ℕ → List ℕ
plain_stat settings path trailer = settings ++ (path ++ (0 ∷ trailer))

-- A GAMEINFO packet, from its parts.
abbrev pub packet : List ℕ → List ℕ → ℕ → List ℕ → List ℕ → List ℕ
packet header name separator stat rest =
    (0xf7 ∷ 0x30 ∷ header) ++ (name ++ (0 ∷ separator ∷ (encode stat ++ (0 ∷ rest))))

module _ (from_utf8_lossy : List ℕ → List ℕ) (settings path trailer : List ℕ)
    (settings_length : length settings ≡ 13) (no_zero : All (λ b. 0 < b) path) where
  stat_length : 14 ≤ length (plain_stat settings path trailer)
  stat_length =
      omega
        (arith, length-append settings (path ++ (0 ∷ trailer)), length-append path (0 ∷ trailer))

  decoded_map_name-plain_stat :
      decoded_map_name from_utf8_lossy (plain_stat settings path trailer)
      ≡ done (some (map_name (from_utf8_lossy path)))
  unfolding decoded_map_name
  decoded_map_name-plain_stat =
      let stat : List ℕ = plain_stat settings path trailer in
      let long : ltb (length (plain_stat settings path trailer)) 14 ≡ false =
        ground (arith, stat_length) in
      let end : Option.get_or (position_zero (path ++ (0 ∷ trailer))) (length stat - 13)
          ≡ length path =
        rw (position_zero-append path trailer no_zero) in
      if-false _ _ _ long (
        >>=-done _ _ (slice_from-append settings (path ++ (0 ∷ trailer)) 13 (sym settings_length)) (
          >>=-done _ _
            (slice-append settings path (0 ∷ trailer) 13 _ (sym settings_length)
              (ap (λ n. 13 + n) end))
            refl))

  decode_stat_string-encode :
      (before rest : List ℕ) (start : ℕ)
      → start ≡ length before
      → decode_stat_string from_utf8_lossy
          (before ++ (encode (plain_stat settings path trailer) ++ (0 ∷ rest)))
          start
        ≡ done (some (map_name (from_utf8_lossy path)))
  unfolding decode_stat_string decode_groups
  decode_stat_string-encode before rest start h =
      let stat : List ℕ = plain_stat settings path trailer in
      let bytes : List ℕ = before ++ (encode stat ++ (0 ∷ rest)) in
      let inside : leb (length bytes) start ≡ false = ground (
        arith,
        length-append before (encode stat ++ (0 ∷ rest)),
        length-append (encode stat) (0 ∷ rest),
      ) in
      if-false _ _ _ inside (
        >>=-done _ _ (slice_from-append before (encode stat ++ (0 ∷ rest)) start h) (
          elim-some _ _ _ (position_zero-append (encode stat) rest (encode-pos stat)) (
            >>=-done _ _ (slice-append before (encode stat) (0 ∷ rest) start _ h refl) (
              if-false _ _ _ (encode_nonempty stat (omega (arith, stat_length)))
                (>>=-done _ _ (decode_loop-encode 0 stat) decoded_map_name-plain_stat)))))

  -- A packet of the documented layout is read as its name and the name of its map: the tag and 18
  -- bytes, a name that holds no null and its null, one byte, the encoded settings with their null.
  -- The settings are 13 bytes, the path of the map, which holds no null, a null, and what may follow.
  pub parse_gameinfo-packet :
      (header name : List ℕ) (separator : ℕ) (rest : List ℕ)
      → length header ≡ 18
      → All (λ b. 0 < b) name
      → parse_gameinfo from_utf8_lossy
          (packet header name separator (plain_stat settings path trailer) rest)
        ≡ done (
            some (record {
              game_name = from_utf8_lossy name;
              map_path = some (map_name (from_utf8_lossy path));
            }))
  unfolding parse_gameinfo parse_fields index
  parse_gameinfo-packet header name separator rest h named =
      let stat : List ℕ = plain_stat settings path trailer in
      let front : List ℕ = 0xf7 ∷ 0x30 ∷ header in
      let after : List ℕ = encode stat ++ (0 ∷ rest) in
      let bytes : List ℕ = packet header name separator stat rest in
      let regroup : bytes ≡ (front ++ (name ++ (0 ∷ separator ∷ []))) ++ after =
        simp append_assoc in
      let before : List ℕ = front ++ (name ++ (0 ∷ separator ∷ [])) in
      let lengths : (20 + length name + 2 ≡ length before) × (21 ≤ length bytes) = omega (
        arith,
        h,
        length-append header (name ++ (0 ∷ separator ∷ [])),
        length-append header (name ++ (0 ∷ separator ∷ after)),
        length-append name (0 ∷ separator ∷ []),
        length-append name (0 ∷ separator ∷ after),
      ) in
      let long : ltb (length bytes) 21 ≡ false = ground (arith, lengths.1) in
      let map_path : decode_stat_string from_utf8_lossy bytes (20 + length name + 2)
          ≡ done (some (map_name (from_utf8_lossy path))) =
        subst
          (λ bs.
            decode_stat_string from_utf8_lossy bs (20 + length name + 2)
            ≡ done (some (map_name (from_utf8_lossy path))))
          (sym regroup) (decode_stat_string-encode before rest _ lengths.0) in
      if-false _ _ _ long (
        >>=-done _ _
          (slice_from-append front (name ++ (0 ∷ separator ∷ after)) 20 (omega (arith, h)))
          (elim-some _ _ _ (position_zero-append name (separator ∷ after) named) (
            >>=-done _ _
              (slice-append front name (0 ∷ separator ∷ after) 20 _ (omega (arith, h)) refl)
              (>>=-done _ _ map_path refl))))
