-- ===== src/Protocol/War3.antt =====
-- crates/protocol/src/war3.rs: the game's versions, its broadcast packet, and the parser of the
-- GAMEINFO packet. Bytes are numbers below 256; an index out of range or `0u8 - 1` is a panic.

pub mod Bytes
pub mod Stat
pub mod Parse
pub mod Total
pub mod RoundTrip
use war3_battle_tool.Prelude.{ℕ, String, List, [], ◌∷◌, Bool, true, false, ◌≡◌, ◌↔◌, Eq, arith}

abbrev pub war3_port : ℕ
war3_port = 6112

pub data War3Version : Type 0 where
  v127 v129c : War3Version

unfoldable pub version_beq : War3Version → War3Version → Bool
version_beq v127 v127 = true
version_beq v129c v129c = true
version_beq _ _ = false

pub version_beq_iff : (v w : War3Version) → (version_beq v w ≡ true) ↔ (v ≡ w)
unfolding version_beq
version_beq_iff v127 v127 = ground arith
version_beq_iff v129c v129c = ground arith
version_beq_iff v127 v129c = ground arith
version_beq_iff v129c v127 = ground arith

instance abbrev pub version_eq : Eq War3Version
version_eq = record { beq = version_beq; beq_iff = version_beq_iff }

unfoldable pub broadcast_packet : War3Version → List ℕ
broadcast_packet v127 =
    0xf7 ∷ 0x2f ∷ 0x10 ∷ 0x00 ∷ 0x50 ∷ 0x58 ∷ 0x33 ∷ 0x57 ∷ 0x1b ∷ 0x00 ∷ 0x00 ∷ 0x00 ∷ 0x00 ∷ 0x00
    ∷ 0x00 ∷ 0x00 ∷ []
broadcast_packet v129c =
    0xf7 ∷ 0x2f ∷ 0x10 ∷ 0x00 ∷ 0x50 ∷ 0x58 ∷ 0x33 ∷ 0x57 ∷ 0x1d ∷ 0x00 ∷ 0x00 ∷ 0x00 ∷ 0x00 ∷ 0x00
    ∷ 0x00 ∷ 0x00 ∷ []

unfoldable pub as_str : War3Version → String
as_str v127 = "1.27"
as_str v129c = "1.29c"
