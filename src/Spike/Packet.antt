-- ===== src/Spike/Packet.antt =====
-- `build_packet` of crates/spike-packet/src/main.rs: an IPv4 packet with a UDP datagram, behind the four
-- bytes that the loopback device asks for. A byte is a number below 256.
use mathlib.Core.Option
use war3_battle_tool.Prelude.{
  ℕ, zero, suc, ◌+◌, ◌-◌, ◌*◌, ◌/◌, ◌%◌, ◌<◌, Bool, List, [], ◌∷◌, ◌++◌, ◌==◌, nat_eq, Option, none,
  some, if◌then◌else◌, ◌&&◌, length, take, drop, get_elem?,
}
use war3_battle_tool.Spike.Checksum.{ip_checksum, u16}

-- `Ipv4Addr`, by its octets.
pub record Ipv4Addr : Type 0 where
  pub a : ℕ
  pub b : ℕ
  pub c : ℕ
  pub d : ℕ

abbrev octets : Ipv4Addr → List ℕ
octets ip = ip.a ∷ ip.b ∷ ip.c ∷ ip.d ∷ []

-- `u16::to_be_bytes`
abbrev to_be_bytes : ℕ → List ℕ
to_be_bytes n = (n / 256) ∷ (n % 256) ∷ []

-- `pkt[i] = byte`, for an index in range.
abbrev set : ℕ → ℕ → List ℕ → List ℕ
set i byte [] = []
set zero byte (x ∷ xs) = byte ∷ xs
set (suc i) byte (x ∷ xs) = x ∷ set i byte xs

-- `2u32.to_le_bytes()`, and what is pushed for the IPv4 header, the checksum 0.
abbrev with_header : ℕ → Ipv4Addr → Ipv4Addr → List ℕ
with_header ip_total_len src_ip dst_ip =
    (2 ∷ 0 ∷ 0 ∷ 0 ∷ [])
    ++ (0x45 ∷ 0 ∷ [])
    ++ to_be_bytes ip_total_len
    ++ (0 ∷ 0 ∷ 0x40 ∷ 0 ∷ 128 ∷ 17 ∷ 0 ∷ 0 ∷ [])
    ++ octets src_ip
    ++ octets dst_ip

-- Both lengths are a `u16`.
unfoldable pub build_packet : Ipv4Addr → Ipv4Addr → ℕ → ℕ → List ℕ → List ℕ
unfolding ip_checksum
build_packet src_ip dst_ip src_port dst_port payload =
    let udp_len = (8 + (length payload % u16)) % u16 in
    let ip_total_len = (20 + udp_len) % u16 in
    let pkt = with_header ip_total_len src_ip dst_ip in
    let checksum = ip_checksum (take 20 (drop 4 pkt)) in
    let pkt' = set 15 (checksum % 256) (set 14 (checksum / 256) pkt) in
    pkt'
    ++ to_be_bytes src_port
    ++ to_be_bytes dst_port
    ++ to_be_bytes udp_len
    ++ (0 ∷ 0 ∷ [])
    ++ payload

-- A receiver, after RFC 791 and RFC 768.
pub record Datagram : Type 0 where
  pub source : Ipv4Addr
  pub destination : Ipv4Addr
  pub source_port : ℕ
  pub destination_port : ℕ
  pub payload : List ℕ

abbrev byte : List ℕ → ℕ → ℕ
byte pkt i = Option.get_or (get_elem? pkt i) 0

abbrev be16 : List ℕ → ℕ → ℕ
be16 pkt i = byte pkt i * 256 + byte pkt (i + 1)

abbrev address : List ℕ → ℕ → Ipv4Addr
address pkt i = record {
  a = byte pkt i;
  b = byte pkt (i + 1);
  c = byte pkt (i + 2);
  d = byte pkt (i + 3);
}

-- The loopback header, version 4 with five words, the total length, protocol 17, the checksum, and the
-- length of the datagram.
abbrev is_whole : List ℕ → Bool
is_whole pkt =
    (byte pkt 0 == 2)
    && (byte pkt 4 == 0x45)
    && (be16 pkt 6 == (length pkt - 4))
    && (byte pkt 13 == 17)
    && (ip_checksum (take 20 (drop 4 pkt)) == 0)
    && (be16 pkt 28 == (length pkt - 24))

unfoldable pub receive : List ℕ → Option Datagram
receive pkt =
    if is_whole pkt
    then some (record {
      source = address pkt 16;
      destination = address pkt 20;
      source_port = be16 pkt 24;
      destination_port = be16 pkt 26;
      payload = drop 32 pkt;
    })
    else none

abbrev pub IsAddress : Ipv4Addr → Type 0
IsAddress ip = (ip.a < 256) × (ip.b < 256) × (ip.c < 256) × (ip.d < 256)

module _ (src_ip dst_ip : Ipv4Addr) (src_port dst_port : ℕ) (payload : List ℕ) where
  -- The header with a total length and a checksum.
  abbrev header : ℕ → ℕ → List ℕ
  header n c =
      0x45
      ∷ 0
      ∷ (n / 256)
      ∷ (n % 256)
      ∷ 0
      ∷ 0
      ∷ 0x40
      ∷ 0
      ∷ 128
      ∷ 17
      ∷ (c / 256)
      ∷ (c % 256)
      ∷ src_ip.a
      ∷ src_ip.b
      ∷ src_ip.c
      ∷ src_ip.d
      ∷ dst_ip.a
      ∷ dst_ip.b
      ∷ dst_ip.c
      ∷ dst_ip.d
      ∷ []

  abbrev packet : ℕ → ℕ → ℕ → List ℕ
  packet n udp_len c =
      (2 ∷ 0 ∷ 0 ∷ 0 ∷ [])
      ++ header n c
      ++ to_be_bytes src_port
      ++ to_be_bytes dst_port
      ++ to_be_bytes udp_len
      ++ (0 ∷ 0 ∷ [])
      ++ payload

  abbrev sent : Datagram
  sent = record {
    source = src_ip;
    destination = dst_ip;
    source_port = src_port;
    destination_port = dst_port;
    payload = payload;
  }
