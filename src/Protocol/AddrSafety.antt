-- ===== src/Protocol/AddrSafety.antt =====
-- crates/protocol/src/addr_safety.rs, and the parts of `std::net` that the program uses. An octet
-- is a number below 256 and a segment one below 65536.
pub mod Blocks
use mathlib.Core.Bool.{decide}
use native.Mathlib.Decide.{ℕ_discrete}
use war3_battle_tool.Prelude.{
  ℕ, ◌≡◌, ◌↔◌, Bool, true, false, not, ◌&&◌, ◌||◌, ◌==◌, nat_eq, leb, Eq, arith, if◌then◌else◌,
}

pub data IpAddr : Type 0 where
  v4 : ℕ → ℕ → ℕ → ℕ → IpAddr
  v6 : ℕ → ℕ → ℕ → ℕ → ℕ → ℕ → ℕ → ℕ → IpAddr

-- `impl PartialEq for IpAddr`
unfoldable pub ip_beq : IpAddr → IpAddr → Bool
ip_beq (v4 a b c d) (v4 a' b' c' d') = a == a' && b == b' && c == c' && d == d'
ip_beq (v6 a b c d e f g h) (v6 a' b' c' d' e' f' g' h') =
    a == a' && b == b' && c == c' && d == d' && e == e' && f == f' && g == g' && h == h'
ip_beq _ _ = false

pub ip_beq_iff : (i j : IpAddr) → (ip_beq i j ≡ true) ↔ (i ≡ j)
unfolding ip_beq
ip_beq_iff (v4 a b c d) (v4 a' b' c' d') = ground arith
ip_beq_iff (v6 a b c d e f g h) (v6 a' b' c' d' e' f' g' h') = ground arith
ip_beq_iff (v4 a b c d) (v6 a' b' c' d' e' f' g' h') = ground arith
ip_beq_iff (v6 a b c d e f g h) (v4 a' b' c' d') = ground arith

instance abbrev pub ip_eq : Eq IpAddr
ip_eq = record { beq = ip_beq; beq_iff = ip_beq_iff }

pub record SocketAddr : Type 0 where
  pub ip : IpAddr
  pub port : ℕ

-- `Ipv4Addr::is_loopback`, `is_private`, `is_link_local`, `is_broadcast`, `is_unspecified`
abbrev pub is_loopback_v4 : ℕ → ℕ → ℕ → ℕ → Bool
is_loopback_v4 a b c d = a == 127

abbrev pub is_private : ℕ → ℕ → ℕ → ℕ → Bool
is_private a b c d = a == 10 || (a == 172 && leb 16 b && leb b 31) || (a == 192 && b == 168)

abbrev pub is_link_local : ℕ → ℕ → ℕ → ℕ → Bool
is_link_local a b c d = a == 169 && b == 254

abbrev pub is_broadcast : ℕ → ℕ → ℕ → ℕ → Bool
is_broadcast a b c d = a == 255 && b == 255 && c == 255 && d == 255

abbrev pub is_unspecified_v4 : ℕ → ℕ → ℕ → ℕ → Bool
is_unspecified_v4 a b c d = a == 0 && b == 0 && c == 0 && d == 0

-- `Ipv6Addr::is_loopback`, `is_unspecified`
abbrev pub is_loopback_v6 : ℕ → ℕ → ℕ → ℕ → ℕ → ℕ → ℕ → ℕ → Bool
is_loopback_v6 a b c d e f g h =
    a == 0 && b == 0 && c == 0 && d == 0 && e == 0 && f == 0 && g == 0 && h == 1

abbrev pub is_unspecified_v6 : ℕ → ℕ → ℕ → ℕ → ℕ → ℕ → ℕ → ℕ → Bool
is_unspecified_v6 a b c d e f g h =
    a == 0 && b == 0 && c == 0 && d == 0 && e == 0 && f == 0 && g == 0 && h == 0

-- `IpAddr::is_loopback`
unfoldable pub is_loopback : IpAddr → Bool
is_loopback (v4 a b c d) = is_loopback_v4 a b c d
is_loopback (v6 a b c d e f g h) = is_loopback_v6 a b c d e f g h

unfoldable pub is_safe_external_addr : IpAddr → Bool
is_safe_external_addr (v4 a b c d) =
    if is_loopback_v4 a b c d
      || is_private a b c d
      || is_link_local a b c d
      || is_broadcast a b c d
      || is_unspecified_v4 a b c d
    then false
    else not (a == 100 && leb 64 b && leb b 127)
is_safe_external_addr (v6 a b c d e f g h) =
    not (is_loopback_v6 a b c d e f g h)
    && not (is_unspecified_v6 a b c d e f g h)
    && not ((leb 0xfc00 a && leb a 0xfdff) || (leb 0xfe80 a && leb a 0xfebf))
