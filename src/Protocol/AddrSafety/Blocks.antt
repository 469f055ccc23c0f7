-- ===== src/Protocol/AddrSafety/Blocks.antt =====
-- The addresses that `is_safe_external_addr` refuses, as the address blocks of the RFCs.
use war3_battle_tool.Prelude.{
  ℕ, ◌+◌, ◌*◌, ◌/◌, ◌^◌, ◌-◌, ◌<◌, ◌≤◌, ◌≡◌, refl, ◌↔◌, ◌⊎◌, inl, inr, true, false, arith,
}
use war3_battle_tool.Protocol.AddrSafety.{IpAddr, v4, v6, is_safe_external_addr}

-- The address as one number, most significant part first.
abbrev pub bits_v4 : ℕ → ℕ → ℕ → ℕ → ℕ
bits_v4 a b c d = ((a * 256 + b) * 256 + c) * 256 + d

abbrev pub bits_v6 : ℕ → ℕ → ℕ → ℕ → ℕ → ℕ → ℕ → ℕ → ℕ
bits_v6 a b c d e f g h =
    ((((((a * 65536 + b) * 65536 + c) * 65536 + d) * 65536 + e) * 65536 + f) * 65536 + g) * 65536
    + h

-- `address/len` of CIDR notation, for a number of 32 bits.
abbrev pub InBlock : ℕ → ℕ → ℕ → Type 0
InBlock address len x = x / 2 ^ (32 - len) ≡ address / 2 ^ (32 - len)

-- RFC 1122 loopback, RFC 1918 private, RFC 3927 link-local, broadcast, unspecified, RFC 6598 CGNAT.
abbrev pub IsRefusedV4 : ℕ → Type 0
IsRefusedV4 x =
    InBlock (bits_v4 127 0 0 0) 8 x
    ⊎ InBlock (bits_v4 10 0 0 0) 8 x
    ⊎ InBlock (bits_v4 172 16 0 0) 12 x
    ⊎ InBlock (bits_v4 192 168 0 0) 16 x
    ⊎ InBlock (bits_v4 169 254 0 0) 16 x
    ⊎ InBlock (bits_v4 255 255 255 255) 32 x
    ⊎ InBlock 0 32 x
    ⊎ InBlock (bits_v4 100 64 0 0) 10 x

abbrev RefusedOctets : ℕ → ℕ → ℕ → ℕ → Type 0
RefusedOctets a b c d =
    (a ≡ 127)
    ⊎ (a ≡ 10)
    ⊎ ((a ≡ 172) × (16 ≤ b) × (b ≤ 31))
    ⊎ ((a ≡ 192) × (b ≡ 168))
    ⊎ ((a ≡ 169) × (b ≡ 254))
    ⊎ ((a ≡ 255) × (b ≡ 255) × (c ≡ 255) × (d ≡ 255))
    ⊎ ((a ≡ 0) × (b ≡ 0) × (c ≡ 0) × (d ≡ 0))
    ⊎ ((a ≡ 100) × (64 ≤ b) × (b ≤ 127))

module _ (a b c d : ℕ) (ha : a < 256) (hb : b < 256) (hc : c < 256) (hd : d < 256) where
  block_8 : (n : ℕ) → InBlock (bits_v4 n 0 0 0) 8 (bits_v4 a b c d) ↔ (a ≡ n)
  block_8 n = (λ h. omega arith, λ h. omega arith)

  block_16 :
      (n m : ℕ) → m < 256 → InBlock (bits_v4 n m 0 0) 16 (bits_v4 a b c d) ↔ ((a ≡ n) × (b ≡ m))
  block_16 n m hm = (λ h. (omega arith, omega arith), λ h. omega arith)

  block_32 :
      (n m k l : ℕ)
      → m < 256
      → k < 256
      → l < 256
      → InBlock (bits_v4 n m k l) 32 (bits_v4 a b c d) ↔ ((a ≡ n) × (b ≡ m) × (c ≡ k) × (d ≡ l))
  block_32 n m k l hm hk hl =
      (λ h. (omega arith, omega arith, omega arith, omega arith), λ h. omega arith)

  block_172 : InBlock (bits_v4 172 16 0 0) 12 (bits_v4 a b c d) ↔ ((a ≡ 172) × (16 ≤ b) × (b ≤ 31))
  block_172 = (λ h. (omega arith, omega arith, omega arith), λ h. omega arith)

  block_100 : InBlock (bits_v4 100 64 0 0) 10 (bits_v4 a b c d) ↔ ((a ≡ 100) × (64 ≤ b) × (b ≤ 127))
  block_100 = (λ h. (omega arith, omega arith, omega arith), λ h. omega arith)

  octets_blocks : RefusedOctets a b c d → IsRefusedV4 (bits_v4 a b c d)
  octets_blocks (inl h) = inl ((block_8 127).1 h)
  octets_blocks (inr (inl h)) = inr (inl ((block_8 10).1 h))
  octets_blocks (inr (inr (inl h))) = inr (inr (inl ((block_172).1 h)))
  octets_blocks (inr (inr (inr (inl h)))) =
      inr (inr (inr (inl ((block_16 192 168 (omega arith)).1 h))))
  octets_blocks (inr (inr (inr (inr (inl h))))) =
      inr (inr (inr (inr (inl ((block_16 169 254 (omega arith)).1 h)))))
  octets_blocks (inr (inr (inr (inr (inr (inl h)))))) = inr (
      inr (
        inr (
          inr (
            inr (inl ((block_32 255 255 255 255 (omega arith) (omega arith) (omega arith)).1 h))))))
  octets_blocks (inr (inr (inr (inr (inr (inr (inl h))))))) = inr (
      inr (
        inr (
          inr
            (inr (inr (inl ((block_32 0 0 0 0 (omega arith) (omega arith) (omega arith)).1 h)))))))
  octets_blocks (inr (inr (inr (inr (inr (inr (inr h))))))) =
      inr (inr (inr (inr (inr (inr (inr ((block_100).1 h)))))))

  blocks_octets : IsRefusedV4 (bits_v4 a b c d) → RefusedOctets a b c d
  blocks_octets (inl h) = inl ((block_8 127).0 h)
  blocks_octets (inr (inl h)) = inr (inl ((block_8 10).0 h))
  blocks_octets (inr (inr (inl h))) = inr (inr (inl ((block_172).0 h)))
  blocks_octets (inr (inr (inr (inl h)))) =
      inr (inr (inr (inl ((block_16 192 168 (omega arith)).0 h))))
  blocks_octets (inr (inr (inr (inr (inl h))))) =
      inr (inr (inr (inr (inl ((block_16 169 254 (omega arith)).0 h)))))
  blocks_octets (inr (inr (inr (inr (inr (inl h)))))) = inr (
      inr (
        inr (
          inr (
            inr (inl ((block_32 255 255 255 255 (omega arith) (omega arith) (omega arith)).0 h))))))
  blocks_octets (inr (inr (inr (inr (inr (inr (inl h))))))) = inr (
      inr (
        inr (
          inr
            (inr (inr (inl ((block_32 0 0 0 0 (omega arith) (omega arith) (omega arith)).0 h)))))))
  blocks_octets (inr (inr (inr (inr (inr (inr (inr h))))))) =
      inr (inr (inr (inr (inr (inr (inr ((block_100).0 h)))))))

refused_octets : (a b c d : ℕ) → is_safe_external_addr (v4 a b c d) ≡ false → RefusedOctets a b c d
unfolding is_safe_external_addr
refused_octets a b c d h = ground arith

octets_refused : (a b c d : ℕ) → RefusedOctets a b c d → is_safe_external_addr (v4 a b c d) ≡ false
unfolding is_safe_external_addr
octets_refused a b c d (inl h) = ground arith
octets_refused a b c d (inr (inl h)) = ground arith
octets_refused a b c d (inr (inr (inl h))) = ground arith
octets_refused a b c d (inr (inr (inr h))) = ground arith

-- An IPv4 address, of octets below 256, is refused exactly when, as a number of 32 bits, it lies in one of the
-- blocks that are named: loopback, private, link-local, broadcast, unspecified or shared.
pub IsRefusedV4-iff :
    (a b c d : ℕ)
    → a < 256
    → b < 256
    → c < 256
    → d < 256
    → (is_safe_external_addr (v4 a b c d) ≡ false) ↔ IsRefusedV4 (bits_v4 a b c d)
IsRefusedV4-iff a b c d ha hb hc hd = (
  λ h. octets_blocks a b c d ha hb hc hd (refused_octets a b c d h),
  λ h. octets_refused a b c d (blocks_octets a b c d ha hb hc hd h),
)

-- `address/len` for an IPv6 address: the blocks that the code means have at most 16 bits, so they
-- are told by the first segment.
abbrev pub IsRefusedV6 : ℕ → ℕ → ℕ → ℕ → ℕ → ℕ → ℕ → ℕ → Type 0
IsRefusedV6 a b c d e f g h =
    (bits_v6 a b c d e f g h ≡ 1)
    ⊎ (bits_v6 a b c d e f g h ≡ 0)
    ⊎ (a / 2 ^ 9 ≡ 0xfc00 / 2 ^ 9)
    ⊎ (a / 2 ^ 6 ≡ 0xfe80 / 2 ^ 6)

abbrev RefusedSegments : ℕ → ℕ → ℕ → ℕ → ℕ → ℕ → ℕ → ℕ → Type 0
RefusedSegments a b c d e f g h =
    ((a ≡ 0) × (b ≡ 0) × (c ≡ 0) × (d ≡ 0) × (e ≡ 0) × (f ≡ 0) × (g ≡ 0) × (h ≡ 1))
    ⊎ ((a ≡ 0) × (b ≡ 0) × (c ≡ 0) × (d ≡ 0) × (e ≡ 0) × (f ≡ 0) × (g ≡ 0) × (h ≡ 0))
    ⊎ ((0xfc00 ≤ a) × (a ≤ 0xfdff))
    ⊎ ((0xfe80 ≤ a) × (a ≤ 0xfebf))

module _ (a b c d e f g h : ℕ) where
  refused_segments :
      is_safe_external_addr (v6 a b c d e f g h) ≡ false → RefusedSegments a b c d e f g h
  unfolding is_safe_external_addr
  refused_segments r = ground arith

  segments_refused :
      RefusedSegments a b c d e f g h → is_safe_external_addr (v6 a b c d e f g h) ≡ false
  unfolding is_safe_external_addr
  segments_refused (inl r) = ground arith
  segments_refused (inr (inl r)) = ground arith
  segments_refused (inr (inr (inl r))) = ground arith
  segments_refused (inr (inr (inr r))) = ground arith

  segments_blocks : RefusedSegments a b c d e f g h → IsRefusedV6 a b c d e f g h
  segments_blocks (inl r) = inl (omega arith)
  segments_blocks (inr (inl r)) = inr (inl (omega arith))
  segments_blocks (inr (inr (inl r))) = inr (inr (inl (omega arith)))
  segments_blocks (inr (inr (inr r))) = inr (inr (inr (omega arith)))

  blocks_segments : IsRefusedV6 a b c d e f g h → RefusedSegments a b c d e f g h
  blocks_segments (inl r) = inl (omega arith)
  blocks_segments (inr (inl r)) = inr (inl (omega arith))
  blocks_segments (inr (inr (inl r))) = inr (inr (inl (omega arith)))
  blocks_segments (inr (inr (inr r))) = inr (inr (inr (omega arith)))

-- An IPv6 address is refused exactly when it is `::1`, `::`, in fc00::/7 or in fe80::/10.
IsRefusedV6-iff :
    (a b c d e f g h : ℕ)
    → (is_safe_external_addr (v6 a b c d e f g h) ≡ false) ↔ IsRefusedV6 a b c d e f g h
IsRefusedV6-iff a b c d e f g h = (
  λ r. segments_blocks a b c d e f g h (refused_segments a b c d e f g h r),
  λ r. segments_refused a b c d e f g h (blocks_segments a b c d e f g h r),
)

-- `Ipv4Addr::to_ipv6_mapped`: `::ffff:a.b.c.d`.
abbrev pub to_ipv6_mapped : ℕ → ℕ → ℕ → ℕ → IpAddr
to_ipv6_mapped a b c d = v6 0 0 0 0 0 0xffff (a * 256 + b) (c * 256 + d)

-- Every address that is refused as an IPv4 address is let through in its IPv4-mapped form.
mapped_addr_accepted :
    (a b c d : ℕ)
    → is_safe_external_addr (v4 a b c d) ≡ false
    → is_safe_external_addr (to_ipv6_mapped a b c d) ≡ true
unfolding is_safe_external_addr
mapped_addr_accepted a b c d h = refl
