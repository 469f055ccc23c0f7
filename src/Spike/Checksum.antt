-- ===== src/Spike/Checksum.antt =====
-- `ip_checksum` of crates/spike-packet/src/main.rs. A byte is a number below 256.
use war3_battle_tool.Prelude.{
  ℕ, zero, suc, ◌+◌, ◌-◌, ◌*◌, ◌/◌, ◌%◌, ◌<◌, ◌≡◌, refl, List, [], ◌∷◌, ◌==◌, nat_eq, if◌then◌else◌,
  arith, ap, ◌∙◌,
}

abbrev pub u16 : ℕ
u16 = 65536

abbrev pub u32 : ℕ
u32 = 4_294_967_296

-- `for chunk in data.chunks(2)`, with the words read from the most significant byte; an odd last byte is
-- followed by 0.
unfoldable pub word_sum : List ℕ → ℕ → ℕ
word_sum [] sum = sum
word_sum (b ∷ []) sum = (sum + b * 256) % u32
word_sum (b ∷ c ∷ bytes) sum = word_sum bytes ((sum + (b * 256 + c)) % u32)

-- `(sum & 0xffff) + (sum >> 16)`
abbrev pub fold_carry : ℕ → ℕ
fold_carry sum = (sum % u16) + (sum / u16)

-- `while (sum >> 16) != 0`, on fuel.
unfoldable pub fold_carries : ℕ → ℕ → ℕ
fold_carries zero sum = sum
fold_carries (suc fuel) sum =
    let rest = fold_carries fuel (fold_carry sum) in if sum / u16 == 0 then sum else rest

-- `!(sum as u16)`
unfoldable pub ip_checksum : List ℕ → ℕ
unfolding word_sum fold_carries
ip_checksum bytes = 65535 - (fold_carries 2 (word_sum bytes 0) % u16)

-- The loop has ended.
settled : (fuel sum : ℕ) → sum < u16 → fold_carries fuel sum ≡ sum
unfolding fold_carries
settled zero sum h = refl
settled (suc fuel) sum h = ground arith

-- Two rounds are enough for a `u32`: more fuel changes nothing.
fold_carries_enough :
    (fuel sum : ℕ) → sum < u32 → fold_carries (suc (suc fuel)) sum ≡ fold_carries 2 sum
unfolding fold_carries
fold_carries_enough fuel sum h =
    ground (arith, settled fuel (fold_carry (fold_carry sum)), settled (suc fuel) (fold_carry sum))

-- The folded sum is the sum modulo 65535, with 65535 in place of 0 for a sum that is not 0.
pub fold_carries_lem :
    (sum : ℕ) → sum < u32 → fold_carries 2 sum ≡ (if sum == 0 then 0 else ((sum - 1) % 65535) + 1)
unfolding fold_carries
fold_carries_lem sum h = ground arith

-- The sum without the bound of a `u32`.
abbrev pub total : List ℕ → ℕ
total [] = 0
total (b ∷ []) = b * 256
total (b ∷ c ∷ bytes) = (b * 256 + c) + total bytes

pub word_sum-total :
    (bytes : List ℕ) (sum : ℕ) → sum + total bytes < u32 → word_sum bytes sum ≡ sum + total bytes
unfolding word_sum
word_sum-total [] sum h = omega arith
word_sum-total (b ∷ []) sum h = omega arith
word_sum-total (b ∷ c ∷ bytes) sum h =
    let small : (sum + (b * 256 + c)) % u32 ≡ sum + (b * 256 + c) = omega arith in
    let rest : word_sum bytes (sum + (b * 256 + c)) ≡ (sum + (b * 256 + c)) + total bytes =
      word_sum-total bytes (sum + (b * 256 + c)) (omega arith) in
    ap (word_sum bytes) small ∙ rest ∙ omega arith

-- A header whose words, without the checksum, come to `sum`, and which holds their checksum.
checked :
    (sum : ℕ)
    → 0 < sum
    → sum < 2_147_483_648
    → fold_carries 2 (sum + (65535 - (fold_carries 2 sum % u16))) ≡ 65535
checked sum low high = ground (
  arith,
  fold_carries_lem sum (omega arith),
  fold_carries_lem (sum + (65535 - (fold_carries 2 sum % u16))) (omega arith),
)

-- The test of a receiver, which sums the words of the header with the checksum that it holds.
pub ip_checksum-verified :
    (before after : List ℕ)
    → 0 < total before
    → total before < 2_147_483_648
    → total after ≡ total before + ip_checksum before
    → ip_checksum after ≡ 0
unfolding ip_checksum
ip_checksum-verified before after low high same =
    let sum_before : word_sum before 0 ≡ total before =
      omega (arith, word_sum-total before 0 (omega arith)) in
    let c : ip_checksum before ≡ 65535 - (fold_carries 2 (total before) % u16) =
      ap (λ s. 65535 - (fold_carries 2 s % u16)) sum_before in
    let sum_after : word_sum after 0
        ≡ total before + (65535 - (fold_carries 2 (total before) % u16)) =
      omega (arith, word_sum-total after 0 (omega arith), same, c) in
    ap (λ s. 65535 - (fold_carries 2 s % u16)) sum_after
    ∙ ap (λ s. 65535 - (s % u16)) (checked (total before) low high)
