-- ===== src/Server/Ws/Rate.antt =====
-- `RateLimiter::allow` of ws.rs, over a run of messages.
use war3_battle_tool.Prelude.{ℕ, ◌+◌, ◌-◌, ◌≤◌, ◌<◌, List, [], ◌∷◌, All, arith, bit}
use war3_battle_tool.Server.Time.{Instant}
use war3_battle_tool.Server.Ws.{RateLimiter, refill, allow}

-- How many of the messages that come at these times are let through.
unfoldable pub allowed : List Instant → RateLimiter → ℕ
unfolding allow
allowed [] l = 0
allowed (now ∷ times) l = bit (allow now l).1 + allowed times (allow now l).0

-- Within one second of a refill, no message gets a token that was not there.
allowed-le_tokens :
    (times : List Instant) (l : RateLimiter)
    → All (λ t. t < l.last_refill + 1000000000) times
    → allowed times l ≤ l.tokens
unfolding allowed refill
allowed-le_tokens [] l h = omega arith
allowed-le_tokens (now ∷ times) l h = ground (
  arith,
  allowed-le_tokens times l h.1,
  allowed-le_tokens times (record l { tokens = l.tokens - 1 }) h.1,
)

from_refill :
    (a t : Instant) (times : List Instant)
    → a ≤ t
    → All (λ u. (a ≤ u) × (u < a + 1000000000)) times
    → All (λ u. u < t + 1000000000) times
from_refill a t [] h k = tt
from_refill a t (u ∷ times) h k = (omega (arith, k.0.1), from_refill a t times h k.1)

allowed-le_twice :
    (a : Instant) (times : List Instant) (l : RateLimiter)
    → All (λ t. (a ≤ t) × (t < a + 1000000000)) times
    → allowed times l ≤ l.tokens + 10
unfolding allowed refill
allowed-le_twice a [] l h = omega arith
allowed-le_twice a (now ∷ times) l h = ground (
  arith,
  allowed-le_twice a times l h.1,
  allowed-le_twice a times (record l { tokens = l.tokens - 1 }) h.1,
  allowed-le_tokens times (record { tokens = 9; last_refill = now })
      (from_refill a now times h.0.0 h.1),
)

-- Whatever messages come within one second, and however they are ordered, a limiter with at most
-- ten tokens lets at most twenty of them through: what it had, and one refill.
pub allowed-second :
    (a : Instant) (times : List Instant) (l : RateLimiter)
    → All (λ t. (a ≤ t) × (t < a + 1000000000)) times
    → l.tokens ≤ 10
    → allowed times l ≤ 20
allowed-second a times l h k = omega (arith, allowed-le_twice a times l h)
