-- ===== src/Server/Time.antt =====
-- `std::time`: an `Instant` is a number of nanoseconds on the monotonic clock. A handler is given
-- the time at which it runs.
use war3_battle_tool.Prelude.{ℕ, ◌*◌, ◌-◌}

abbrev pub Instant : Type 0
Instant = ℕ

-- `Duration::from_secs`
abbrev pub from_secs : ℕ → ℕ
from_secs n = n * 1_000_000_000

-- `t.elapsed()` at the time `now`, which is never negative.
abbrev pub elapsed : Instant → Instant → ℕ
elapsed now t = now - t
