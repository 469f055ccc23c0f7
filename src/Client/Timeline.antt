-- ===== src/Client/Timeline.antt =====
-- `TimelinePanel` of crates/client/src/ui/timeline.rs: the lane of each strategy. The drawing, and the
-- width of a bar as a floating point number, are left out: it is the share of `max_duration` that the
-- strategy took.
use war3_battle_tool.Prelude.{ℕ, String, List, [], ◌∷◌, ◌≤◌, max, All, arith}
use war3_battle_tool.Client.Quic.{
  StrategyKind, quic_direct, upnp, success, failed, skipped, StrategyResult, show_reason,
}

abbrev label : StrategyKind → String
label quic_direct = "QUIC 穿透"
label upnp = "UPnP"

data Status : Type 0 where
  -- 「✓ {}ms」
  took : ℕ → Status
  -- 「✗ {}」
  failed_with : String → Status
  -- 「跳過」
  left_out : Status

unfoldable status : StrategyResult → Status
unfolding show_reason
status r = elim r.outcome [
  | success ↦ took r.duration_ms
  | failed reason ↦ failed_with (show_reason reason)
  | skipped ↦ left_out
]

-- `iter().map(|r| r.duration_ms).max()`
abbrev longest : List StrategyResult → ℕ
longest [] = 0
longest (r ∷ results) = max r.duration_ms (longest results)

-- `.unwrap_or(1).max(1)`
unfoldable max_duration : List StrategyResult → ℕ
max_duration results = max (longest results) 1

longest_lem :
    (results : List StrategyResult) (n : ℕ)
    → longest results ≤ n
    → All (λ r. r.duration_ms ≤ n) results
longest_lem [] n h = tt
longest_lem (r ∷ results) n h = (ground arith, longest_lem results n (ground arith))

-- The bars are drawn in shares of a number that is not 0 and that none of them exceeds.
max_duration_bounds :
    (results : List StrategyResult)
    → (1 ≤ max_duration results) × All (λ r. r.duration_ms ≤ max_duration results) results
unfolding max_duration
max_duration_bounds results =
    (ground arith, longest_lem results (max (longest results) 1) (ground arith))
