-- ===== src/Sources/Aligned.antt =====
-- The next run of a source's schedule (packages/domain/src/source-policy.ts).
use byok_grid.Common.{ℕ, ◌+◌, ◌*◌, ◌≤◌, ◌<◌, ◌≡◌, ◌⊎◌}

-- The run is a whole number of intervals after the scheduled time, at least one, and after `now`,
-- by one interval at most unless one interval was enough.
pub record IsNext (scheduled_for interval_ms now run : ℕ) : Type 0 where
  pub intervals : ℕ
  pub some_interval : 1 ≤ intervals
  pub on_grid : run ≡ scheduled_for + intervals * interval_ms
  pub later : now < run
  pub first : (intervals ≡ 1) ⊎ (run ≤ now + interval_ms)
