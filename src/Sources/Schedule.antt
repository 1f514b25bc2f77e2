-- ===== src/Sources/Schedule.antt =====
-- When a source is synced next, and when a sync stops asking for pages
-- (packages/domain/src/source-policy.ts). Times are milliseconds, and an interval is a natural
-- number: the source refuses a fraction and a negative number as it does a number below 5.
use byok_grid.Common.{
  ℕ, ◌+◌, ◌-◌, ◌*◌, ◌/◌, ltb, leb, Option, none, some, Result, ok, err, if◌then◌else◌,
}
use Prim.Native.Nat.{max}

pub data SourceSchedule : Type 0 where
  manual every_15_minutes hourly every_6_hours daily : SourceSchedule

-- `scheduleIntervalMinutes`, with SOURCE_SCHEDULE_MINUTES.
unfoldable pub schedule_interval_minutes : SourceSchedule → Option ℕ
schedule_interval_minutes manual = none
schedule_interval_minutes every_15_minutes = some 15
schedule_interval_minutes hourly = some 60
schedule_interval_minutes every_6_hours = some 360
schedule_interval_minutes daily = some 1440

pub data ScheduleError : Type 0 where
  interval_too_short : ScheduleError

-- `Math.max(1, Math.floor(elapsed / intervalMs) + 1)`: a negative quotient is rounded down to -1
-- at most.
abbrev pub intervals_due : ℕ → ℕ → ℕ → ℕ
intervals_due scheduled_for interval_ms now =
    if ltb now scheduled_for then 1 else max 1 ((now - scheduled_for) / interval_ms + 1)

unfoldable pub next_scheduled_source_run : ℕ → ℕ → ℕ → Result ScheduleError ℕ
next_scheduled_source_run scheduled_for interval_minutes now =
    if ltb interval_minutes 5
    then err interval_too_short
    else ok (
        scheduled_for
        + intervals_due scheduled_for (interval_minutes * 60000) now * (interval_minutes * 60000))

pub data PageDecision : Type 0 where
  continue_run page_limit record_limit : PageDecision

unfoldable pub decide_source_page_request : (max_pages max_records pages records : ℕ) → PageDecision
decide_source_page_request max_pages max_records pages records =
    if leb max_pages pages
    then page_limit
    else if leb max_records records
    then record_limit
    else continue_run
