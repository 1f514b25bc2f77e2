-- ===== src/Examples/Sources.antt =====
-- Schedules of sources (packages/domain/src/source-policy.ts).
use byok_grid.Common.{◌≡◌, refl, some, ok}
use byok_grid.Sources.Schedule.{
  SourceSchedule, schedule_interval_minutes, next_scheduled_source_run, PageDecision,
  decide_source_page_request,
}

hour : schedule_interval_minutes SourceSchedule.hourly ≡ some 60
unfolding schedule_interval_minutes
hour = refl

-- Two runs were missed.
third_hour : next_scheduled_source_run 1000 60 9000000 ≡ ok 10801000
unfolding next_scheduled_source_run
third_hour = refl

last_page : decide_source_page_request 10 1000 10 5 ≡ PageDecision.page_limit
unfolding decide_source_page_request
last_page = refl
