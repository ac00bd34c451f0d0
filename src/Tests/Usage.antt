-- ===== src/Tests/Usage.antt =====
-- Runs of the quota manager.
use youtube_webhook_ingestio.Base.{ℕ, ◌+◌, ◌*◌, ◌/◌, ◌≤◌, refl, arith, some, [], ◌∷◌}
use youtube_webhook_ingestio.Models.{QuotaInfo}
use youtube_webhook_ingestio.World.{World}
use youtube_webhook_ingestio.Repository.Quota.{first_usage, todays_info}
use youtube_webhook_ingestio.Quota.{
  Manager, threshold_quota, check_quota_available, record_quota_usage,
}
use youtube_webhook_ingestio.Quota.Threshold.{used_today}
use youtube_webhook_ingestio.Quota.Workers.{
  Shared, Steps, stop, next, grant, spend, steps-within_threshold,
}
use youtube_webhook_ingestio.Tests.{first_world, no_rows_yet}
use youtube_webhook_ingestio.Quota.{is_available}
use youtube_webhook_ingestio.World.Action.{context, attempt, pure, remote, ◌>>=◌}
use youtube_webhook_ingestio.Repository.Statement.{statement}
use youtube_webhook_ingestio.Repository.Quota.{
  get_todays_quota, select_todays_quota, find_day, increment_quota, increment_todays_quota,
  add_usage,
}

abbrev manager : Manager
manager = record { day = λ t. t / 100; daily_limit = 100; threshold_percent = 90 }

-- 88 units used on the day of the clock
abbrev busy : World
busy = record (first_world []) {
  db = record no_rows_yet { api_quota_usage = first_usage 2 88 "videos_list" ∷ [] };
}

abbrev info : QuotaInfo
info = todays_info (some (first_usage 2 88 "videos_list"))

abbrev shared : World → ℕ → ℕ → Shared
shared w granted recorded = record { world = w; granted = granted; recorded = recorded }

-- The worlds after the recording of 2 units, and of 2 more
abbrev busier : World
busier = (record_quota_usage manager 2 "videos_list" busy).1

abbrev busiest : World
busiest = (record_quota_usage manager 2 "videos_list" busier).1

-- Two workers are allowed 2 units each when 88 of 90 were used.
both : Steps manager 2 2 "videos_list" (shared busy 0 0) (shared busiest 0 2)
unfolding check_quota_available is_available threshold_quota record_quota_usage context attempt pure
    remote ◌>>=◌ statement get_todays_quota select_todays_quota find_day increment_quota
    increment_todays_quota add_usage
both = next (grant {info = info} {w' = busy} (ground arith) refl) (
    next (grant {info = info} {w' = busy} (ground arith) refl) (
      next (spend {n = 1} {w' = busier} refl refl)
        (next (spend {n = 0} {w' = busiest} refl refl) stop)))

steps-within_threshold_example :
    (used_today manager busiest + 2 ≤ threshold_quota manager + 2 * 2)
    × (used_today manager busy + 2 * 2 ≤ used_today manager busiest)
unfolding threshold_quota find_day
steps-within_threshold_example =
    steps-within_threshold manager 2 2 "videos_list" (shared busy 0 0) (shared busiest 0 2)
      (ground arith) refl refl (ground arith) both
