-- ===== src/Quota.antt =====
-- internal/service/quota/manager.go. Percentages are only logged, except in GetQuotaUsagePercentage,
-- whose floating-point result is not modelled. The daily limit is below 2 ^ 56, so that its product with
-- a percentage does not wrap.
pub mod Threshold
pub mod Recording
pub mod Workers
use youtube_webhook_ingestio.Base.{
  ℕ, ◌+◌, ◌-◌, ◌*◌, ◌/◌, ℤ, or_default, String, Bool, true, false, ltb, leb, if◌then◌else◌,
}
use youtube_webhook_ingestio.Models.{Time, QuotaInfo}
use youtube_webhook_ingestio.World.Action.{
  Result, ok, err, Action, pure, attempt, context, ◌>>=◌, ◌>>◌,
}
use youtube_webhook_ingestio.Repository.Quota.{get_todays_quota, increment_quota}

-- Manager; `day` stands for its repository.
pub record Manager : Type 0 where
  pub day : Time → ℕ
  pub daily_limit : ℕ
  pub threshold_percent : ℕ

-- NewManager
unfoldable pub new_manager : (Time → ℕ) → ℤ → ℤ → Manager
new_manager day daily_limit threshold_percent =
    let p = or_default threshold_percent 90 in
    record {
      day = day;
      daily_limit = or_default daily_limit 10000;
      threshold_percent = if ltb 100 p then 90 else p;
    }

-- `thresholdQuota`
unfoldable pub threshold_quota : Manager → ℕ
threshold_quota m = (m.daily_limit * m.threshold_percent) / 100

unfoldable pub is_available : Manager → ℕ → QuotaInfo → Bool
unfolding threshold_quota
is_available m required_quota info =
    if leb (threshold_quota m) info.quota_used
    then false
    else if ltb (threshold_quota m) (info.quota_used + required_quota)
    then false
    else true

-- CheckQuotaAvailable
unfoldable pub check_quota_available : Manager → ℕ → Action (Bool × QuotaInfo)
unfolding is_available pure ◌>>=◌
check_quota_available m required_quota = do
  info ← context "failed to get quota info" (get_todays_quota m.day)
  pure (is_available m required_quota info, info)

-- RecordQuotaUsage; the second call is for the log.
unfoldable pub record_quota_usage : Manager → ℕ → String → Action (Unit {0})
unfolding pure ◌>>=◌
record_quota_usage m quota_cost operation_type = do
  context "failed to record quota usage" (increment_quota m.day quota_cost operation_type)
  attempt (get_todays_quota m.day)
  pure tt

-- GetQuotaInfo
unfoldable pub get_quota_info : Manager → Action QuotaInfo
unfolding get_todays_quota
get_quota_info m = get_todays_quota m.day

-- IsQuotaExhausted
unfoldable pub is_quota_exhausted : Manager → Action Bool
unfolding threshold_quota pure ◌>>=◌
is_quota_exhausted m = do
  info ← get_todays_quota m.day
  pure (leb (threshold_quota m) info.quota_used)

-- GetRemainingQuota
unfoldable pub get_remaining_quota : Manager → Action ℕ
unfolding threshold_quota pure ◌>>=◌
get_remaining_quota m = do
  info ← get_todays_quota m.day
  pure (if ltb (threshold_quota m) info.quota_used then 0 else threshold_quota m - info.quota_used)
