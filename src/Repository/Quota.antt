-- ===== src/Repository/Quota.antt =====
-- internal/db/repository/quota.go and the SQL functions that it calls, of
-- migrations/000007_create_api_quota_usage.up.sql and 000013_add_search_list_calls_column.up.sql. `day` is the date of a time, CURRENT_DATE of NOW().
use youtube_webhook_ingestio.Base.{
  ℤ, leb, ℕ, ◌+◌, difference, at_least, String, Bool, Option, none, some, List, [], ◌∷◌, eqb, ◌==◌,
  if◌then◌else◌,
}
use youtube_webhook_ingestio.Models.{Time, ApiQuotaUsage, QuotaInfo}
use youtube_webhook_ingestio.World.Action.{ok, Action, pure, ◌>>=◌}
use youtube_webhook_ingestio.Repository.Enrichments.{limit_or}
use youtube_webhook_ingestio.Repository.Rows.{rows_where, descending, row_or_none}
use youtube_webhook_ingestio.Repository.Statement.{Statement, statement}

unfoldable pub find_day : ℕ → List ApiQuotaUsage → Option ApiQuotaUsage
find_day date [] = none
find_day date (q ∷ qs) = if eqb q.date date then some q else find_day date qs

-- The row of get_todays_quota_usage(), with its defaults.
abbrev pub todays_info : Option ApiQuotaUsage → QuotaInfo
todays_info none = record {
  quota_used = 0;
  quota_limit = 10000;
  quota_remaining = difference 10000 0;
  operations_count = 0;
}
todays_info (some q) = record {
  quota_used = q.quota_used;
  quota_limit = q.quota_limit;
  quota_remaining = difference q.quota_limit q.quota_used;
  operations_count = q.operations_count;
}

unfoldable pub select_todays_quota : (Time → ℕ) → Statement QuotaInfo
unfolding find_day
select_todays_quota day time db = (ok (todays_info (find_day (day time) db.api_quota_usage)), db)

-- GetTodaysQuota
unfoldable pub get_todays_quota : (Time → ℕ) → Action QuotaInfo
unfolding select_todays_quota statement
get_todays_quota day = statement "get todays quota" (select_todays_quota day)

-- CASE WHEN p_operation_type = … THEN 1 ELSE 0 END
abbrev pub one_if : Bool → ℕ
one_if b = if b then 1 else 0

abbrev pub first_usage : ℕ → ℕ → String → ApiQuotaUsage
first_usage date quota_cost operation_type = record {
  date = date;
  quota_used = quota_cost;
  quota_limit = 10000;
  operations_count = 1;
  videos_list_calls = one_if (operation_type == "videos_list");
  channels_list_calls = one_if (operation_type == "channels_list");
  search_list_calls = one_if (operation_type == "search_list");
  other_calls = one_if (operation_type == "other");
}

abbrev pub more_usage : ℕ → String → ApiQuotaUsage → ApiQuotaUsage
more_usage quota_cost operation_type q = record q {
  quota_used = q.quota_used + quota_cost;
  operations_count = q.operations_count + 1;
  videos_list_calls = q.videos_list_calls + one_if (operation_type == "videos_list");
  channels_list_calls = q.channels_list_calls + one_if (operation_type == "channels_list");
  search_list_calls = q.search_list_calls + one_if (operation_type == "search_list");
  other_calls = q.other_calls + one_if (operation_type == "other");
}

-- INSERT INTO api_quota_usage … ON CONFLICT (date) DO UPDATE
unfoldable pub add_usage : ℕ → ℕ → String → List ApiQuotaUsage → List ApiQuotaUsage
add_usage date quota_cost operation_type [] = first_usage date quota_cost operation_type ∷ []
add_usage date quota_cost operation_type (q ∷ qs) =
    if eqb q.date date
    then more_usage quota_cost operation_type q ∷ qs
    else q ∷ add_usage date quota_cost operation_type qs

unfoldable pub increment_todays_quota : (Time → ℕ) → ℕ → String → Statement (Unit {0})
unfolding add_usage
increment_todays_quota day quota_cost operation_type time db = (
  ok tt,
  record db { api_quota_usage = add_usage (day time) quota_cost operation_type db.api_quota_usage },
)

-- IncrementQuota
unfoldable pub increment_quota : (Time → ℕ) → ℕ → String → Action (Unit {0})
unfolding increment_todays_quota statement
increment_quota day quota_cost operation_type = statement "increment quota" (
    increment_todays_quota day quota_cost
      (if operation_type == "" then "other" else operation_type))

-- CheckQuotaAvailable of the repository
unfoldable pub repository_quota_available : (Time → ℕ) → ℕ → Action Bool
unfolding get_todays_quota pure ◌>>=◌
repository_quota_available day required_quota = do
  info ← get_todays_quota day
  pure (at_least info.quota_remaining required_quota)

-- GetQuotaForDate
unfoldable pub get_quota_for_date : ℕ → Action ApiQuotaUsage
get_quota_for_date date =
    statement "get quota for date" λ time db. (row_or_none (find_day date db.api_quota_usage), db)

-- GetQuotaHistory: WHERE date >= CURRENT_DATE - INTERVAL '1 day' * $1 ORDER BY date DESC
unfoldable pub get_quota_history : (Time → ℕ) → ℤ → Action (List ApiQuotaUsage)
get_quota_history day days = statement "get quota history" λ time db. (
  ok (
      rows_where (λ q. leb (day time) (q.date + limit_or 7 days)) (descending (λ q. q.date))
        db.api_quota_usage),
  db,
)
